-- ===== src/Lineage/Orphan/Patterns.antt =====
-- lineage/orphan_rules.rs: the patterns of system resources that are never orphans.
use kubectl_nvim.Prelude.{txt, [], ◌∷◌}
use kubectl_nvim.Lineage.Orphan.Condition.{ExceptionPattern}

unfoldable pub cluster_role_exception_pattern : ExceptionPattern
cluster_role_exception_pattern = record {
  exact_names =
      (txt "admin"
        ∷ txt "alert-routing-edit"
        ∷ txt "cloud-provider"
        ∷ txt "cluster-admin"
        ∷ txt "cluster-debugger"
        ∷ txt "edit"
        ∷ txt "eks:extension-metrics-apiserver"
        ∷ txt "global-operators-admin"
        ∷ txt "global-operators-edit"
        ∷ txt "global-operators-view"
        ∷ txt "monitoring-edit"
        ∷ txt "monitoring-rules-edit"
        ∷ txt "monitoring-rules-view"
        ∷ txt "olm-operators-admin"
        ∷ txt "olm-operators-edit"
        ∷ txt "olm-operators-view"
        ∷ txt "openshift-cluster-monitoring-admin"
        ∷ txt "openshift-cluster-monitoring-edit"
        ∷ txt "openshift-cluster-monitoring-view"
        ∷ txt "openshift-csi-main-attacher-role"
        ∷ txt "openshift-csi-main-provisioner-role"
        ∷ txt "openshift-csi-main-resizer-role"
        ∷ txt "openshift-csi-main-snapshotter-role"
        ∷ txt "openshift-csi-provisioner-configmap-and-secret-reader-role"
        ∷ txt "openshift-csi-provisioner-volumeattachment-reader-role"
        ∷ txt "openshift-csi-provisioner-volumesnapshot-reader-role"
        ∷ txt "openshift-csi-resizer-infrastructure-reader-role"
        ∷ txt "openshift-csi-resizer-storageclass-reader-role"
        ∷ txt "resource-metrics-server-resources"
        ∷ txt "storage-admin"
        ∷ txt "sudoer"
        ∷ txt "system:aggregate-to-admin"
        ∷ txt "system:aggregate-to-edit"
        ∷ txt "system:aggregate-to-view"
        ∷ txt "system:aggregated-metrics-reader"
        ∷ txt "system:auth-delegator"
        ∷ txt "system:build-strategy-custom"
        ∷ txt "system:certificates.k8s.io:certificatesigningrequests:nodeclient"
        ∷ txt "system:certificates.k8s.io:certificatesigningrequests:selfnodeclient"
        ∷ txt "system:certificates.k8s.io:kube-apiserver-client-approver"
        ∷ txt "system:certificates.k8s.io:kube-apiserver-client-kubelet-approver"
        ∷ txt "system:certificates.k8s.io:kubelet-serving-approver"
        ∷ txt "system:certificates.k8s.io:legacy-unknown-approver"
        ∷ txt "system:controller:cloud-node-controller"
        ∷ txt "system:controller:glbc"
        ∷ txt "system:heapster"
        ∷ txt "system:image-auditor"
        ∷ txt "system:image-pusher"
        ∷ txt "system:image-signer"
        ∷ txt "system:kube-aggregator"
        ∷ txt "system:kubelet-api-admin"
        ∷ txt "system:metrics-server-aggregated-reader"
        ∷ txt "system:node"
        ∷ txt "system:node-bootstrapper"
        ∷ txt "system:node-problem-detector"
        ∷ txt "system:node-reader"
        ∷ txt "system:openshift:aggregate-snapshots-to-storage-admin"
        ∷ txt "system:openshift:aggregate-to-storage-admin"
        ∷ txt "system:openshift:scc:hostaccess"
        ∷ txt "system:openshift:scc:hostmount"
        ∷ txt "system:openshift:scc:hostnetwork"
        ∷ txt "system:openshift:scc:nonroot"
        ∷ txt "system:openshift:scc:nonroot-v2"
        ∷ txt "system:openshift:scc:privileged"
        ∷ txt "system:openshift:scc:restricted"
        ∷ txt "system:openshift:templateservicebroker-client"
        ∷ txt "system:persistent-volume-provisioner"
        ∷ txt "system:router"
        ∷ txt "system:sdn-manager"
        ∷ txt "view"
        ∷ []);
  name_prefixes = [];
  name_suffixes = [];
  namespace_prefixes = [];
  namespace_names = [];
}

unfoldable pub cluster_role_binding_exception_pattern : ExceptionPattern
cluster_role_binding_exception_pattern = record {
  exact_names =
      (txt "kubeadm:kubelet-bootstrap"
        ∷ txt "kubeadm:node-autoapprove-bootstrap"
        ∷ txt "kubeadm:node-autoapprove-certificate-rotation"
        ∷ txt "system:controller:route-controller"
        ∷ txt "system:kube-dns"
        ∷ txt "system:node"
        ∷ txt "event-exporter-rb"
        ∷ txt "kubelet-bootstrap"
        ∷ txt "kubelet-bootstrap-node-bootstrapper"
        ∷ txt "kubelet-cluster-admin"
        ∷ txt "kubelet-nodepool-bootstrapper"
        ∷ txt "kubelet-user-npd-binding"
        ∷ txt "metrics-server-nanny:system:auth-delegator"
        ∷ txt "metrics-server:system:auth-delegator"
        ∷ txt "npd-binding"
        ∷ txt "system:controller:horizontal-pod-autoscaler"
        ∷ txt "system:controller:selinux-warning-controller"
        ∷ txt "system:konnectivity-server"
        ∷ []);
  name_prefixes = [];
  name_suffixes = [];
  namespace_prefixes = [];
  namespace_names = [];
}

unfoldable pub config_map_exception_pattern : ExceptionPattern
config_map_exception_pattern = record {
  exact_names = (txt "kube-root-ca.crt" ∷ txt "openshift-service-ca.crt" ∷ []);
  name_prefixes = [];
  name_suffixes = [];
  namespace_prefixes = (txt "openshift-" ∷ []);
  namespace_names =
      ((
        txt "kube-system",
        txt "amazon-vpc-cni"
            ∷ txt "aws-auth"
            ∷ txt "bootstrap"
            ∷ txt "cluster-autoscaler-status"
            ∷ txt "cluster-config-v1"
            ∷ txt "cluster-dns"
            ∷ txt "cluster-kubestore"
            ∷ txt "clustermetrics"
            ∷ txt "coredns-autoscaler"
            ∷ txt "extension-apiserver-authentication"
            ∷ txt "gke-common-webhook-heartbeat"
            ∷ txt "ingress-uid"
            ∷ txt "konnectivity-agent-autoscaler-config"
            ∷ txt "kube-apiserver-legacy-service-account-token-tracking"
            ∷ txt "kube-dns-autoscaler"
            ∷ txt "kube-proxy"
            ∷ txt "kube-proxy-config"
            ∷ txt "kubeadm-config"
            ∷ txt "kubedns-config-images"
            ∷ txt "kubelet-config"
            ∷ txt "overlay-upgrade-data"
            ∷ txt "root-ca"
            ∷ txt "efficiency-daemon-config"
            ∷ txt "metrics-agent-linux-config-images"
            ∷ txt "metrics-agent-windows-config-images"
            ∷ txt "nvidia-metrics-collector-config-map"
            ∷ [],
      )
        ∷ (txt "kube-public", txt "cluster-info" ∷ [])
        ∷ (
          txt "gmp-system",
          txt "config-images"
              ∷ txt "webhook-ca"
              ∷ txt "rule-evaluator"
              ∷ txt "rules-generated"
              ∷ [],
        )
        ∷ (txt "kubernetes-dashboard", txt "kubernetes-dashboard-settings" ∷ [])
        ∷ (txt "gke-managed-system", txt "dcgm-exporter-metrics" ∷ [])
        ∷ []);
}

unfoldable pub secret_exception_pattern : ExceptionPattern
secret_exception_pattern = record {
  exact_names = [];
  name_prefixes = (txt "bootstrap-token-" ∷ []);
  name_suffixes = (txt ".node-password.k3s" ∷ []);
  namespace_prefixes = (txt "openshift-" ∷ []);
  namespace_names =
      ((txt "kube-system", txt "k3s-serving" ∷ txt "kube-cloud-cfg" ∷ txt "kubeadmin" ∷ [])
        ∷ (
          txt "kubernetes-dashboard",
          txt "kubernetes-dashboard-certs"
              ∷ txt "kubernetes-dashboard-csrf"
              ∷ txt "kubernetes-dashboard-key-holder"
              ∷ [],
        )
        ∷ (txt "gmp-system", txt "alertmanager" ∷ txt "rules" ∷ txt "webhook-tls" ∷ [])
        ∷ []);
}

unfoldable pub service_account_exception_pattern : ExceptionPattern
service_account_exception_pattern = record {
  exact_names = (txt "default" ∷ []);
  name_prefixes = [];
  name_suffixes = [];
  namespace_prefixes = [];
  namespace_names = [];
}

unfoldable pub service_exception_pattern : ExceptionPattern
service_exception_pattern = record {
  exact_names = [];
  name_prefixes = [];
  name_suffixes = [];
  namespace_prefixes = [];
  namespace_names = ((txt "default", txt "kubernetes" ∷ []) ∷ []);
}
