-- ===== src/Events/Statuses.antt =====
-- events.rs: the tables of statuses by severity.
use kubectl_nvim.Prelude.{Text, txt, List, [], ◌∷◌}

abbrev pub error_statuses : List Text
error_statuses =
    txt "Red"
    ∷ txt "Error"
    ∷ txt "Backoff"
    ∷ txt "Containergcfailed"
    ∷ txt "Containerstatusunknown"
    ∷ txt "Crashloopbackoff"
    ∷ txt "Deadlineexceeded"
    ∷ txt "Degraded"
    ∷ txt "Errimageneverpull"
    ∷ txt "Errimagepull"
    ∷ txt "Evicted"
    ∷ txt "Exceededgraceperiod"
    ∷ txt "Failed"
    ∷ txt "Failedattachvolume"
    ∷ txt "Failedcreatepodcontainer"
    ∷ txt "Failedcreatepodsandbox"
    ∷ txt "Faileddeclare"
    ∷ txt "Failedkillpod"
    ∷ txt "Failedmapvolume"
    ∷ txt "Failedmount"
    ∷ txt "Failedmountonfilesystemmismatch"
    ∷ txt "Failednodeallocatableenforcement"
    ∷ txt "Failedpodsandboxstatus"
    ∷ txt "Failedpoststarthook"
    ∷ txt "Failedprestophook"
    ∷ txt "Failedscheduling"
    ∷ txt "Failedsync"
    ∷ txt "Failedtoupdateendpoint"
    ∷ txt "Failedtoupdateendpointslices"
    ∷ txt "Failedvalidation"
    ∷ txt "Filesystemresizefailed"
    ∷ txt "Freediskspacefailed"
    ∷ txt "Imagegcfailed"
    ∷ txt "Imagepullbackoff"
    ∷ txt "Inspectfailed"
    ∷ txt "Invaliddiskcapacity"
    ∷ txt "Invalidimagename"
    ∷ txt "Kubeletsetupfailed"
    ∷ txt "Lost"
    ∷ txt "Networkunavailable"
    ∷ txt "Nodenotschedulable"
    ∷ txt "Oomkilled"
    ∷ txt "Outofpods"
    ∷ txt "Secretsyncederror"
    ∷ txt "Unhealthy"
    ∷ txt "Unknown"
    ∷ txt "Updatefailed"
    ∷ txt "Volumeresizefailed"
    ∷ txt "Init:errimagepull"
    ∷ txt "Init:imagepullbackoff"
    ∷ []

abbrev pub warning_statuses : List Text
warning_statuses =
    txt "Yellow"
    ∷ txt "Warning"
    ∷ txt "Alreadymountedvolume"
    ∷ txt "Available"
    ∷ txt "Containercreating"
    ∷ txt "Delete"
    ∷ txt "Deletingnode"
    ∷ txt "Evictedbyvpa"
    ∷ txt "Killing"
    ∷ txt "Networknotready"
    ∷ txt "Nodeallocatableenforced"
    ∷ txt "Nodenotready"
    ∷ txt "Nodeschedulable"
    ∷ txt "Notready"
    ∷ txt "Outofsync"
    ∷ txt "Pending"
    ∷ txt "Podinitializing"
    ∷ txt "Preempting"
    ∷ txt "Probewarning"
    ∷ txt "Progressing"
    ∷ txt "Pulling"
    ∷ txt "Released"
    ∷ txt "Removingnode"
    ∷ txt "Scalingreplicaset"
    ∷ txt "Starting"
    ∷ txt "Successfulattachvolume"
    ∷ txt "Successfulmountvolume"
    ∷ txt "Terminated"
    ∷ txt "Terminating"
    ∷ []

abbrev pub success_statuses : List Text
success_statuses =
    txt "Green"
    ∷ txt "Success"
    ∷ txt "Active"
    ∷ txt "Bound"
    ∷ txt "Completed"
    ∷ txt "Created"
    ∷ txt "Deployed"
    ∷ txt "Filesystemresizesuccessful"
    ∷ txt "Healthy"
    ∷ txt "Nodehasnodiskpressure"
    ∷ txt "Nodehassufficientmemory"
    ∷ txt "Nodehassufficientpid"
    ∷ txt "Nodeready"
    ∷ txt "Normal"
    ∷ txt "Pulled"
    ∷ txt "Ready"
    ∷ txt "Rebooted"
    ∷ txt "Registerednode"
    ∷ txt "Retain"
    ∷ txt "Running"
    ∷ txt "Sawcompletedjob"
    ∷ txt "Scheduled"
    ∷ txt "Secretsynced"
    ∷ txt "Started"
    ∷ txt "Successfulcreate"
    ∷ txt "Successfuldeclare"
    ∷ txt "Successfuldelete"
    ∷ txt "Successfulrescale"
    ∷ txt "Successfulupdate"
    ∷ txt "Successfullyreconciled"
    ∷ txt "Synced"
    ∷ txt "True"
    ∷ txt "Updated"
    ∷ txt "Updatedloadbalancer"
    ∷ txt "Valid"
    ∷ txt "Volumeresizesuccessful"
    ∷ []
