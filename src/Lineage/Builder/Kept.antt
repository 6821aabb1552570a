-- ===== src/Lineage/Builder/Kept.antt =====
-- lineage/builder.rs: from a manifest that uses a config map or secret to the flag of that object.
use mathlib.Core.Path.{subst}
use kubectl_nvim.Prelude.{
  ℕ, ◌≡◌, ◌≢◌, refl, sym, ap, ◌∙◌, inl, inr, Text, txt, text_eq, ◌==◌, lookup, Option, some, List,
  [], ◌∷◌, Memᴰ, false, get_elem?, arith, text_beq_iff, to_lowercase, lower_byte,
}
use kubectl_nvim.Lineage.Resource.{Resource, EdgeType}
use kubectl_nvim.Lineage.Graph.Interface.{DiGraph}
use kubectl_nvim.Lineage.Tree.Keys.{get_resource_key, relation_ref, relation_key}
use kubectl_nvim.Lineage.Tree.Build.{Tree}
use kubectl_nvim.Lineage.Tree.WellFormed.{nodes}
use kubectl_nvim.Lineage.Tree.Frame.{core?}
use kubectl_nvim.Lineage.Tree.Owners.{core_of}
use kubectl_nvim.Lineage.Tree.Link.{get_or, >>=-eq-some}
use kubectl_nvim.Lineage.Tree.Referred.{refers, relations_of, target_of}
use kubectl_nvim.Lineage.Tree.Linked.{
  linked_relation_edge, linked_config, linked_unchanged, IsLinkable,
}
use kubectl_nvim.Lineage.Registry.Table.{ResourceHandler, get_handler}
use kubectl_nvim.Lineage.Registry.Verdicts.{IsConfig}
use kubectl_nvim.Lineage.Relations.Spec.{
  PodSpec, EnvVar, EnvFromSource, container_env, ephemeral_env,
}
use kubectl_nvim.Lineage.Relations.Uses.{
  EnvUse, var_config_map, var_secret, from_config_map, from_secret, PodUses, container,
  init_container, ephemeral_container,
}
use kubectl_nvim.Lineage.Relations.Objects.{Json}
use kubectl_nvim.Lineage.Relations.Handlers.{extract_relationships}
use kubectl_nvim.Lineage.Relations.Templates.{pod_of, extract_uses_found}
use kubectl_nvim.Lineage.Builder.Parse.{
  str_field, nonempty, filter_map, parsed, parse_resource_typed,
}
use kubectl_nvim.Lineage.Builder.Build.{Iteration, keys_of, tree_of, tree_of-IsLinkable, build_tree}
use kubectl_nvim.Lineage.Builder.Added.{tree_of_node}

EnvUse-IsConfig :
    (vars : List EnvVar) (froms : List EnvFromSource) (kind name : Text)
    → EnvUse vars froms kind name
    → IsConfig kind
unfolding to_lowercase lower_byte
EnvUse-IsConfig vars froms _ _ (var_config_map v s n m e f) = inl refl
EnvUse-IsConfig vars froms _ _ (var_secret v s n m e f) = inr refl
EnvUse-IsConfig vars froms _ _ (from_config_map f n m e) = inl refl
EnvUse-IsConfig vars froms _ _ (from_secret f n m e) = inr refl

PodUses-IsConfig : (spec : PodSpec) (kind name : Text) → PodUses spec kind name → IsConfig kind
PodUses-IsConfig spec kind name (container c m u) = EnvUse-IsConfig _ _ kind name u
PodUses-IsConfig spec kind name (init_container c m u) = EnvUse-IsConfig _ _ kind name u
PodUses-IsConfig spec kind name (ephemeral_container c m u) = EnvUse-IsConfig _ _ kind name u

get_or-nonempty : {A : Type 0} (xs : List A) → get_or (nonempty xs) [] ≡ xs
get_or-nonempty [] = refl
get_or-nonempty (x ∷ xs) = refl

-- No other resource has the key of this one.
abbrev pub Alone : List Resource → Resource → Type 0
Alone rs r = (x : Resource) → Memᴰ x rs → get_resource_key x ≡ get_resource_key r → x ≡ r

module _ (J : Json) where
  parsed_relations :
      (item : J.Value) (r : Resource)
      → parse_resource_typed J item ≡ some r
      → relations_of r ≡ extract_relationships J r.kind item
  unfolding parse_resource_typed
  parsed_relations item r h =
      let (kind, _, h1) = >>=-eq-some (str_field J item (txt "kind")) _ h in
      let (metadata, _, h2) = >>=-eq-some (J.get item (txt "metadata")) _ h1 in
      let (name, _, h3) = >>=-eq-some (str_field J metadata (txt "name")) _ h2 in
      let same : parsed J item kind name metadata ≡ r = cc h3 in
      subst (λ (x : Resource). relations_of x ≡ extract_relationships J x.kind item) same
        (get_or-nonempty (extract_relationships J kind item))

  uses_related :
      (item : J.Value) (r : Resource) (h : ResourceHandler) (ns : Option Text) (spec : PodSpec)
      (kind name : Text)
      → parse_resource_typed J item ≡ some r
      → get_handler r.kind ≡ some h
      → pod_of J h.extract_relations item ≡ some (ns, spec)
      → PodUses spec kind name
      → Memᴰ (relation_ref kind name ns) (relations_of r)
  unfolding extract_relationships
  uses_related item r h ns spec kind name parsed_as handled pod uses =
      rw (parsed_relations item r parsed_as, handled)
        (extract_uses_found J h.extract_relations item ns spec kind name pod uses)

module _ (D : DiGraph Resource EdgeType) (iter : Iteration) (J : Json) (resources : List J.Value)
    (root_name : Text) where
  abbrev pub parsed_all : List Resource
  parsed_all = filter_map (parse_resource_typed J) resources

  abbrev pub unlinked : Tree D
  unlinked = tree_of D parsed_all root_name

  abbrev linkable : IsLinkable D unlinked (keys_of D iter unlinked)
  linkable = tree_of-IsLinkable D iter parsed_all root_name

  abbrev ResourceAt : Resource → Type 0
  ResourceAt r =
      (i : ℕ) × (lookup (get_resource_key r) unlinked.key_to_index ≡ some i)
      × (get_elem? (nodes D unlinked) i ≡ some r)

  target_found :
      (c : Resource) {n : ℕ}
      → lookup (get_resource_key c) unlinked.key_to_index ≡ some n
      → target_of D unlinked (relation_ref c.kind c.name c.namespace) ≡ some n
  unfolding relation_key get_resource_key relation_ref
  target_found c at = at

  key_listed :
      (k : Text) {i : ℕ}
      → lookup k unlinked.key_to_index ≡ some i
      → Memᴰ k (keys_of D iter unlinked)
  key_listed k {i} h = (iter.keys_iff unlinked.key_to_index k).1 (i, h)

  off_root_index :
      (r : Resource)
      → (get_resource_key r == unlinked.root_key) ≡ false
      → (n : ResourceAt r) → n.0 ≢ unlinked.root_index
  off_root_index r off (i, at, here) same =
      let w = linkable.formed in
      let (x, at_root, named) = w.indexed unlinked.root_key unlinked.root_index w.rooted in
      let both : r ≡ x = cc (here, at_root, ap (λ j. get_elem? (nodes D unlinked) j) same) in
      let keys = ap get_resource_key both ∙ named in
      absurd (ground (arith, text_beq_iff (get_resource_key r) unlinked.root_key))

  -- A manifest of a pod, or of something with a pod template, whose containers take values from a
  -- config map or secret of its namespace: in the tree that is built this one is not flagged as an
  -- orphan. Both are among the manifests, and share their keys with no other nor with the root.
  pub used_config_kept :
      (item : J.Value) (owner config x : Resource) (h : ResourceHandler) (spec : PodSpec) (j : ℕ)
      (u : Tree D)
      → parse_resource_typed J item ≡ some owner
      → get_handler owner.kind ≡ some h
      → pod_of J h.extract_relations item ≡ some (config.namespace, spec)
      → PodUses spec config.kind config.name
      → Memᴰ owner parsed_all
      → Memᴰ config parsed_all
      → Alone parsed_all owner
      → Alone parsed_all config
      → (get_resource_key owner == unlinked.root_key) ≡ false
      → (get_resource_key config == unlinked.root_key) ≡ false
      → build_tree D iter J resources root_name ≡ some u
      → lookup (get_resource_key config) u.key_to_index ≡ some j
      → get_elem? (nodes D u) j ≡ some x
      → x.is_orphan ≡ false
  unfolding build_tree
  used_config_kept item owner config x h spec j u parsed_as handled pod uses m_owner m_config
        alone_owner alone_config off_owner off_config built at_u here_u =
      let ks = keys_of D iter unlinked in
      let w = linkable.formed in
      let source = tree_of_node D parsed_all root_name owner w m_owner alone_owner off_owner in
      let (i, at, here) = source in
      let (j', at', here') =
        tree_of_node D parsed_all root_name config w m_config alone_config off_config in
      let related =
        uses_related J item owner h config.namespace spec config.kind config.name parsed_as handled
          pod uses in
      let (same_keys, _, alike) = linked_unchanged D unlinked ks linkable u built in
      let j_same : j' ≡ j =
        cc (at', at_u, ap (λ m. lookup (get_resource_key config) m) same_keys) in
      let edge =
        linked_relation_edge D unlinked ks linkable u built (get_resource_key owner) i j' owner
          (relation_ref config.kind config.name config.namespace)
          (key_listed (get_resource_key owner) at) at here related (target_found config at') in
      let same = core_of x config (
        ap core? (sym here_u)
        ∙ alike j
        ∙ ap (λ n. core? (get_elem? (nodes D unlinked) n)) (sym j_same)
        ∙ ap core? here') in
      let kinds = ap (λ (r : Resource). r.kind) same in
      linked_config D unlinked ks linkable u built (get_resource_key config) j' x (refers i j')
        (key_listed (get_resource_key config) at') off_config at' (rw j_same here_u)
        (subst (λ k. IsConfig k) (sym kinds) (PodUses-IsConfig spec config.kind config.name uses))
        edge refl refl (off_root_index owner off_owner source)
