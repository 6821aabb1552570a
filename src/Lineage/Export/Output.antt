-- ===== src/Lineage/Export/Output.antt =====
-- lineage/tree.rs: `export_dot`, `to_mermaid`, and the same for a subgraph, whose nodes and edges come
-- in the order in which the sets give them.
use kubectl_nvim.Prelude.{
  ℕ, ◌+◌, Text, txt, text_eq, ℕ_eq, Bool, false, nat_eq, Option, none, some, List, [], ◌∷◌, ◌++◌,
  HashMap, lookup, insert, get_elem?, flat_map, if◌then◌else◌,
}
use kubectl_nvim.Lineage.Resource.{Resource, EdgeType, owns, references}
use kubectl_nvim.Lineage.Graph.Interface.{Edge, DiGraph}
use kubectl_nvim.Lineage.Tree.Build.{Tree}
use kubectl_nvim.Lineage.Tree.WellFormed.{nodes, edges}
use kubectl_nvim.Lineage.Tree.Link.{◌>>=◌, is_config_kind}
use kubectl_nvim.Lineage.Query.Climb.{Run, finished, panicked, out_of_fuel}
use kubectl_nvim.Lineage.Listing.Collect.{collect}
use kubectl_nvim.Lineage.Export.Subgraph.{extract_subgraph}
use kubectl_nvim.Processors.Fields.{decimal}

abbrev pub node_id : ℕ → Text
node_id idx = txt "N" ++ decimal idx

-- The two characters `\n`.
abbrev pub break_text : Text
break_text = b'\\' ∷ txt "n"

abbrev pub with_namespace : Text → Option Text → Text
with_namespace label none = label
with_namespace label (some ns) = label ++ break_text ++ txt "(" ++ ns ++ txt ")"

abbrev pub label : Resource → Text
label r = with_namespace (r.kind ++ break_text ++ r.name) r.namespace

abbrev pub quoted : Text → Text
quoted s = b'"' ∷ s ++ b'"' ∷ []

abbrev pub line : Text → Text
line s = txt "    " ++ s ++ b'\n' ∷ []

abbrev pub dot_shape : Bool → Resource → Text
dot_shape is_root r =
    if is_root
    then txt "shape=box style=filled fillcolor=lightgray"
    else if is_config_kind r.kind
    then txt "shape=note style=filled fillcolor=lightyellow"
    else txt "shape=ellipse"

abbrev pub dot_node : Bool → ℕ → Resource → Text
dot_node is_root idx r = line (
    node_id idx ++ txt " [label=" ++ quoted (label r) ++ txt " " ++ dot_shape is_root r ++ txt "];")

abbrev pub dot_style : EdgeType → Text
dot_style owns = txt "color=blue style=solid"
dot_style references = txt "color=green style=dashed"

abbrev pub dot_edge : Edge EdgeType → Text
dot_edge e = line (
    node_id e.source
    ++ txt " -> "
    ++ node_id e.target
    ++ txt " ["
    ++ dot_style e.weight
    ++ txt "];")

abbrev pub dot_text : Text → Text → Text → Text
dot_text name node_lines edge_lines =
    txt "digraph "
    ++ name
    ++ txt " {"
    ++ b'\n' ∷ []
    ++ line (txt "rankdir=TB;")
    ++ line (txt "node [fontname=" ++ quoted (txt "Arial") ++ txt "];")
    ++ line (txt "edge [fontname=" ++ quoted (txt "Arial") ++ txt "];")
    ++ b'\n' ∷ node_lines
    ++ b'\n' ∷ edge_lines
    ++ txt "}"
    ++ b'\n' ∷ []

abbrev pub mermaid_shape : Bool → Resource → Text
mermaid_shape is_root r =
    if is_root
    then txt "[[" ++ quoted (label r) ++ txt "]]"
    else if is_config_kind r.kind
    then txt "[" ++ quoted (label r) ++ txt "]:::config"
    else txt "[" ++ quoted (label r) ++ txt "]"

abbrev pub mermaid_node : Bool → ℕ → Resource → Text
mermaid_node is_root idx r = line (node_id idx ++ mermaid_shape is_root r)

abbrev pub arrow : EdgeType → Text
arrow owns = txt " --> "
arrow references = txt " -.-> "

-- The two names are looked up in the map, which panics on a missing one.
abbrev pub mermaid_edge : HashMap ℕ Text → Edge EdgeType → Option Text
mermaid_edge ids e = do
  source_id ← lookup e.source ids
  target_id ← lookup e.target ids
  some (line (source_id ++ arrow e.weight ++ target_id))

abbrev pub mermaid_text : Text → Text → Text
mermaid_text node_lines edge_lines =
    txt "graph TD"
    ++ b'\n' ∷ node_lines
    ++ b'\n' ∷ edge_lines
    ++ b'\n' ∷ line (txt "classDef config fill:#ffffcc,stroke:#333,stroke-width:2px")

abbrev pub concat : List Text → Text
concat = flat_map (λ s. s)

-- `node_ids`, after the nodes of the list.
abbrev pub node_ids : List ℕ → HashMap ℕ Text
node_ids [] = []
node_ids (idx ∷ rest) = insert idx (node_id idx) (node_ids rest)

-- The first numbers, from `i` on.
abbrev pub indices : ℕ → List Resource → List ℕ
indices i [] = []
indices i (r ∷ rs) = i ∷ indices (i + 1) rs

module _ (D : DiGraph Resource EdgeType) (t : Tree D) where
  abbrev pub at_node : (Bool → ℕ → Resource → Text) → Bool → ℕ → Option Text
  at_node draw is_root idx = D.node_weight t.graph idx >>= λ r. some (draw is_root idx r)

  -- The lines of all nodes, the root told apart.
  abbrev pub all_nodes : (Bool → ℕ → Resource → Text) → Option (List Text)
  all_nodes draw =
      collect (λ idx. at_node draw (nat_eq idx t.root_index) idx) (indices 0 (nodes D t))

  -- The lines of the nodes of a subgraph.
  abbrev pub sub_nodes : (Bool → ℕ → Resource → Text) → List ℕ → Option (List Text)
  sub_nodes draw xs = collect (at_node draw false) xs

  abbrev pub edge_lines : (Edge EdgeType → Option Text) → Option (Edge EdgeType) → Option Text
  edge_lines draw none = some []
  edge_lines draw (some e) = draw e

  -- An index without an edge is passed over.
  abbrev pub sub_edges : (Edge EdgeType → Option Text) → List ℕ → Option (List Text)
  sub_edges draw es = collect (λ n. edge_lines draw (get_elem? (edges D t) n)) es

  unfoldable pub export_dot : Option Text
  export_dot = all_nodes dot_node >>= λ ns.
      some (dot_text (txt "lineage") (concat ns) (flat_map dot_edge (edges D t)))

  unfoldable pub to_mermaid : Option Text
  to_mermaid = do
    ns ← all_nodes mermaid_node
    es ← collect (mermaid_edge (node_ids (indices 0 (nodes D t)))) (edges D t)
    some (mermaid_text (concat ns) (concat es))

  unfoldable pub subgraph_dot : List ℕ → List ℕ → Option Text
  subgraph_dot xs es = do
    ns ← sub_nodes dot_node xs
    ls ← sub_edges (λ e. some (dot_edge e)) es
    some (dot_text (txt "lineage_subgraph") (concat ns) (concat ls))

  unfoldable pub subgraph_mermaid : List ℕ → List ℕ → Option Text
  subgraph_mermaid xs es = do
    ns ← sub_nodes mermaid_node xs
    ls ← sub_edges (mermaid_edge (node_ids xs)) es
    some (mermaid_text (concat ns) (concat ls))

  abbrev pub text_run : Option Text → Run Text
  text_run none = panicked
  text_run (some s) = finished s

  abbrev pub drawn : (List ℕ → List ℕ → Option Text) → Run (List ℕ × List ℕ) → Run Text
  drawn draw (finished (xs, es)) = text_run (draw xs es)
  drawn draw panicked = panicked
  drawn draw out_of_fuel = out_of_fuel

  unfoldable pub export_subgraph_dot : ℕ → Text → Run Text
  export_subgraph_dot fuel key = drawn subgraph_dot (extract_subgraph D t fuel key)

  unfoldable pub export_subgraph_mermaid : ℕ → Text → Run Text
  export_subgraph_mermaid fuel key = drawn subgraph_mermaid (extract_subgraph D t fuel key)
