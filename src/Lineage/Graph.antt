-- ===== src/Lineage/Graph.antt =====
-- What lineage/tree.rs and lineage/query.rs use of the library petgraph: a directed graph that
-- keeps its nodes and its edges in two sequences, `raw_nodes` and `raw_edges`, by index, and
-- `Dfs` over a filtered graph. The fields below the operations state what its documentation says.
pub mod Vectors
pub mod Interface
