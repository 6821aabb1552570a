-- ===== src/Lib.antt =====
-- Verification library of the Rust client of kubectl.nvim, a cluster browser inside Neovim.
--
-- The client watches a Kubernetes cluster, turns each resource into a row of a view, and draws how
-- resources depend on each other. The parts modelled here are the ones that decide what is shown:
--
--   - Lineage (kubectl-client/src/lineage): the graph of a cluster's resources. tree.rs adds
--     resources as nodes (Tree.Build: `new`, `add_node`) and links them (Tree.Link: `link_nodes`,
--     which runs `build_ownership_edges`, `build_label_index`, `build_selector_edges`,
--     `build_explicit_relation_edges`, `store_missing_refs` and `compute_orphan_status` in turn).
--     The flag of each node comes from registry.rs (Registry.Rules, Registry.Table,
--     Registry.Orphans), whose rules are the conditions of orphan_rules.rs (Orphan.Condition,
--     Orphan.Patterns). query.rs walks the linked graph (Query.Climb: `ancestors`; Query.Select:
--     `descendants`, `with_references`; Query.Related: the nodes of a subgraph), Export cuts
--     subgraphs out and draws graphs as DOT and Mermaid, and Listing has the sorted lists of keys
--     (`get_related_items`, `find_orphans`, `compute_impact`). resource_behavior.rs gives the
--     references of a pod's specification (Relations.Extract), and the extractors of registry.rs
--     those of every other kind (Relations.Handlers, on the objects of Relations.Objects).
--     builder.rs reads manifests into resources (Builder.Parse: `parse_resource_typed`), builds and
--     links the tree (Builder.Build), reports its nodes (Builder.Nodes; Builder.Reported tells what
--     they say) and keeps the trees under a lock for later calls (Builder.Store:
--     `build_lineage_graph_worker`, `get_lineage_related_nodes`, `compute_lineage_impact`,
--     `find_lineage_orphans`). Builder.Kept follows a reference from the manifest to the flag,
--     Builder.Calls a sequence of calls.
--   - Events (kubectl-client/src/events.rs): the colour of a status.
--   - Processors (kubectl-client/src/processors/pod.rs, processors/processor.rs, utils.rs): the
--     status and the readiness of a pod (Pod), the text of an age (Age), the keys that numbers are
--     sorted by (PadKey), and how a view gets its rows from the objects of a kind: the filters
--     (Items), the cache of deserialized objects (Cache) and `process` (Process), which uses
--     Views.Filter and Views.Sort.
--   - Logs (kubectl-client/src/cmd/log_session.rs): the containers whose logs are read, and the
--     JSON toggle.
--   - Views (kubectl-client/src/filter.rs, sort.rs, ui/views/top/state.rs): which rows a view
--     shows, in which order, and the state of the top view.
--   - Streaming (kubectl-client/src/streaming.rs): sessions that receive messages from tasks.
--     Session has the state and the atomic accesses of all threads as a step relation, Tasks the
--     count of tasks, Receive the batches. Bidirectional has the session that also sends, Delivery
--     and Taken where its input arrives.
--   - Reflectors (kubectl-client/src/store.rs): the map of the reflectors that watch the cluster,
--     by kind and namespace. Store has the operations, Accounts the tasks that were started and
--     ended, Exclusive the invariant after any calls, Reads what `get` and `get_single` find.
--   - Describe (kubectl-client/src/describe_session.rs): the task that polls a description and
--     passes on what changed. Poll has the loop, turn by turn, Changes what it sends and how long
--     it waits.
--   - EventQueue (kubectl-client/src/event_queue.rs): the queue of events for the editor.
--
-- How the code is modelled. The state of a tree is the record `Tree`; an operation takes the state
-- and returns the next one, in an `Option` whose `none` is a panic of an index. petgraph is the
-- parameter `DiGraph` (Lineage.Graph.Interface), a record of the operations that are called with
-- their documented laws; Lineage.Graph.Vectors shows that graphs kept in two lists meet them. A
-- hash map is an association list, and the set of nodes of a query a list in which no node repeats
-- (Prelude.Sets). Where the code iterates over a map or a set, the model takes the list of keys as
-- an argument, so that the theorems hold in every order. Text is the list of its bytes, with the
-- case mapping and trimming of ASCII. Indices are natural numbers without bounds, as is the depth
-- of the JSON toggle. The channel of tokio is the parameter `Channel`, the order in which a map
-- gives its keys the parameter `Iteration`. serde_json is the parameter `Json`: the accessors of
-- its values, and the deserialization into each kind of object. The answers of the cluster and the
-- stripping of escape codes are parameters, too, as are the hash of a description and the
-- description that the Go library gives. The stable sort of the language library is an insertion
-- sort.
--
-- A reflector's task, token and store have one number, and what a store holds is an argument of the
-- reads. The lock of the stored trees is a flag that says whether a panic poisoned it. Each call
-- runs to its end before the next one takes the lock; a query that does not end is the answer
-- `hung`.
--
-- The loop of `ancestors` has no bound in the code. `climb` takes fuel and says `out_of_fuel` when
-- it is used up; if ownership goes up in some rank, the rank of a node and one more is enough. The
-- digits of a number take its successor as fuel, which is more than their count.
--
-- A build without debug assertions runs `link_nodes`; one with them runs `link_nodes_debug`, which
-- panics where the ownership edges have a cycle (Tree.Cycles). petgraph's cycle check is the
-- parameter `CycleCheck`. What is said of the calls of builder.rs is said of the build without the
-- assertions.
--
-- Not modelled: the logging of missing targets, the Lua tables of `build_lineage_graph`, the JSON
-- texts that the calls of builder.rs read and write, rendering, floating point values, the clock,
-- the Lua and Go sides, and all calls to the cluster. Of the client, the row processors of the
-- other kinds, the hover texts, the metrics, the log histogram, exec, port forwarding and the views
-- but for the state of the top view are left out.
--
-- The tree of modules follows the source; Examples applies each theorem to concrete inputs.
pub mod Prelude
pub mod Lineage
pub mod Events
pub mod Processors
pub mod Logs
pub mod Views
pub mod Streaming
pub mod EventQueue
pub mod Reflectors
pub mod Describe
pub mod Examples
