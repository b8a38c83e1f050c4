-- ===== src/Lib.antt =====
-- A model of fghj, a tool that runs a workspace of repositories as containers, with a daemon, an
-- orchestrator over Docker, a name server and a resolver of the configuration.
--
-- The parts and how they interact. A workspace's state (State) is held by one actor (Actor), which
-- takes actions one at a time and lets a pure reducer (Reducer) make the next state or refuse.
-- Requests come from users; reports come from the effects that talk to Docker. What a run starts
-- comes from the resolved graph (Resolver), in the order that the orchestrator computes
-- (Orchestrator). The daemon starts crashed containers again by the same requests (Daemon). What the
-- work says about itself is a tree of jobs (Activity), and what the proxy carries is kept in bounded
-- rings (Web). Read-only projections of all states (State.Query) give the proxy its routes, the
-- name server (Dns) its zones, and the raw network (RawNet) its endpoints.
--
-- Which file models which code, by paths from the repository's root:
--   State/Container, State/Workspace, State/Condition: src/state/container.rs, sync_status.rs,
--     volume.rs, env.rs, workspace.rs, and src/persistence/workspace_owner.rs.
--   State/Query: src/state/query.rs. `Arc` is left out; a registry is a map from ids to states.
--   Action: src/action.rs.
--   Reducer: src/reducer/mod.rs; Reducer/Request: src/reducer/env.rs; Reducer/Report:
--     src/reducer/observation.rs, one function for each arm of its `match`. The children of Reducer
--     prove what an action leaves alone (Frame), which requests are refused (Gate), how an action
--     in flight ends (Settle), and an invariant (Invariant).
--   Actor: src/actor.rs. The channel is the sequence of actions that it delivers; Actor/Traces
--     proves what holds after any such sequence.
--   Resolver/Name, Config, Warning, Graph: src/resolver/name.rs; port.rs, volume.rs, dependency.rs,
--     config.rs; warning.rs; graph.rs.
--   Resolver/Search: the search that src/orchestrator/order.rs (closure) and src/resolver/graph.rs
--     (required_closure) both write out; Resolver/Closure: required_closure and the migrations of
--     src/resolver/graph.rs.
--   Resolver/Cycles: src/resolver/cycles.rs. Resolver/Uniqueness: src/resolver/uniqueness.rs and
--     src/util/label.rs; the lower case of a text, a table of Unicode, is a parameter.
--   Orchestrator/Order, Closure, Outcomes: src/orchestrator/order.rs.
--   RawNet/Assign: src/raw_net/mod.rs. An address is its 32-bit number; the head of the SHA-256 of
--     a name is a parameter, any function.
--   Dns/Utf8, Message, Zone: src/dns/mod.rs. A message is its bytes, as numbers; a datagram is cut at
--     the 512 bytes of the buffer. Message/Encode, Names and Echo hold an encoder and readers
--     of their own, which stand for a client.
--   Daemon/Heal: src/daemon/heal.rs. The hash map is a function from workspaces and nodes to entries.
--   Activity: src/activity.rs. A handle is the id of its job; the clock is the argument
--     `now`. Each operation is one step under the lock; start_superseding, which takes the lock three
--     times, is modelled with nothing in between.
--   Web/Traffic: src/web/traffic.rs. A ring holds ids, and the exchanges stand beside it by id;
--     `others` is what the other logs hold of the shared total of bytes. Each operation is one step
--     under its locks; messages to subscribers are left out; durations and instants are numbers; the
--     decoding of a body and the parts of a form are parameters.
--   Web/Capture: the lines of a stream of src/web/capture.rs, as bytes.
--   Prelude and its children: Rust's `Option`, `Result`, `BTreeMap`, `sort`, `dedup`, `parse` and
--     `Display` of numbers, with the lemmas that the parts share. A `BTreeMap` is an association
--     list in the order of its keys; a hash set is a list asked for membership only.
--
-- Fuel. The loop of `topological_start_order` gets one more than the number of ids: every pass
-- but the last places at least one. The search behind `requirements_of` and `dependents_of` gets
-- two more than the number of edges: a node is queued only when found, and found only once; that
-- of `required_closure` gets one more than the seeds and edges together. `add_migrations` gets one
-- more than the number of nodes: every round but the last adds at least one. The walk of
-- `check_cycles` gets one more than the number of nodes with targets: each is on the stack at most
-- once. The tree of a job gets one more than the number of jobs in it, counted down to the depth
-- `next_id`, and the way up from a job one more than its id: a parent is older. The loop over the
-- lines of a buffer gets one more than its bytes. The loop over a name's labels gets one more than
-- the number of bytes that are left. That all but the last end with a result is part of what is
-- proved.
--
-- Machine integers. Ports and addresses stay in their ranges without wrapping: an address is the
-- pool's base plus less than 2^16; ports are below 2^16 as they are parsed. Bytes of a message are
-- written with `% 256`.
--
-- Not modelled: Docker, git, SQLite, HTTP, TLS, sockets and files, which are libraries or the
-- system; JSON and YAML (serde); asynchronous tasks, except as the order of actions; and of
-- src/resolver and src/orchestrator the traversal of repositories and the running of a plan.
pub mod Prelude
pub mod State
pub mod Web
pub mod Action
pub mod Activity
pub mod Reducer
pub mod Actor
pub mod Resolver
pub mod Orchestrator
pub mod RawNet
pub mod Daemon
pub mod Dns
