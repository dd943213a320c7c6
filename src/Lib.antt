-- ===== src/Lib.antt =====
-- Verification library of the spacetrek orchestrator, a Go service that runs AI agents in Firecracker
-- microVMs: a chat turn is planned by a language model, its tools act on a VM that the VM service has
-- claimed for the chat, and snapshots let a VM be stopped and resumed.
--
-- The parts, the files that model them and the code that they are about:
--   Exception      pkg/exception/codes.go: the errors as values, and the chaining of fallible calls.
--   Vm             src/core/domain/vm/vm.go and state.go: the entity, its constructor and setters
--                  (new, assign_to, unassign, terminate, ...), the table of transitions (Vm.State) and
--                  NormalizeName (Vm.Name). Vm.Lifecycle has the laws of the statuses, Vm.Name.Label and
--                  Vm.Name.Fixpoint those of names.
--   VmRepo         src/repository/memory/vm.go: the repository in memory with its leases, a method per
--                  function (create, get_by_id, assign_to_chat_if_available, ...; the queries in
--                  VmRepo.Queries). A lock spans each method, so a method is one step. Laws, Leasing,
--                  Listing and Forgets hold the theorems.
--   Service        src/service/vm/service.go: the calls over that repository (assign_to_chat is
--                  AssignToChat, unassign_vm Unassign, stop Stop, destroy Destroy, mark_active MarkActive,
--                  get_available GetAvailable, create_snapshot CreateSnapshot), and in Service.Passes the
--                  idle reaper and the runtime reconciler. The state is the repository, the snapshots and
--                  the events that the lifecycle hook has heard. Service.Holding, Steps, History,
--                  Outcomes and Reaping hold the theorems. Service.Ips is the IPAllocator of the same
--                  file, with the theorems in Order, Free and Distinct below it; Service.Naming is
--                  resolveUniqueName, with the suffixed names of
--                  src/core/domain/vm/naming/generator.go.
--   Snapshots      the snapshot part of the same file over the rows of
--                  src/repository/postgres/snapshot.go: deletion, garbage collection, purge and chain
--                  resolution; Snapshots.Policy decides what kind of snapshot is made. Chains, History,
--                  Collect and Purge hold the theorems.
--   React          src/service/orchestrator/service.go: the ReAct loop. React has the data, the registry
--                  and the state store, React.Turn one step (execute_step is executeStep), React.Process
--                  the loop (react is processReactLoop, process is Process), React.Rule the plans of
--                  rule_planner.go beside it; React.Steps and React.Policy hold the theorems.
--   Fnv, Cid       src/infrastructure/vm/firecracker/cid_allocator.go and resolveGuestCID of provider.go
--                  beside it: the deterministic choice of a guest CID.
--   Frame          src/infrastructure/vm/firecracker/exec_protocol.go: the length-prefixed frames of the
--                  guest agent's protocol.
--   Sparse         ExtractSparseRegions and MergeDiffMemory of compress.go beside it: memory files as sparse
--                  regions, and a diff that is written over its base. Bytes, Merging and Extracting hold
--                  the theorems.
--   Chats          src/core/domain/chat/chat.go: the chat and its messages.
--   Agents         src/core/domain/agent/agent.go and src/repository/memory/agent.go, and in Agents.Calls
--                  src/service/agent/service.go over them.
--   Environments   src/core/domain/environment/environment.go and src/repository/memory/environment.go.
--   Paging         the pages with a cursor that the repositories in memory share.
--   ChatRepo       src/repository/memory/chat.go (ListMessages in ChatRepo.Messages); Listing holds the
--                  theorems on the list of a user's chats.
--   EventRepo      src/repository/memory/runtime_event.go; theorems in Pages and Recent.
--   ChatService    src/service/chat/service.go over these repositories: send_message is SendMessage,
--                  accept and background the two halves of SendMessageAsync, publish, persist_event and
--                  open_chat what they share; ChatService.Calls has Create, Close, SubscribeRuntimeEvents
--                  and the other calls, ChatService.Available the choice of VMs in vm_resolver.go beside it.
--                  Turns, Queues, Streams, Background, Closing, Subscriptions and Choices hold the theorems.
--   AgentMemory    src/repository/memory/agent_memory.go and src/service/agent/memory.go over it; theorems
--                  in Keys, Laws and Guards.
--   Tools          the tools of src/service/tool and the readers of their arguments: Tools.Memory has
--                  memory.go, Tools.Files those that run commands and read, write and edit files, Tools.Vms
--                  those that start, stop, list and snapshot VMs, Tools.Create vm_create.go, Tools.Plan the one
--                  that announces a plan. Trimmed and Creation hold the theorems,
--                  Arguments the lemmas on what vm.create reads of its arguments.
--   Writers        src/service/vm/hostswriter/writer.go and src/service/vm/tunnelwriter/writer.go: rewrite is
--                  what both Refresh share, Hosts and Tunnel the two contents, Race two calls of Refresh
--                  that overlap. Lines, Refreshing and Reading hold the theorems.
--   Broadcast      src/service/vm/fleetbroadcaster/broadcaster.go and activitybroadcaster beside it, as
--                  steps under their locks; theorems in Delivery and Shutdown.
--   Prelude        shared notation: Boolean tests, lists, byte texts, Go maps as association lists, sorting
--                  and signed numbers.
--   Examples       runs of the definitions, and the theorems of the list below at inputs that meet their hypotheses.
--
-- Conventions. A text is the list of its bytes (of its runes in NormalizeName, Tools and
-- AgentMemory, where what Tools.Vms gets of a VM is read as runes too), a time a number of
-- nanoseconds. A Go map is an association list in the order of a range over it; no particular
-- order is assumed. uint32 sums keep their wrap-around; counters and lengths of type int do not
-- overflow. A mutex that spans a method makes the method one step, and the calls of a history
-- follow one another. Calls interleave where the code lets go of the lock and a model says so: the
-- steps of Broadcast, of Writers.Race, and in ChatService the goroutines of a message, of a title
-- and of a replay. The interleaving of two calls of the VM service is not modelled. What lies
-- outside of the repository is an argument: clock, uuids, backend and guest, the database's
-- answers, object storage, the planner, the tools and the JSON codec.
--
-- Bounds. The loops run over lists or over the rounds that the code counts (the steps of a turn,
-- the CIDs of a range), and need no fuel. The extraction of sparse regions has a round for each
-- byte of the file and one more, since a round moves the offset on or is the last. A client that
-- follows the cursors of a list takes at most one round more than there are entries. The walks
-- along parents (collect_ancestors, cow_walk), the purge (delete_all) and the search for a free
-- address (find_free) take fuel, and give none when it runs out. The fuel for a walk is more than
-- the first snapshot's time of creation: a snapshot is made later than the one that it names as
-- its parent. The fuel for a purge is a round for each row and one more, since a round that does
-- not delete is the last. The search has a round for each address of its range.
--
-- Not modelled: the provisioning and the resumption of VMs (Create, ResumeVM), the commands and
-- files of the guest and the workspace archives in the VM service, metrics, the schemas of the
-- tools, the PostgreSQL repositories but for the snapshot queries, HTTP handlers and middleware,
-- the Gemini client, object storage, the Firecracker provider but for CIDs, frames and sparse
-- memory files, the activator and the user and authentication services. They are input and output,
-- glue, or not yet covered.
pub mod Paging
pub mod AgentMemory
pub mod Broadcast
pub mod Agents
pub mod Environments
pub mod Chats
pub mod ChatService
pub mod ChatRepo
pub mod EventRepo
pub mod Tools
pub mod Prelude
pub mod Vm
pub mod Writers
pub mod Fnv
pub mod Cid
pub mod Frame
pub mod Exception
pub mod VmRepo
mod Examples
pub mod Snapshots
pub mod Sparse
pub mod Service
pub mod React
