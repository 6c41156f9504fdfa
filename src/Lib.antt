-- ===== src/Lib.antt =====
-- The core of a peer-to-peer network overlay (include/, src/), modelled and verified: the local
-- node with its peers, the topology of the overlay with path finding and repair, the network
-- manager with its wire formats, the message router and the managers that work on all of these,
-- the simulator of several nodes, and the program that joins them together.
--
-- The objects share each other by std::shared_ptr. World holds what they share, and each
-- stateful call is an Action: a function from the state to a result and the next state, or to a
-- Fault where the code locks a mutex twice, resizes beyond the limit, or runs into undefined
-- behaviour.
--
--   Common: include/Common.h, and the system clock, whose readings are arguments.
--
--   Outcome: faults and the composition of calls.
--
--   Outcome/Holds: what holds of the state that a call returns, and how that composes.
--
--   Node: src/Node.cpp. Node/Invariant: the list of peers and the list of their addresses.
--     Node/Table: the table of peers that the lists stand for.
--
--   Topology: src/TopologyManager.cpp, with Topology/State (the fields and the mutex as a flag
--     of the calling thread), Topology/Search (findPath and hasPathDFS), Topology/Search/Walk,
--     Loop and Correct (walks in the graph, the loop, its result), Topology/Graph (the invariant
--     of registry and edges), Topology/Connectivity (validation, integrity and repair),
--     Topology/Ring (the ring that the repair means to build), Topology/Keeping (what every call
--     keeps), Topology/Calls and Topology/Isolation (histories of calls), Topology/Queries
--     (calls that only read).
--
--   Wire: serializeMessage and deserializeMessage of src/NetworkManager.cpp, serializeNodeList
--     and deserializeNodeList of src/MessageHandler.cpp. Wire/Bytes: numbers as bytes.
--     Wire/MessageRoundtrip and Wire/ListRoundtrip: reading back what was written.
--
--   Network: src/NetworkManager.cpp; what the sockets of Poco do is a parameter.
--     Network/Delivery: one message. Network/Isolation: histories of calls.
--
--   World: the objects that the managers share. World/Isolation: what every call of a manager
--     keeps of them; the modules Isolation of Handler, Manager/Repair, Discovery, Registration,
--     Router, Exchange and Reliable say so of each of their calls.
--
--   Router: src/MessageRouter.cpp, with Router/State. Router/Table: routes and the routing
--     table. Router/Flood: flooding and the seen messages.
--
--   Exchange: src/DataExchange.cpp, with Exchange/State. Exchange/Splitting: the chunks that
--     data are cut into. Exchange/Steps and Exchange/Reassembly: chunks that arrive.
--     Exchange/Sending: transfers over a network without connections, and the removal of old
--     transfers. Router/Sending: the messages that these transfers route.
--
--   Reliable: src/ReliableMessaging.cpp. Reliable/Retry: what becomes of the pending messages.
--     Reliable/Bound: histories of calls, and the counts of retries. Reliable/GivingUp: rounds
--     of retries. Reliable/Delivery: sending and acknowledging.
--
--   Registration: src/NodeRegistration.cpp, with Registration/State, Registration/Checks (the
--     validation) and Registration/Joining (how the local node registers itself).
--     Registration/Rejection: registerWithNode. Registration/Validation: which requests are
--     accepted. Registration/Rollback and Registration/Acceptance: what an accepted or a refused
--     request changes.
--
--   Handler: src/MessageHandler.cpp. Handler/Joining: join requests and responses, peer
--     discovery. Handler/Leaving: leave notifications and topology updates.
--
--   Manager: src/DynamicNodeManager.cpp, with Manager/State (the fields and nodesMutex_ as a
--     flag of the calling thread), Manager/Counters (the entries of single nodes) and
--     Manager/Repair (repair, replacement connections and connectivity, which use the shared
--     objects alone). Manager/Queries: the queries. Manager/Deadlock: the calls that lock a
--     mutex twice. Manager/Settled, Manager/Removal and Manager/Upkeep: what its calls keep.
--
--   Discovery: src/NodeDiscovery.cpp. Discovery/Peers: the peers that are found.
--
--   Overlay: the managers of one node, as SimulatedNode and main both make them.
--     Overlay/Settled: what their calls keep.
--
--   Simulator: src/NodeSimulator.cpp; Simulator/Member is SimulatedNode, the rest
--     NetworkSimulator. Simulator/Member/Sound, Simulator/Sound, Simulator/Keeping and
--     Simulator/Calls: the invariant of its nodes and of the map that leads to them, what each
--     call keeps, and histories of calls. Simulator/Removal and Simulator/Stopping: removeNode
--     and stopAllNodes.
--
--   App: src/main.cpp, with App/State (the objects, and the call of one of them) and App/Options
--     (the menus). App/Calls and App/Menu: what each call keeps. App/History: the states that
--     the program reaches, as a relation. App/Ending: the end of the program. App/Upkeep: the
--     rounds in which the network is maintained. App/Callback: the callback for discovered
--     peers.
--
--   Tests: the theorems applied to concrete inputs, and runs of single operations.
--
-- Maps are lists of keys and values in the order of std::map, sets are lists of keys. The while
-- loop of findPath and the recursion of hasPathDFS have fuel: one round for each node that can
-- enter the queue and one for each key and neighbor of the graph, which the results on findPath
-- show to be enough, since no result runs out of it. Identifiers are unbounded numbers, except
-- where they are written as bytes; counters do not wrap around; the size_t and uint32_t
-- arithmetic of splitData is written out with its wrap-around. Callbacks are recorded; the one
-- of main that calls another manager is run after the call that made it. The loop of a thread is
-- one call for each round, by readings of the clocks that are arguments, and the threads take
-- turns between calls. The numbers and words that the user types are arguments of the menu
-- options.
--
-- Not modelled: output to the console (in src/main.cpp the menus and printNodeInfo, in
-- src/NodeSimulator.cpp printNetworkStatus and two tests that only print), the parsing of the
-- command line and of what is typed, waiting, the random generators, whose numbers are
-- arguments, the threads of Poco's server, and the memory order of calls from several threads: a
-- call that locks its mutex for its whole body is one step. tests/ is not modelled.
pub mod Prelude
pub mod Common
pub mod Node
pub mod Outcome
pub mod Topology
mod Tests
pub mod Wire
pub mod Network
pub mod World
pub mod Router
pub mod Exchange
pub mod Reliable
pub mod Registration
pub mod Handler
pub mod Manager
pub mod Discovery
pub mod Overlay
pub mod Simulator
pub mod App
