-- ===== src/Lib.antt =====
-- Sybline is a replicated message broker. Producers submit messages under a routing key; the broker
-- puts a copy into every queue of that key; consumers fetch messages, which locks them for a time,
-- and acknowledge them (ack) or give them back (nack). A message that was given back too often goes
-- to the dead-letter queue. Every change is a command in a raft log that each node applies to its own
-- state: the broker with its queues, the accounts with their sessions, and the roles. The handler checks
-- a request before it sends the command, and the state machine checks it again.
--
-- The files, and the code they are about:
--   Base        shared names: lists, byte slices, machine words, Go's maps (Dict)
--   Core        pkg/core. Core/Run: outcomes, with panics as values. Core/Node: the nodes, counter and
--               object pool of LinkedList.go, Counter.go and NodeObjectPool.go. Core/LinkedList and its
--               children: the methods of the linked list. Core/QueueManager: QueueManager.go and
--               ConsumerManager.go. Core/Broker: Broker.go. Core/Chain: what a well-formed list is.
--               Core/Spec: the contract of a queue on sequences of items. Core/Refine: the methods
--               and the contract. Core/Managed: the queue manager as the contents of its queues.
--               Core/Shelf: what the queue manager promises under commands one after the other.
--   Rbac        pkg/rbac. Role, Manager, Precedence, Assign: roles, the checks, who has which role
--               (rbacManager.go). Parse and Create: CreateRole, from JSON. Builtin: builtin.go.
--   Auth        pkg/auth: Session (SessionHandler.go), Account (AuthManager.go), Metadata (the
--               metadata of a call, and sessionServer.go)
--   Fsm         pkg/fsm: Command (operations and payloads), Apply (applySingle), Log (Apply), and
--               Batcher with its children (batcher.go)
--   Handler     pkg/handler: Validation (validation.go), Sending and Request (Handler.go up to
--               sendCommand), Reply (sendCommand and the rest), Port (the interface Handler)
--   Rpc         pkg/rpc: the methods of MQEndpointsServer.go, Intercept (middleware.go)
--   Rest        pkg/rest: Middleware (middleware.go), Queues, Accounts and Info (v1.go)
--   Config      pkg/config: KubernetesAutoConfig (config.go)
--   Tests       the theorems at concrete inputs
--
-- Pointers are addresses with 0 for nil; each list has its own nodes, from its own pool, so a list
-- carries its heap. A queue manager holds queue objects by address, since a dead-letter pointer and a
-- name may lead to the same object. The mutex of a method makes it one step. int and int64 are bit
-- patterns of 64 bits and uint32 of 32 bits, with wrap-around (Base/Words).
--
-- A loop over nodes runs on fuel, one more than the addresses given out. A well-formed list has fewer
-- nodes than that, so the loops of the theorems below end: each of them states that the method
-- returns, or panics.
--
-- `Holds ll xs drift` says that the list stands for the items `xs`, and that its counter is `drift`
-- above their number; the drift is there because UnlockAndEmptyBatch does not count down.
--
-- The batcher is a step relation: a move is a step of one goroutine, in general what it does between two
-- accesses to what it shares; the statement that advances nextFreeIndex, a read and a write, is one
-- move. A move is possible when no lock, channel or wait group holds it back. Sequences of whole calls
-- and timeouts are compared with a plan that has no slots, indices or locks.
--
-- Parameters: the msgpack decoders (Fsm/Command.Decoder), scrypt and the random bytes, the clock,
-- the token and id generators, the answers of the followers, ApplyLog of raft, the order in which
-- goroutines get their locks, what json.Unmarshal makes of a text, and the order in which Go visits
-- a map; and of gRPC and fiber what they make of a request: its metadata or headers, path and body,
-- with base64 and UUIDs. Logging, metrics, raft itself, the generators, the start of the program
-- and the generic object pool are not modelled.
pub mod Base
pub mod Core
pub mod Rbac
pub mod Auth
pub mod Fsm
pub mod Handler
pub mod Rpc
pub mod Rest
pub mod Config
pub mod Tests
