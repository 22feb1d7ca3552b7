-- ===== src/Core.antt =====
-- pkg/core: the queues, their manager and the broker.
pub mod Run
pub mod Node
pub mod Chain
pub mod Spec
pub mod Refine
pub mod QueueManager
pub mod Broker
pub mod LinkedList
pub mod Managed
pub mod Shelf
