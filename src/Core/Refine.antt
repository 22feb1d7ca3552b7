-- ===== src/Core/Refine.antt =====
-- The methods of the linked list and the contract of Core/Spec.antt.
mod Alloc
mod Append
mod Remove
mod Search
mod Touch
pub mod Unlock
mod Owned
pub mod Ack
pub mod Dequeue
mod Unlink
pub mod Enqueue
pub mod Dead
pub mod Exclusive
pub mod Config
pub mod Kept
pub mod Batch
pub mod BatchAck
pub mod Full
pub mod UnlockAll
