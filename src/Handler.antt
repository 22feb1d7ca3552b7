-- ===== src/Handler.antt =====
-- pkg/handler: what a request comes to before it reaches the log.
pub mod Validation
pub mod Sending
pub mod Request
pub mod Reply
pub mod Port
pub mod Granted
mod Grouped
pub mod Authorized
pub mod Sender
mod Routes
pub mod Batches
