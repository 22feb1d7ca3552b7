-- ===== src/Fsm.antt =====
-- pkg/fsm: the replicated state machine and the commands that it applies.
pub mod Command
pub mod Apply
pub mod Log
pub mod Permission
pub mod Accounts
pub mod Batcher
