-- ===== src/Rbac.antt =====
-- pkg/rbac: roles, what they permit, and who has them.
pub mod Role
pub mod Manager
pub mod Precedence
pub mod Assign
pub mod Parse
pub mod Create
pub mod Builtin
