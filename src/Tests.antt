-- ===== src/Tests.antt =====
-- The theorems at concrete inputs.
mod Queue
mod Roles
mod Accounts
mod Machine
mod Policies
mod Batching
mod Shelf
mod Doors
mod Cluster
