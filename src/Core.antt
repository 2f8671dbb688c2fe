-- ===== src/Core.antt =====
-- src/core: the users, their send and receive queues, and the routing of messages.
pub mod Transport
pub mod Queue
pub mod EventQueue
pub mod NetRead
pub mod NetWrite
pub mod Profile
pub mod User
pub mod Route
pub mod UserManager
pub mod Hub
pub mod Inf
mod Tests
