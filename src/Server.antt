-- ===== src/Server.antt =====
-- The etcd API in front of a backend (pkg/kine/server): requests are taken apart, checked and sent on
-- to the methods of `Backend`.
mod Requests
mod Backends
pub mod Ranges
pub mod Txns
pub mod Bridge
pub mod Watcher
pub mod Dispatch
pub mod Pages
pub mod Replies
pub mod Stack
pub use Requests.*
pub use Backends.*
