-- ===== src/Network.antt =====
-- src/network: the addresses of clients.
pub mod Ip
mod Tests
