-- ===== src/Util.antt =====
-- src/util: characters, strings, UTF-8, credentials and flood control.
pub mod Chars
pub mod Utf8
pub mod Credentials
pub mod RbTree
pub mod Flood
mod Tests
