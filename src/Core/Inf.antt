-- ===== src/Core/Inf.antt =====
-- src/core/inf.c: what the hub takes out of an information message, and how its checks are composed.
-- `none` as a result is a message with no argument offset.
pub mod Names
pub mod Lacking
pub mod Common
pub mod Identity
pub mod Presence
pub mod Limits
pub mod Login
pub mod Update
