-- ===== src/Core/Profile.antt =====
-- src/core/user.h: what a client tells about itself, and why a user leaves.
use uhub.Prelude.{ℕ}

-- Counts and sizes are 64-bit words.
pub record UserLimits : Type 0 where
  pub shared_size : ℕ
  pub shared_files : ℕ
  pub upload_slots : ℕ
  pub hub_count_user : ℕ
  pub hub_count_registered : ℕ
  pub hub_count_operator : ℕ
  pub hub_count_total : ℕ

pub data UserQuitReason : Type 0 where
  quit_unknown quit_disconnected quit_kicked quit_banned quit_timeout : UserQuitReason
  quit_send_queue quit_memory_error quit_socket_error quit_protocol_error : UserQuitReason
  quit_logon_error quit_update_error quit_hub_disabled quit_ghost_timeout : UserQuitReason
