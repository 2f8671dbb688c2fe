-- ===== src/Core/Transport.antt =====
-- The system's side of net_con_send (src/network/connection.c): what a connection accepts of the
-- bytes offered to it, and the laws that send(2) documents.
use uhub.Prelude.{ℕ, ◌≤◌, ◌≡◌, ◌≢◌, ◌++◌, length, take, Bytes}

-- The return value: a positive count, 0 for a call that would block, or a negative error.
pub data Sent : Type 0 where
  accepted : ℕ → Sent
  blocked : Sent
  failed : Sent

abbrev pub accepted_bytes : Sent → ℕ
accepted_bytes (accepted n) = n
accepted_bytes blocked = 0
accepted_bytes failed = 0

-- `written` is what the connection has accepted since it was opened.
pub record Transport {ℓ} (C : Type ℓ) : Type ℓ where
  pub send : C → Bytes → C × Sent
  pub written : C → Bytes
  pub accepted_some : (c : C) (buf : Bytes) → (send c buf).1 ≢ accepted 0
  pub accepted_most : (c : C) (buf : Bytes) → accepted_bytes (send c buf).1 ≤ length buf
  pub written_next :
      (c : C) (buf : Bytes)
      → written (send c buf).0 ≡ written c ++ take (accepted_bytes (send c buf).1) buf
