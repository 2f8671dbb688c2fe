-- ===== src/Core/NetRead.antt =====
-- src/core/netevent.c: splitting what a connection receives into lines.
pub mod Lines
use uhub.Prelude.{
  ℕ, suc, zero, ◌+◌, Bool, true, false, ◌&&◌, List, [], ◌∷◌, ◌++◌, ltb, ◌==◌, if◌then◌else◌, length,
  Bytes,
}

-- What `net_con_recv` gives: a positive number of bytes, 0 if it would block, -1 for a closed
-- connection, or another negative number.
pub data Received : Type 0 where
  received : Bytes → Received
  would_block : Received
  closed : Received
  recv_error : Received

-- The return values of `handle_net_read`.
pub data NetRead : Type 0 where
  read_on : NetRead
  quit_disconnected : NetRead
  quit_socket_error : NetRead
  quit_protocol_error : NetRead

-- A user as the reader sees it: `recv_queue`, `flag_maxbuf`, and what messages may change, which
-- the other two are not.
pub record Reader (S : Type 0) : Type 0 where
  pub recv_queue : Bytes
  pub maxbuf : Bool
  pub state : S

-- The loop stops at a message that is refused, or with the bytes behind the last newline.
pub data Scan (S : Type 0) : Type 0 where
  refused : S → Scan S
  ended : Bool → S → Bytes → Scan S

-- `handle` is `hub_handle_message`, true where it returns -1, and `max` is `max_recv_buffer`.
module _ {S : Type 0} (handle : S → Bytes → S × Bool) (max : ℕ) where
  -- A complete line: the end of one that was too long, a message, or a line that is passed over.
  unfoldable pub handle_line : Bool → S → Bytes → S × Bool
  handle_line true s line = (s, false)
  handle_line false s line =
      if ltb 0 (length line) && ltb (length line) max then handle s line else (s, false)

  -- The loop from newline to newline, with the bytes from `start` on as `line`.
  unfoldable pub read_lines : Bool → S → Bytes → Bytes → Scan S
  unfolding handle_line
  read_lines maxbuf s line [] = ended maxbuf s line
  read_lines maxbuf s line (c ∷ cs) = elim (c == b'\n') [
    | false ↦ read_lines maxbuf s (line ++ c ∷ []) cs
    | true ↦
        let (s', bad) = handle_line maxbuf s line in
        elim bad [ true ↦ refused s' | false ↦ read_lines false s' [] cs ]
  ]

  -- The bytes behind the last newline wait for the next read, unless there are too many.
  unfoldable pub keep_rest : Scan S → Reader S × NetRead
  keep_rest (refused s) =
      (record { recv_queue = []; maxbuf = false; state = s }, quit_protocol_error)
  keep_rest (ended maxbuf s rest) =
      if ltb (length rest) max
      then (record { recv_queue = rest; maxbuf = maxbuf; state = s }, read_on)
      else (record { recv_queue = []; maxbuf = true; state = s }, read_on)

  -- `ioq_recv_get` has emptied the queue before the connection is read.
  unfoldable pub handle_net_read : Reader S → Received → Reader S × NetRead
  unfolding read_lines keep_rest
  handle_net_read user (received bytes) =
      let buf = if user.maxbuf then [] else user.recv_queue in
      keep_rest (read_lines user.maxbuf user.state [] (buf ++ bytes))
  handle_net_read user would_block = (record user { recv_queue = [] }, read_on)
  handle_net_read user closed = (record user { recv_queue = [] }, quit_disconnected)
  handle_net_read user recv_error = (record user { recv_queue = [] }, quit_socket_error)
