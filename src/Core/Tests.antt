-- ===== src/Core/Tests.antt =====
-- Runs of the models of src/core on concrete inputs, and the theorems applied there.
mod Routing
mod Hub
mod Managers
mod Events
mod Reading
use uhub.Prelude.{◌≤◌, ◌≡◌, ◌≢◌, refl, [], ◌∷◌, ◌++◌, some, arith, length, Bytes, codes, take}
use uhub.Core.Transport.{Transport, Sent, accepted, blocked, accepted_bytes}
use uhub.Core.Queue.{IoqSend, ioq_send_create, ioq_send_add, ioq_send_send}
use uhub.Core.Queue.Stream.{IsQueue, pending}
use uhub.Core.Queue.Send.{ioq_send_send-stream}
use uhub.Core.NetWrite.{handle_net_write, want_write}
use uhub.Core.NetWrite.Drain.{Finished, handle_net_write-Finished}
use uhub.Core.NetWrite.Runs.{Reached, opened, added, wrote, handle_net_write-in_order}

-- A connection that takes three bytes at a time.
abbrev pub three : Bytes → Sent
three [] = blocked
three (a ∷ []) = accepted 1
three (a ∷ b ∷ []) = accepted 2
three (a ∷ b ∷ c ∷ cs) = accepted 3

pub three-some : (c : Bytes) (buf : Bytes) → three buf ≢ accepted 0
three-some c [] = ground arith
three-some c (a ∷ []) = ground arith
three-some c (a ∷ b ∷ []) = ground arith
three-some c (a ∷ b ∷ d ∷ cs) = ground arith

pub three-most : (c : Bytes) (buf : Bytes) → accepted_bytes (three buf) ≤ length buf
three-most c [] = omega arith
three-most c (a ∷ []) = omega arith
three-most c (a ∷ b ∷ []) = omega arith
three-most c (a ∷ b ∷ d ∷ cs) = omega arith

pub three-next :
    (c : Bytes) (buf : Bytes) → c ++ take 3 buf ≡ c ++ take (accepted_bytes (three buf)) buf
three-next c [] = refl
three-next c (a ∷ []) = refl
three-next c (a ∷ b ∷ []) = refl
three-next c (a ∷ b ∷ d ∷ cs) = refl

abbrev pub slow : Transport Bytes
slow = record {
  send = λ con buf. (con ++ take 3 buf, three buf);
  written = λ con. con;
  accepted_some = three-some;
  accepted_most = three-most;
  written_next = three-next;
}

abbrev pub two_lines : IoqSend
two_lines = record { size = 7; offset = 0; queue = codes "ab\n" ∷ codes "cde\n" ∷ [] }

pub two_lines-IsQueue : IsQueue two_lines
two_lines-IsQueue = record {
  sized = refl;
  bounded = omega arith;
  messages = (omega arith, (omega arith, tt));
  within = omega arith;
}

two_lines-Reached : Reached slow (codes "ab\n" ∷ codes "cde\n" ∷ []) two_lines []
unfolding ioq_send_create ioq_send_add
two_lines-Reached =
    added (codes "cde\n") (added (codes "ab\n") (opened [] refl) (omega arith) (omega arith))
      (omega arith) (omega arith)

abbrev second_started : IoqSend
second_started = record { size = 4; offset = 3; queue = codes "cde\n" ∷ [] }

-- The first line is written, and of the second all but its newline.
written_once :
    handle_net_write slow two_lines [] ≡ some (second_started, codes "ab\ncde", want_write)
unfolding handle_net_write ioq_send_send
written_once = refl

in_order_example :
    (codes "ab\ncde" ++ pending second_started ≡ codes "ab\ncde\n") × IsQueue second_started
in_order_example =
    handle_net_write-in_order slow (codes "ab\n" ∷ codes "cde\n" ∷ []) second_started
      (codes "ab\ncde") (wrote two_lines-Reached written_once)

handle_net_write-Finished_example : Finished slow two_lines [] (handle_net_write slow two_lines [])
handle_net_write-Finished_example = handle_net_write-Finished slow two_lines [] two_lines-IsQueue

send_stream_example :
    let (q', con', p) = ioq_send_send slow two_lines [] in
    ((con' ++ pending q' ≡ codes "ab\ncde\n") × IsQueue q')
send_stream_example = ioq_send_send-stream slow two_lines [] two_lines-IsQueue
