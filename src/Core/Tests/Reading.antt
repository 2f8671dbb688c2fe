-- ===== src/Core/Tests/Reading.antt =====
-- Runs of the model of handle_net_read of src/core/netevent.c, with a handler that keeps the lines.
use uhub.Prelude.{◌≡◌, refl, Bool, false, List, [], ◌∷◌, ◌++◌, Bytes, codes, arith}
use uhub.Core.NetRead.{Reader, received, would_block, read_on, handle_net_read}
use uhub.Core.NetRead.Lines.{
  handle_net_read-append, handle_net_read-unlines, handle_net_read-would_block,
}

abbrev keep : List Bytes → Bytes → List Bytes × Bool
keep ls l = (ls ++ l ∷ [], false)

abbrev reading : Bytes → List Bytes → Reader (List Bytes)
reading queue ls = record { recv_queue = queue; maxbuf = false; state = ls }

append_example :
    handle_net_read keep 9
      (handle_net_read keep 9 (reading [] []) (received (codes "HSUP A"))).0
      (received (codes "D\nBINF"))
    ≡ handle_net_read keep 9 (reading [] []) (received (codes "HSUP AD\nBINF"))
unfolding handle_net_read
append_example =
    handle_net_read-append keep 9 (reading [] []) (codes "HSUP A") (codes "D\nBINF") refl refl refl

unlines_example :
    handle_net_read keep 9 (reading (codes "HS") []) (received (codes "UP\n\nBINF"))
    ≡ (reading (codes "BINF") (codes "HSUP" ∷ []), read_on)
unlines_example =
    handle_net_read-unlines keep 9 (reading (codes "HS") []) (codes "UP\n\nBINF")
      (codes "HSUP" ∷ [] ∷ []) (codes "BINF") refl ((refl, (refl, (refl, (refl, tt)))), (tt, tt))
      (refl, (refl, (refl, (refl, tt)))) (omega arith) refl

would_block_example :
    (handle_net_read keep 9 (reading [] []) (received (codes "HS"))
      ≡ (reading (codes "HS") [], read_on))
    × (handle_net_read keep 9
          (handle_net_read keep 9
            (handle_net_read keep 9 (reading [] []) (received (codes "HS"))).0
            would_block).0
          (received (codes "UP\n"))
        ≡ (reading [] (codes "UP" ∷ []), read_on))
would_block_example =
    handle_net_read-would_block keep 9 (reading [] []) (codes "HS") (codes "UP") refl
      (refl, (refl, tt)) (refl, (refl, tt)) (omega arith) (omega arith)
