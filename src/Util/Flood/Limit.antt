-- ===== src/Util/Flood/Limit.antt =====
-- What a flood limit of src/util/floodctl.c lets through.
use uhub.Prelude.{
  ℕ, ◌+◌, ◌-◌, ◌^◌, ◌≤◌, ◌<◌, min, ◌≡◌, refl, true, false, List, [], ◌∷◌, ltb, length, arith,
  Bool-cases, ◌≢◌, inl, inr, ltb-false→le,
}
use uhub.Util.Flood.{
  FloodControl, flood_control_reset, flood_control_check, is_past, verdicts, passed, Refused, Close,
  Window,
}

module _ (max_count time_delay : ℕ) (limited : max_count ≢ 0) (timed : time_delay ≢ 0)
    (fits : time_delay < 2 ^ 63) where
  counts :
      (d : FloodControl) (now : ℕ)
      → d.time ≢ 0
      → now ≤ d.time + time_delay
      → d.count + 1 < max_count
      → max_count ≤ 2 ^ 64
      → flood_control_check d max_count time_delay now ≡ (record d { count = d.count + 1 }, false)
  unfolding flood_control_check is_past
  counts d now t close below small = ground arith

  floods :
      (d : FloodControl) (now : ℕ)
      → d.time ≢ 0
      → now ≤ d.time + time_delay
      → max_count ≤ d.count + 1
      → d.count + 1 < 2 ^ 64
      → flood_control_check d max_count time_delay now
        ≡ (record { time = now; count = d.count + 1 }, true)
  unfolding flood_control_check is_past
  floods d now t close below small = ground arith

  burst :
      (start : ℕ) (ts : List ℕ) (d : FloodControl)
      → start ≢ 0
      → start ≤ d.time
      → Window time_delay start ts
      → max_count ≤ 2 ^ 64
      → d.count + length ts < 2 ^ 64
      → passed (verdicts d max_count time_delay ts) ≡ min (length ts) (max_count - 1 - d.count)
  unfolding verdicts
  burst start [] d s e w small room = omega arith
  burst start (now ∷ ts) d s e ((from, to), w) small room =
      elim (Bool-cases (ltb (d.count + 1) max_count)) [
        | inl below ↦
            let go = burst start ts (record d { count = d.count + 1 }) s e w small (omega arith) in
            rw (counts d now (omega arith) (omega arith) (ground arith) small) (ground (arith, go))
        | inr above ↦
            let over = ltb-false→le (d.count + 1) max_count above in
            let next : FloodControl = record { time = now; count = d.count + 1 } in
            let go = burst start ts next s from w small (omega arith) in
            rw (floods d now (omega arith) (omega arith) over (omega arith)) (omega (arith, go))
      ]

  -- Once the limit is reached, a sender whose messages each come within the delay of the one
  -- before is refused every one of them, as long as the counter does not reach 2^64.
  pub flood_control_check-Refused :
      (ts : List ℕ) (d : FloodControl)
      → d.time ≢ 0
      → Close time_delay d.time ts
      → max_count ≤ d.count + 1
      → d.count + length ts < 2 ^ 64
      → Refused (verdicts d max_count time_delay ts)
  unfolding verdicts
  flood_control_check-Refused [] d t c over room = tt
  flood_control_check-Refused (now ∷ ts) d t (n, near, c) over room =
      let next : FloodControl = record { time = now; count = d.count + 1 } in
      rw (floods d now t near over (omega arith))
        (refl, flood_control_check-Refused ts next n c (omega arith) (omega arith))

-- Of a message after a reset, at a time other than 0, and the messages within one delay of it, the
-- first passes and so do `max_count - 2` of the others, or all of them if they are fewer: for a limit
-- of 2 or more, one message less than the limit. The delay is below 2^63, and the counter does not
-- reach 2^64.
pub flood_control_check-Window :
    (max_count time_delay start : ℕ) (ts : List ℕ)
    → max_count ≢ 0
    → time_delay ≢ 0
    → time_delay < 2 ^ 63
    → start ≢ 0
    → Window time_delay start ts
    → max_count ≤ 2 ^ 64
    → 1 + length ts < 2 ^ 64
    → passed (verdicts flood_control_reset max_count time_delay (start ∷ ts))
      ≡ 1 + min (length ts) (max_count - 2)
unfolding verdicts flood_control_check is_past
flood_control_check-Window max_count time_delay start ts m t f s w small room =
    let fresh : FloodControl = record { time = start; count = 1 } in
    rw (first)
      (ground (arith, burst max_count time_delay m t f start ts fresh s (omega arith) w small room))
  where
    first :
        flood_control_check flood_control_reset max_count time_delay start
        ≡ (record { time = start; count = 1 }, false)
    first = ground arith
