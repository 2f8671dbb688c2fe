-- ===== src/Util/Flood.antt =====
-- src/util/floodctl.c: the counter behind one flood limit.
pub mod Limit
use uhub.Prelude.{
  ℕ, suc, ◌+◌, ◌-◌, ◌*◌, ◌%◌, ◌^◌, ◌≤◌, ◌<◌, min, ◌≡◌, refl, Bool, true, false, ◌||◌, List, [], ◌∷◌,
  ltb, ◌==◌, if◌then◌else◌, length, arith, Bool-cases, ◌≢◌, All,
}

-- Times are seconds from 1970 on, and 0 is no time.
pub record FloodControl : Type 0 where
  pub time : ℕ
  pub count : ℕ

abbrev pub flood_control_reset : FloodControl
flood_control_reset = record { time = 0; count = 0 }

-- Whether more than the delay has passed. The difference of times is signed, and so is the delay
-- after its cast to `time_t`: one of 2^63 or more is negative.
unfoldable pub is_past : ℕ → ℕ → ℕ → Bool
is_past time time_delay now =
    if ltb time_delay (2 ^ 63)
    then ltb time_delay (now - time)
    else ltb time (now + (2 ^ 64 - time_delay))

-- The verdict is true for a flood.
unfoldable pub flood_control_check : FloodControl → ℕ → ℕ → ℕ → FloodControl × Bool
unfolding is_past
flood_control_check control max_count time_delay now =
    let counted = (control.count + 1) % 2 ^ 64 in
    if time_delay == 0 || max_count == 0
    then (control, false)
    else if control.time == 0 || is_past control.time time_delay now
    then (record { time = now; count = 1 }, false)
    else if ltb counted max_count
    then (record control { count = counted }, false)
    else (record { time = now; count = counted }, true)

-- The verdicts on a sequence of messages, by their times.
unfoldable pub verdicts : FloodControl → ℕ → ℕ → List ℕ → List Bool
unfolding flood_control_check
verdicts control max_count time_delay [] = []
verdicts control max_count time_delay (now ∷ later) =
    let (next, flood) = flood_control_check control max_count time_delay now in
    flood ∷ verdicts next max_count time_delay later

abbrev pub passed : List Bool → ℕ
passed [] = 0
passed (true ∷ vs) = passed vs
passed (false ∷ vs) = suc (passed vs)

abbrev pub Refused : List Bool → Type 0
Refused vs = All (λ v. v ≡ true) vs

-- Each message within the delay of the one before it.
abbrev pub Close : ℕ → ℕ → List ℕ → Type 0
Close time_delay last [] = Unit
Close time_delay last (now ∷ later) =
    (now ≢ 0) × (now ≤ last + time_delay) × Close time_delay now later

-- All messages within one delay of a first time.
abbrev pub Window : ℕ → ℕ → List ℕ → Type 0
Window time_delay start = All λ now. (start ≤ now) × (now ≤ start + time_delay)
