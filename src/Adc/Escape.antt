-- ===== src/Adc/Escape.antt =====
-- The escapes of src/adc/message.c: '\s', '\n' and '\\' stand for a space, a newline and a backslash.
pub mod RoundTrip
pub mod Target
use uhub.Prelude.{
  ℕ, zero, suc, ◌+◌, ◌-◌, Bool, true, false, ◌||◌, List, [], ◌∷◌, ◌++◌, ltb, ◌==◌, if◌then◌else◌,
  length, Bytes,
}

-- `memchr` for a backslash, then the switch on the byte behind it.
unfoldable pub msg_check_escapes : Bytes → Bool
msg_check_escapes [] = true
msg_check_escapes (c ∷ []) = if c == b'\\' then false else true
msg_check_escapes (c ∷ d ∷ rest) =
    let onwards = msg_check_escapes (d ∷ rest) in
    let behind = msg_check_escapes rest in
    if c == b'\\' then if d == b'\\' || (d == b'n' || d == b's') then behind else false else onwards

pub escapes_added : Bytes → ℕ
escapes_added [] = 0
escapes_added (c ∷ cs) =
    (if c == b' ' || (c == b'\n' || c == b'\\') then 1 else 0) + escapes_added cs

-- `n + add`, the loop's two counters at the end
pub adc_msg_escape_length : Bytes → ℕ
unfolding escapes_added
adc_msg_escape_length str = length str + escapes_added str

-- How many backslashes `adc_msg_unescape_length` takes off, from one position on.
pub escapes_from : Bool → Bytes → ℕ
escapes_from escape [] = 0
escapes_from true (c ∷ cs) = escapes_from false cs
escapes_from false (c ∷ cs) = (if c == b'\\' then 1 else 0) + escapes_from (c == b'\\') cs

pub adc_msg_unescape_length : Bytes → ℕ
unfolding escapes_from
adc_msg_unescape_length str = length str - escapes_from false str

unfoldable pub escape_byte : ℕ → Bytes
escape_byte c =
    if c == b'\\'
    then b'\\' ∷ b'\\' ∷ []
    else if c == b'\n'
    then b'\\' ∷ b'n' ∷ []
    else if c == b' '
    then b'\\' ∷ b's' ∷ []
    else c ∷ []

unfoldable pub adc_msg_escape : Bytes → Bytes
adc_msg_escape [] = []
adc_msg_escape (c ∷ cs) = escape_byte c ++ adc_msg_escape cs

-- The byte that an escaped character stands for.
pub unescape_byte : ℕ → ℕ
unescape_byte c =
    if c == b's' then b' ' else if c == b'\\' then b'\\' else if c == b'n' then b'\n' else c

-- The loop `while (*str && w < (target_size - 1))`: the bytes written from here on, and the final w.
pub unescape_from : ℕ → Bool → ℕ → Bytes → Bytes × ℕ
unescape_from target_size escaped w [] = ([], w)
unescape_from target_size escaped w (c ∷ cs) =
    let written = unescape_from target_size false (w + 1) cs in
    let skipped = unescape_from target_size true w cs in
    if ltb w (target_size - 1)
    then if escaped
      then (unescape_byte c ∷ written.0, written.1)
      else if c == b'\\'
      then skipped
      else (c ∷ written.0, written.1)
    else ([], w)

-- The target's text before its NUL, and the returned count, which includes the NUL.
pub adc_msg_unescape_to_target : Bytes → ℕ → Bytes × ℕ
unfolding unescape_from unescape_byte
adc_msg_unescape_to_target str target_size =
    let (target, w) = unescape_from target_size false 0 str in (target, w + 1)

pub adc_msg_unescape : Bytes → Bytes
unfolding adc_msg_unescape_to_target adc_msg_unescape_length
adc_msg_unescape str = (adc_msg_unescape_to_target str (adc_msg_unescape_length str + 1)).0
