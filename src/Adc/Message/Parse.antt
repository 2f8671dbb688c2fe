-- ===== src/Adc/Message/Parse.antt =====
-- `adc_msg_parse` and `adc_msg_parse_verify` of src/adc/message.c.
pub mod Sound
use uhub.Prelude.{
  ℕ, zero, suc, ◌+◌, ◌-◌, ◌*◌, Bool, true, false, not, ◌&&◌, ◌||◌, List, [], ◌∷◌, ◌++◌, Option,
  none, some, ltb, leb, ◌==◌, if◌then◌else◌, length, get_or, drop, Bytes,
}
use uhub.Util.Chars.{is_space, is_valid_base32_char}
use uhub.Util.Utf8.{is_printable_utf8}
use uhub.Util.Credentials.{AuthCredentials, auth_cred_is_unrestricted}
use uhub.Adc.Sid.{string_to_sid}
use uhub.Adc.Escape.{msg_check_escapes}
use uhub.Adc.Message.{
  AdcMessage, zeroed, fourcc, adc_msg_grow, adc_msg_get_arg_offset, ends_with_newline,
}

-- `none` is a false `ok`, where `*sid` is left as it was.
pub extract_sid : Bytes → ℕ → Option ℕ
extract_sid line start =
    let at = λ (i : ℕ). get_or line (start + i) 0 in
    if ltb (start + 4) (length line)
      && (is_space (at 0)
          && (is_valid_base32_char (at 1)
              && (is_valid_base32_char (at 2)
                  && (is_valid_base32_char (at 3) && is_valid_base32_char (at 4)))))
    then some (string_to_sid (some (at 1 ∷ at 2 ∷ at 3 ∷ at 4 ∷ [])))
    else none

-- The loop over the features of an F message, on what is left of the line. The result holds the
-- position reached and the two lists.
pub feature_cast_loop : Bytes → ℕ → List Bytes → List Bytes → ℕ × List Bytes × List Bytes
feature_cast_loop (c ∷ f ∷ g ∷ h ∷ i ∷ j ∷ rest) n inc exc =
    let feature = f ∷ g ∷ h ∷ i ∷ [] in
    let plus = feature_cast_loop (j ∷ rest) (n + 5) (inc ++ feature ∷ []) exc in
    let minus = feature_cast_loop (j ∷ rest) (n + 5) inc (exc ++ feature ∷ []) in
    if c == b'+' then plus else if c == b'-' then minus else (n, inc, exc)
feature_cast_loop (c ∷ rest) n inc exc = (if c == b'+' || c == b'-' then n + 1 else n, inc, exc)
feature_cast_loop [] n inc exc = (n, inc, exc)

-- `ok = extract_sid(line, length, 4, &(command->source))`
pub parse_source : Bytes → AdcMessage → Option AdcMessage
parse_source line command = elim (extract_sid line 4) [
  | none ↦ none
  | some sid ↦ some (record command { source = sid })
]

-- `ok = extract_sid(line, length, 9, &(command->target))`
pub parse_target : Bytes → AdcMessage → Option AdcMessage
parse_target line command = elim (extract_sid line 9) [
  | none ↦ none
  | some sid ↦ some (record command { target = sid })
]

-- The feature lists of an F message; a line with none is malformed.
pub parse_features : Bytes → AdcMessage → Option AdcMessage
parse_features line command =
    let (n, inc, exc) = feature_cast_loop (drop 10 line) 10 [] [] in
    if n == 10
    then none
    else some (record command { feature_cast_include = some inc; feature_cast_exclude = some exc })

-- The next step, if `ok`.
abbrev pub and_then : Option AdcMessage → (AdcMessage → Option AdcMessage) → Option AdcMessage
and_then none f = none
and_then (some m) f = f m

-- The switch on the prefix; `none` is a false `ok`.
pub parse_header : Bytes → AdcMessage → Option AdcMessage
parse_header line command =
    let prefix = get_or line 0 0 in
    if prefix == b'I' || prefix == b'H'
    then some command
    else if prefix == b'B'
    then parse_source line command
    else if prefix == b'F'
    then and_then (parse_source line command) (parse_features line)
    else if prefix == b'D' || prefix == b'E'
    then and_then (parse_source line command) (parse_target line)
    else none

-- The argument offset must lie within the line, at a space or at the end of the message.
pub check_termination : Bytes → AdcMessage → Option AdcMessage
check_termination line command = elim (adc_msg_get_arg_offset command) [
  | none ↦ none
  | some n ↦
      if leb (length line) n
      then none
      else if not (get_or command.cache n 0 == b' ') && not (get_or command.cache n 0 == b'\n')
      then none
      else some command
]

-- The line with its newline, in a buffer of the size that the parser asks for.
pub parse_buffer : Bytes → AdcMessage
parse_buffer line =
    let text = if ends_with_newline line then line else line ++ b'\n' ∷ [] in
    record (adc_msg_grow zeroed (length text)) {
      cmd = fourcc (get_or line 0 0) (get_or line 1 0) (get_or line 2 0) (get_or line 3 0);
      cache = text;
      references = 1;
    }

unfoldable pub adc_msg_parse : Bytes → Option AdcMessage
unfolding parse_header check_termination parse_buffer parse_source parse_target parse_features
    extract_sid feature_cast_loop is_printable_utf8 msg_check_escapes string_to_sid is_space
    is_valid_base32_char adc_msg_grow adc_msg_get_arg_offset ends_with_newline fourcc
adc_msg_parse line =
    if ltb (length line) 4
    then none
    else if not (is_printable_utf8 line)
    then none
    else if not (msg_check_escapes line)
    then none
    else and_then (parse_header line (parse_buffer line)) (check_termination line)

-- What the check reads of a user: `id.sid` and `credentials`.
pub record Sender : Type 0 where
  pub sid : ℕ
  pub credentials : AuthCredentials

abbrev pub may_send : Option Sender → ℕ → Bool
may_send none source = false
may_send (some u) source = source == u.sid || auth_cred_is_unrestricted u.credentials

unfoldable pub adc_msg_parse_verify : Option Sender → Bytes → Option AdcMessage
adc_msg_parse_verify u line = and_then (adc_msg_parse line) λ command.
    if not (command.source == 0) && not (may_send u command.source) then none else some command
