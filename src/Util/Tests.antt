-- ===== src/Util/Tests.antt =====
-- Runs of the models of src/util on concrete inputs, and the theorems applied there.
mod Trees
use uhub.Prelude.{◌≡◌, ◌↔◌, refl, true, false, [], ◌∷◌, some, arith}
use uhub.Util.Utf8.{is_valid_utf8_str}
use uhub.Util.Utf8.Grammar.{Utf8, is_valid_utf8_str-Utf8}
use uhub.Util.Flood.{flood_control_reset, verdicts, passed}
use uhub.Util.Flood.Limit.{flood_control_check-Window}
use uhub.Util.Credentials.{
  AuthCredentials, auth_cred_to_string, auth_string_to_cred, auth_string_to_cred-to_string,
}

-- A two-byte letter, and the same letter cut off.
is_valid_utf8_str-Utf8_example :
    (is_valid_utf8_str (0xC3 ∷ 0xA9 ∷ []) ≡ true) ↔ Utf8 (0xC3 ∷ 0xA9 ∷ [])
is_valid_utf8_str-Utf8_example = is_valid_utf8_str-Utf8 (0xC3 ∷ 0xA9 ∷ []) (omega arith)

cut_off : is_valid_utf8_str (0xC3 ∷ []) ≡ false
unfolding is_valid_utf8_str
cut_off = refl

flood-Window_example : passed (verdicts flood_control_reset 4 10 (100 ∷ 101 ∷ 102 ∷ 103 ∷ [])) ≡ 3
flood-Window_example =
    flood_control_check-Window 4 10 100 (101 ∷ 102 ∷ 103 ∷ []) (ground arith) (ground arith)
      (ground arith) (ground arith) (ground arith) (ground arith) (ground arith)
