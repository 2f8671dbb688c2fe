-- ===== src/Core/Inf/Identity/Nick.antt =====
-- The nicks and the CIDs that the checks of src/core/inf.c accept.
use uhub.Prelude.{
  ap, subst, ◌&&◌, ◌+◌, ◌==◌, zero, suc, ℕ, take, ◌≡◌, ◌≤◌, ◌↔◌, refl, sym, ◌∙◌, Bool, true, false,
  not, [], ◌∷◌, Option, none, some, arith, ==_iff, if◌then◌else◌, length, Bytes, All, none≢some,
  ◌⊎◌,
}
use uhub.Util.Chars.{is_valid_base32_char}
use uhub.Util.Utf8.{is_valid_utf8_str}
use uhub.Core.Hub.{StatusMessage}
use uhub.Core.Route.Recipients.{true≢false}
use uhub.Core.Inf.Identity.{
  nick_failure, has_control, starts_with_space, base32_loop, check_hash_tiger, cid_failure,
  same_letters, tolower,
}

-- A nick of 2 to 64 bytes of UTF-8 that does not begin with a space and has no byte from 1 to 31.
pub record IsNick (nick : Bytes) : Type 0 where
  pub long : 2 ≤ length nick
  pub short : length nick ≤ 64
  pub no_space : starts_with_space nick ≡ false
  pub no_control : All (λ c. (c ≡ 0) ⊎ (32 ≤ c)) nick
  pub utf8 : is_valid_utf8_str nick ≡ true

no_control_iff : (nick : Bytes) → (has_control nick ≡ false) ↔ All (λ c. (c ≡ 0) ⊎ (32 ≤ c)) nick
no_control_iff [] = ((λ e. tt), (λ a. refl))
no_control_iff (c ∷ cs) = ground (arith, no_control_iff cs)

-- The checks of a nick find no fault exactly if it has 2 to 64 bytes, is valid UTF-8, does not begin
-- with a space and has no byte from 1 to 31.
pub nick_failure-IsNick : (nick : Bytes) → (nick_failure nick ≡ none) ↔ IsNick nick
unfolding nick_failure
nick_failure-IsNick nick = (forward, backward)
  where
    forward : nick_failure nick ≡ none → IsNick nick
    forward e = record {
      long = ground arith;
      short = ground arith;
      no_space = ground arith;
      no_control = (no_control_iff nick).0 (ground arith);
      utf8 = ground arith;
    }

    backward : IsNick nick → nick_failure nick ≡ none
    backward h =
        let plain = (no_control_iff nick).1 h.no_control in
        let space = h.no_space in
        let text = h.utf8 in let long = h.long in let short = h.short in ground arith

and_true : (a b : Bool) → (a && b) ≡ true → (a ≡ true) × (b ≡ true)
and_true true b e = (refl, e)
and_true false b e = absurd (true≢false (sym e))

unless_passed :
    (b : Bool) (failure : StatusMessage) (rest : Option StatusMessage)
    → (if not b then some failure else rest) ≡ none
    → (b ≡ true) × (rest ≡ none)
unless_passed true failure rest e = (refl, e)
unless_passed false failure rest e = absurd (none≢some (sym e))

later_passed :
    (o later : Option StatusMessage)
    → (elim o as (λ _. Option StatusMessage) [ some failure ↦ some failure | none ↦ later ]) ≡ none
    → (o ≡ none) × (later ≡ none)
later_passed none later e = (refl, e)
later_passed (some failure) later e = absurd (none≢some (sym e))

-- A letter of the alphabet in both cases, or the same byte.
abbrev pub SameLetter : ℕ → ℕ → Type 0
SameLetter a b =
    (a ≡ b) ⊎ (((b'A' ≤ a) × (a ≤ b'Z') × (b ≡ a + 32)) ⊎ ((b'A' ≤ b) × (b ≤ b'Z') × (a ≡ b + 32)))

-- Two texts that differ at most in the case of their letters.
abbrev pub SameText : Bytes → Bytes → Type 0
SameText [] [] = Unit
SameText (a ∷ x) (b ∷ y) = SameLetter a b × SameText x y
SameText [] (b ∷ y) = ⊥
SameText (a ∷ x) [] = ⊥

tolower-SameLetter : (a b : ℕ) → ((tolower a == tolower b) ≡ true) ↔ SameLetter a b
unfolding tolower
tolower-SameLetter a b = ground arith

same_letters-SameText : (x y : Bytes) → (same_letters x y ≡ true) ↔ SameText x y
unfolding same_letters
same_letters-SameText [] [] = ((λ e. tt), (λ h. refl))
same_letters-SameText [] (b ∷ y) = ((λ e. absurd (true≢false (sym e))), (λ h. absurd h))
same_letters-SameText (a ∷ x) [] = ((λ e. absurd (true≢false (sym e))), (λ h. absurd h))
same_letters-SameText (a ∷ x) (b ∷ y) =
    let (to, from) = same_letters-SameText x y in
    let (one, back) = tolower-SameLetter a b in
    ((λ e. let (f, g) = and_true _ _ e in (one f, to g)), (λ (f, g). rw (back f, from g) refl))

take_all : (n : ℕ) (s : Bytes) → length s ≡ n → take n s ≡ s
take_all zero [] e = refl
take_all zero (c ∷ s) e = absurd (omega arith)
take_all (suc n) [] e = refl
take_all (suc n) (c ∷ s) e = ap (λ (t : Bytes). c ∷ t) (take_all n s (omega arith))

check_hash_tiger-SameText :
    (hash_pid : Bytes → Bytes) (cid pid : Bytes)
    → length cid ≡ 39
    → (check_hash_tiger hash_pid cid pid ≡ true) ↔ SameText (take 39 (hash_pid pid)) cid
unfolding check_hash_tiger
check_hash_tiger-SameText hash_pid cid pid e =
    subst
      (λ (t : Bytes).
        (same_letters (take 39 (hash_pid pid)) t ≡ true) ↔ SameText (take 39 (hash_pid pid)) cid)
      (sym (take_all 39 cid e)) (same_letters-SameText (take 39 (hash_pid pid)) cid)

-- A CID and a PID of 39 base32 characters each, the first 39 bytes of the hash of the PID being the
-- CID but for the case of its letters.
pub record IsIdentity (hash_pid : Bytes → Bytes) (cid pid : Bytes) : Type 0 where
  pub cid_long : length cid ≡ 39
  pub pid_long : length pid ≡ 39
  pub cid_base32 : All (λ c. is_valid_base32_char c ≡ true) cid
  pub pid_base32 : All (λ c. is_valid_base32_char c ≡ true) pid
  pub hashed : SameText (take 39 (hash_pid pid)) cid

base32_loop-All :
    (cid pid : Bytes)
    → length cid ≡ length pid
    → (base32_loop cid pid ≡ none) ↔ (
        All (λ c. is_valid_base32_char c ≡ true) cid × All (λ c. is_valid_base32_char c ≡ true) pid)
unfolding base32_loop
base32_loop-All [] [] e = ((λ f. (tt, tt)), (λ a. refl))
base32_loop-All [] (p ∷ pid) e = absurd (omega arith)
base32_loop-All (c ∷ cid) [] e = absurd (omega arith)
base32_loop-All (c ∷ cid) (p ∷ pid) e = ground (arith, base32_loop-All cid pid)

-- The checks of a CID and a PID find no fault exactly if both have 39 characters, all of them of the
-- base32 alphabet, and the first 39 bytes of the hash of the PID are the CID but for the case of its
-- letters, whatever function the hash is.
pub cid_failure-IsIdentity :
    (hash_pid : Bytes → Bytes) (cid pid : Bytes)
    → (cid_failure hash_pid cid pid ≡ none) ↔ IsIdentity hash_pid cid pid
unfolding cid_failure
cid_failure-IsIdentity hash_pid cid pid = (forward, backward)
  where
    forward : cid_failure hash_pid cid pid ≡ none → IsIdentity hash_pid cid pid
    forward e =
        let (long, e2) = unless_passed _ _ _ e in
        let (also, e3) = unless_passed _ _ _ e2 in
        let (none_wrong, e4) = later_passed _ _ e3 in
        let (matched, e5) = unless_passed _ _ _ e4 in
        let hashed = (check_hash_tiger-SameText hash_pid cid pid ((==_iff _ _).0 long)).0 matched in
        let same = (==_iff _ _).0 long ∙ sym ((==_iff _ _).0 also) in
        let (a, b) = (base32_loop-All cid pid same).0 none_wrong in
        record {
          cid_long = (==_iff _ _).0 long;
          pid_long = (==_iff _ _).0 also;
          cid_base32 = a;
          pid_base32 = b;
          hashed = hashed;
        }

    backward : IsIdentity hash_pid cid pid → cid_failure hash_pid cid pid ≡ none
    backward h =
        let fine =
          (base32_loop-All cid pid (omega (arith, h.cid_long, h.pid_long))).1
            (h.cid_base32, h.pid_base32) in
        let long = h.cid_long in
        let also = h.pid_long in
        let hashed = (check_hash_tiger-SameText hash_pid cid pid h.cid_long).1 h.hashed in
        ground arith
