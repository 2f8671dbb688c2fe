-- ===== src/Util/Credentials.antt =====
-- src/util/credentials.c: the ranks of users and their names.
use uhub.Prelude.{
  ℕ, suc, ◌+◌, ◌≡◌, refl, ap, Bool, true, false, ◌&&◌, [], ◌∷◌, Option, none, some, leb, ◌==◌,
  if◌then◌else◌, length, Bytes, codes, arith, map, bytes_eq,
}

pub data AuthCredentials : Type 0 where
  cred_none guest user bot ubot operator opbot opubot super link admin : AuthCredentials

pub auth_cred_is_unrestricted : AuthCredentials → Bool
auth_cred_is_unrestricted ubot = true
auth_cred_is_unrestricted opubot = true
auth_cred_is_unrestricted _ = false

pub auth_cred_is_protected : AuthCredentials → Bool
auth_cred_is_protected bot = true
auth_cred_is_protected ubot = true
auth_cred_is_protected opbot = true
auth_cred_is_protected opubot = true
auth_cred_is_protected operator = true
auth_cred_is_protected super = true
auth_cred_is_protected admin = true
auth_cred_is_protected link = true
auth_cred_is_protected _ = false

pub auth_cred_is_registered : AuthCredentials → Bool
auth_cred_is_registered bot = true
auth_cred_is_registered ubot = true
auth_cred_is_registered opbot = true
auth_cred_is_registered opubot = true
auth_cred_is_registered user = true
auth_cred_is_registered operator = true
auth_cred_is_registered super = true
auth_cred_is_registered admin = true
auth_cred_is_registered link = true
auth_cred_is_registered _ = false

pub auth_cred_to_string : AuthCredentials → Bytes
auth_cred_to_string cred_none = codes "none"
auth_cred_to_string bot = codes "bot"
auth_cred_to_string ubot = codes "ubot"
auth_cred_to_string opbot = codes "opbot"
auth_cred_to_string opubot = codes "opubot"
auth_cred_to_string guest = codes "guest"
auth_cred_to_string user = codes "user"
auth_cred_to_string operator = codes "operator"
auth_cred_to_string super = codes "super"
auth_cred_to_string link = codes "link"
auth_cred_to_string admin = codes "admin"

-- `tolower` in the C locale, which `strcasecmp` compares by.
pub lower : ℕ → ℕ
lower c = if leb b'A' c && leb c b'Z' then c + 32 else c

abbrev pub strcasecmp_eq : Bytes → Bytes → Bool
strcasecmp_eq a b = bytes_eq (map lower a) (map lower b)

-- One `if (!strcasecmp(str, name)) { *out = cred; return 1; }`, and what follows it.
abbrev try_name : Bytes → Bytes → AuthCredentials → Option AuthCredentials → Option AuthCredentials
try_name str name cred rest = if strcasecmp_eq str name then some cred else rest

-- A null or empty `str` gives 0, as `none` here; `out` is never null.
pub auth_string_to_cred : Bytes → Option AuthCredentials
unfolding lower
auth_string_to_cred str =
    if length str == 2
    then try_name str (codes "op") operator none
    else if length str == 3
    then try_name str (codes "bot") bot (try_name str (codes "reg") user none)
    else if length str == 4
    then try_name str (codes "none") cred_none (
        try_name str (codes "user") user
          (try_name str (codes "link") link (try_name str (codes "ubot") ubot none)))
    else if length str == 5
    then try_name str (codes "admin") admin (
        try_name str (codes "super") super
          (try_name str (codes "opbot") opbot (try_name str (codes "guest") guest none)))
    else if length str == 6
    then try_name str (codes "opubot") opubot none
    else if length str == 8
    then try_name str (codes "operator") operator none
    else none

-- Every name printed for a rank is read back as that rank.
pub auth_string_to_cred-to_string :
    (cred : AuthCredentials) → auth_string_to_cred (auth_cred_to_string cred) ≡ some cred
unfolding auth_string_to_cred auth_cred_to_string
auth_string_to_cred-to_string cred_none = refl
auth_string_to_cred-to_string _ = refl

length-map : (s : Bytes) → length (map lower s) ≡ length s
length-map [] = refl
length-map (c ∷ cs) = ap suc (length-map cs)

lower_idem : (c : ℕ) → lower (lower c) ≡ lower c
unfolding lower
lower_idem c = ground arith

lower_twice : (s : Bytes) → map lower (map lower s) ≡ map lower s
lower_twice [] = refl
lower_twice (c ∷ cs) = cc (lower_idem c, lower_twice cs)

-- Letter case does not matter when a rank is read.
pub auth_string_to_cred-lower :
    (str : Bytes) → auth_string_to_cred (map lower str) ≡ auth_string_to_cred str
unfolding auth_string_to_cred
auth_string_to_cred-lower str = rw (length-map str, lower_twice str)

-- An unrestricted user is protected, and a protected one is registered.
pub auth_cred_ranks :
    (cred : AuthCredentials)
    → (auth_cred_is_unrestricted cred ≡ true → auth_cred_is_protected cred ≡ true)
      × (auth_cred_is_protected cred ≡ true → auth_cred_is_registered cred ≡ true)
unfolding auth_cred_is_unrestricted auth_cred_is_protected auth_cred_is_registered
auth_cred_ranks cred = ground arith
