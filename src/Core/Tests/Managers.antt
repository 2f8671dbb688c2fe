-- ===== src/Core/Tests/Managers.antt =====
-- The model of src/core/usermanager.c on two users.
use uhub.Prelude.{
  ℕ, ◌≡◌, refl, false, [], Option, none, some, arith, Bytes, codes, ◌==◌, if◌then◌else◌,
}
use uhub.Core.User.{HubUser}
use uhub.Core.Route.Recipients.{member}
use uhub.Core.UserManager.{UserManager, rb_tree_get, uman_add, uman_remove}
use uhub.Core.UserManager.Registered.{
  Indexed, IsRegister, uman_add-IsRegister, uman_remove-IsRegister,
}
use uhub.Core.Tests.Routing.{user_with, idle}

abbrev ann : HubUser Bytes
ann = record (user_with idle) { cid = codes "AB2" }

abbrev pub empty_manager : UserManager Bytes
empty_manager = record {
  users = record { table = λ s. if s == 1 then some ann else none; list = [] };
  nickmap = [];
  cidmap = [];
  count = 0;
  count_peak = 0;
  shared_size = 0;
  shared_files = 0;
}

pub no_keys : (key : ℕ → Option Bytes) → Indexed [] key []
unfolding rb_tree_get
no_keys key = record { listed = λ s m. ground arith; mapped = λ k s e. ground arith }

empty_manager-IsRegister : IsRegister empty_manager
empty_manager-IsRegister = record {
  distinct = tt;
  counted = refl;
  nicks = no_keys _;
  cids = no_keys _;
}

add_example : IsRegister (uman_add empty_manager ann)
unfolding rb_tree_get
add_example =
    uman_add-IsRegister empty_manager ann empty_manager-IsRegister refl refl refl (omega arith)

register : IsRegister (uman_add empty_manager ann)
unfolding rb_tree_get
register =
    uman_add-IsRegister empty_manager ann empty_manager-IsRegister refl refl refl (omega arith)

leave_example :
    IsRegister (uman_remove (uman_add empty_manager ann) ann)
    × (rb_tree_get (uman_remove (uman_add empty_manager ann) ann).nickmap ann.nick ≡ none)
    × (rb_tree_get (uman_remove (uman_add empty_manager ann) ann).cidmap ann.cid ≡ none)
    × (member ann.sid (uman_remove (uman_add empty_manager ann) ann).users.list ≡ false)
unfolding uman_add
leave_example = uman_remove-IsRegister (uman_add empty_manager ann) ann register refl refl
