-- ===== src/Core/UserManager.antt =====
-- src/core/usermanager.c: the users that are logged in, and the maps by nick and by CID.
-- A user stands in the maps and in the list by its session identifier. A red-black tree is the
-- pairs that it holds: an insertion of a key that is there already changes nothing, and a removal
-- takes the key away whatever its value is.
pub mod Maps
pub mod Registered
pub mod Routed
use uhub.Prelude.{
  ℕ, ◌+◌, ◌-◌, ◌*◌, ◌%◌, ◌^◌, Bool, true, false, not, List, [], ◌∷◌, ◌++◌, Option, none, some, ltb,
  leb, ◌==◌, if◌then◌else◌, Bytes, bytes_eq,
}
use uhub.Core.User.{HubUser, user_flag_set, flag_user_list, user_is_logged_in}
use uhub.Core.Profile.{quit_banned, quit_kicked, UserQuitReason}
use uhub.Core.Transport.{Transport}
use uhub.Core.Route.{Limits, Table, Users, route_to_user, route_to_all}
use uhub.Adc.Message.{AdcMessage}
use uhub.Adc.Message.Build.{adc_msg_construct, adc_msg_add_argument}
use uhub.Adc.Sid.{sid_to_string}

abbrev pub Map : Type 0
Map = List (Bytes × ℕ)

unfoldable pub rb_tree_get : Map → Bytes → Option ℕ
rb_tree_get [] key = none
rb_tree_get ((k, sid) ∷ rest) key = if bytes_eq k key then some sid else rb_tree_get rest key

unfoldable pub rb_tree_insert : Map → Bytes → ℕ → Map
unfolding rb_tree_get
rb_tree_insert map key sid = elim (rb_tree_get map key) [
  | none ↦ (key, sid) ∷ map
  | some other ↦ map
]

unfoldable pub rb_tree_remove : Map → Bytes → Map
rb_tree_remove [] key = []
rb_tree_remove ((k, sid) ∷ rest) key =
    let left = rb_tree_remove rest key in if bytes_eq k key then left else (k, sid) ∷ left

-- `list_append` and `list_remove`, which takes the first node of the user away.
unfoldable pub list_append : List ℕ → ℕ → List ℕ
list_append list sid = list ++ sid ∷ []

unfoldable pub list_remove : List ℕ → ℕ → List ℕ
list_remove [] sid = []
list_remove (s ∷ rest) sid = let left = list_remove rest sid in if s == sid then rest else s ∷ left

pub record UserManager {ℓ} (C : Type ℓ) : Type ℓ where
  pub users : Users C
  pub nickmap : Map
  pub cidmap : Map
  pub count : ℕ
  pub count_peak : ℕ
  pub shared_size : ℕ
  pub shared_files : ℕ

module _ {ℓ} {C : Type ℓ} where
  unfoldable pub uman_add : UserManager C → HubUser C → UserManager C
  unfolding rb_tree_insert list_append
  uman_add manager user =
      let count = (manager.count + 1) % 2 ^ 64 in
      record {
        users = record manager.users { list = list_append manager.users.list user.sid };
        nickmap = rb_tree_insert manager.nickmap user.nick user.sid;
        cidmap = rb_tree_insert manager.cidmap user.cid user.sid;
        count = count;
        count_peak = if ltb manager.count_peak count then count else manager.count_peak;
        shared_size = (manager.shared_size + user.limits.shared_size) % 2 ^ 64;
        shared_files = (manager.shared_files + user.limits.shared_files) % 2 ^ 64;
      }

  unfoldable pub uman_remove : UserManager C → HubUser C → UserManager C
  unfolding rb_tree_remove list_remove
  uman_remove manager user = record manager {
    users = record manager.users { list = list_remove manager.users.list user.sid };
    nickmap = rb_tree_remove manager.nickmap user.nick;
    cidmap = rb_tree_remove manager.cidmap user.cid;
    count = manager.count - 1;
    shared_size = (manager.shared_size + 2 ^ 64 - user.limits.shared_size) % 2 ^ 64;
    shared_files = (manager.shared_files + 2 ^ 64 - user.limits.shared_files) % 2 ^ 64;
  }

  unfoldable pub uman_get_user_by_nick : UserManager C → Bytes → Option ℕ
  unfolding rb_tree_get
  uman_get_user_by_nick manager nick = rb_tree_get manager.nickmap nick

  unfoldable pub uman_get_user_by_cid : UserManager C → Bytes → Option ℕ
  unfolding rb_tree_get
  uman_get_user_by_cid manager cid = rb_tree_get manager.cidmap cid

  pub uman_get_user_by_sid : UserManager C → ℕ → Option (HubUser C)
  uman_get_user_by_sid manager sid = manager.users.table sid

abbrev pub is_sent_away : UserQuitReason → Bool
is_sent_away quit_banned = true
is_sent_away quit_kicked = true
is_sent_away _ = false

-- `ADC_CMD_IQUI`, and the argument "DI".
abbrev pub adc_cmd_iqui : ℕ
adc_cmd_iqui = ((b'I' * 256 + b'Q') * 256 + b'U') * 256 + b'I'

module _ {ℓ} {C : Type ℓ} (net : Transport C) (limits : Limits) where
  -- The loop of `uman_send_user_list`. The result is false when the target has lost its connection,
  -- which ends the loop. `none` is the write loop out of fuel, or such a user without information.
  unfoldable pub send_infos : Table C → List ℕ → HubUser C → Option (HubUser C × Bool)
  unfolding route_to_user user_is_logged_in
  send_infos table [] target = some (target, true)
  send_infos table (sid ∷ rest) target = elim (table sid) [
    | none ↦ none
    | some user ↦ elim (user_is_logged_in user) [
      | false ↦ send_infos table rest target
      | true ↦ elim target.connection [
        | none ↦ some (target, false)
        | some con ↦ elim user.info [
          | none ↦ none
          | some info ↦ elim (route_to_user net limits target info.cache) [
            | none ↦ none
            | some target' ↦ send_infos table rest target'
          ]
        ]
      ]
    ]
  ]

  unfoldable pub uman_send_user_list : UserManager C → HubUser C → Option (HubUser C × Bool)
  unfolding send_infos user_flag_set
  uman_send_user_list manager target =
      send_infos manager.users.table manager.users.list (user_flag_set target flag_user_list)

  unfoldable pub uman_send_quit_message : UserManager C → HubUser C → Option (Table C)
  unfolding route_to_all
  uman_send_quit_message manager leaving =
      let command =
        adc_msg_add_argument (adc_msg_construct adc_cmd_iqui 6) (sid_to_string leaving.sid) in
      let final =
        if is_sent_away leaving.quit_reason
        then adc_msg_add_argument command (b'D' ∷ b'I' ∷ [])
        else command in
      route_to_all net limits manager.users final
