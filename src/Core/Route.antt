-- ===== src/Core/Route.antt =====
-- src/core/route.c: the delivery of a message to its recipients.
-- A message is its text, its target and its feature lists (Adc/Message). The users are a table by
-- session identifier, as the pool of src/adc/sid.c is, and the list of those that are logged in.
pub mod Delivery
pub mod Recipients
pub mod Addressed
pub mod Identity
use uhub.Prelude.{
  ℕ, suc, zero, ◌+◌, ◌%◌, ◌^◌, Bool, true, false, ◌&&◌, ◌||◌, not, List, [], ◌∷◌, ◌++◌, Option,
  none, some, ltb, ◌==◌, if◌then◌else◌, length, Bytes, get_or,
}
use uhub.Core.Transport.{Transport}
use uhub.Core.Queue.{IoqSend, ioq_send_add, ioq_send_is_empty}
use uhub.Core.NetWrite.{NetWrite, socket_error, want_write, want_read, handle_net_write}
use uhub.Core.User.{
  HubUser, flag_user_list, flag_choke, flag_pipeline, user_flag_get, user_flag_set, user_flag_unset,
  user_net_io_want_write, user_have_feature_cast_support, or_empty,
}
use uhub.Adc.Message.{AdcMessage}

-- The limits that routing reads of the configuration.
pub record Limits : Type 0 where
  pub max_send_buffer : ℕ
  pub max_send_buffer_soft : ℕ

-- The return values 1, 0 and -1.
pub data QueueCheck : Type 0 where
  queue_ok : QueueCheck
  soft_overflow : QueueCheck
  overflow : QueueCheck

module _ {ℓ} {C : Type ℓ} (limits : Limits) where
  unfoldable pub check_send_queue : HubUser C → Bytes → HubUser C × QueueCheck
  unfolding user_flag_get user_flag_set user_flag_unset
  check_send_queue user msg =
      if user_flag_get user flag_user_list
      then (user, queue_ok)
      else if ltb limits.max_send_buffer ((user.send_queue.size + length msg) % 2 ^ 64)
      then (user_flag_set user flag_choke, overflow)
      else if ltb limits.max_send_buffer_soft user.send_queue.size
      then (user_flag_set user flag_choke, soft_overflow)
      else (user_flag_unset user flag_choke, queue_ok)

-- A failed write asks for no events.
abbrev pub next_events : NetWrite → NetWrite → NetWrite
next_events socket_error events = events
next_events want_write events = want_write
next_events want_read events = want_read

abbrev pub wrote_user {ℓ} :
    {C : Type ℓ} → HubUser C → Option (IoqSend × C × NetWrite) → Option (HubUser C)
wrote_user user none = none
wrote_user user (some (q, con, event)) =
    some (record user {
      send_queue = q;
      connection = some con;
      events = next_events event user.events;
    })

module _ {ℓ} {C : Type ℓ} (net : Transport C) (limits : Limits) where
  -- The call of `handle_net_write` for a user; its result is not used.
  unfoldable pub write_user : HubUser C → C → Option (HubUser C)
  unfolding handle_net_write
  write_user user con = wrote_user user (handle_net_write net user.send_queue con)

  unfoldable pub queue_user : HubUser C → Bytes → HubUser C
  unfolding ioq_send_add user_flag_get user_net_io_want_write
  queue_user user msg =
      let queued = record user { send_queue = ioq_send_add user.send_queue msg } in
      if user_flag_get user flag_pipeline then queued else user_net_io_want_write queued

  pub checked_user : Bytes → HubUser C × QueueCheck → HubUser C
  unfolding queue_user
  checked_user msg (user, overflow) = user
  checked_user msg (user, soft_overflow) = queue_user user msg
  checked_user msg (user, queue_ok) = queue_user user msg

  -- `none` is the write loop out of fuel.
  unfoldable pub route_to_user : HubUser C → Bytes → Option (HubUser C)
  unfolding write_user checked_user check_send_queue ioq_send_is_empty ioq_send_add user_flag_get
  route_to_user user msg = elim user.connection [
    | none ↦ some user
    | some con ↦
        elim (ioq_send_is_empty user.send_queue && not (user_flag_get user flag_pipeline)) [
          | true ↦ write_user (record user { send_queue = ioq_send_add user.send_queue msg }) con
          | false ↦ some (checked_user msg (check_send_queue limits user msg))
        ]
  ]

  unfoldable pub route_flush_pipeline : HubUser C → Option (HubUser C)
  unfolding write_user ioq_send_is_empty user_flag_unset
  route_flush_pipeline user = elim user.connection [
    | none ↦ some user
    | some con ↦ elim (ioq_send_is_empty user.send_queue) [
      | true ↦ some user
      | false ↦ elim (write_user user con) [
        | none ↦ none
        | some wrote ↦ some (user_flag_unset wrote flag_pipeline)
      ]
    ]
  ]

-- The users by their session identifiers.
abbrev pub Table {ℓ} : Type ℓ → Type ℓ
Table C = ℕ → Option (HubUser C)

abbrev pub put {ℓ} : {C : Type ℓ} → Table C → ℕ → HubUser C → Table C
put table sid user = λ s. if s == sid then some user else table s

-- The hub's side of routing: the users, and those logged in, by identifier.
pub record Users {ℓ} (C : Type ℓ) : Type ℓ where
  pub table : Table C
  pub list : List ℕ

-- A routine run on one user; an identifier of no user is passed over.
unfoldable pub at_user {ℓ} :
    {C : Type ℓ} → (HubUser C → Option (HubUser C)) → ℕ → Table C → Option (Table C)
at_user f sid table = elim (table sid) [
  | none ↦ some table
  | some user ↦ elim (f user) [ none ↦ none | some user' ↦ some (put table sid user') ]
]

-- `LIST_FOREACH` over the users that are logged in.
unfoldable pub for_each {ℓ} :
    {C : Type ℓ} → (HubUser C → Option (HubUser C)) → List ℕ → Table C → Option (Table C)
unfolding at_user
for_each f [] table = some table
for_each f (sid ∷ rest) table = elim (at_user f sid table) [
  | none ↦ none
  | some table' ↦ for_each f rest table'
]

module _ {ℓ} {C : Type ℓ} where
  unfoldable pub has_all : HubUser C → List Bytes → Bool
  unfolding user_have_feature_cast_support
  has_all user [] = true
  has_all user (tmp ∷ rest) =
      if not (user_have_feature_cast_support user tmp) then false else has_all user rest

  unfoldable pub has_none : HubUser C → List Bytes → Bool
  unfolding user_have_feature_cast_support
  has_none user [] = true
  has_none user (tmp ∷ rest) =
      if user_have_feature_cast_support user tmp then false else has_none user rest

  -- `do_send`, for a user without features false.
  unfoldable pub do_send : HubUser C → AdcMessage → Bool
  unfolding has_all has_none
  do_send user command = elim user.feature_cast [
    | none ↦ false
    | some list ↦
        if not (has_all user (or_empty command.feature_cast_include))
        then false
        else has_none user (or_empty command.feature_cast_exclude)
  ]

module _ {ℓ} {C : Type ℓ} (net : Transport C) (limits : Limits) where
  unfoldable pub route_to_all : Users C → AdcMessage → Option (Table C)
  unfolding for_each route_to_user
  route_to_all users command =
      for_each (λ user. route_to_user net limits user command.cache) users.list users.table

  unfoldable pub route_subscriber : AdcMessage → HubUser C → Option (HubUser C)
  unfolding do_send route_to_user
  route_subscriber command user =
      if do_send user command then route_to_user net limits user command.cache else some user

  unfoldable pub route_to_subscribers : Users C → AdcMessage → Option (Table C)
  unfolding for_each route_subscriber
  route_to_subscribers users command = for_each (route_subscriber command) users.list users.table

  unfoldable pub route_echo : Users C → ℕ → AdcMessage → Option (Table C)
  unfolding at_user route_to_user
  route_echo users sender msg = elim (users.table msg.target) [
    | none ↦ some users.table
    | some target ↦
        elim (at_user (λ user. route_to_user net limits user msg.cache) msg.target users.table) [
          | none ↦ none
          | some table ↦ at_user (λ user. route_to_user net limits user msg.cache) sender table
        ]
  ]

  -- The users after a message from the user with the identifier `sender`.
  unfoldable pub route_message : Users C → ℕ → AdcMessage → Option (Table C)
  unfolding route_to_all route_to_subscribers route_echo at_user
  route_message users sender msg =
      let kind = get_or msg.cache 0 0 in
      if kind == b'B'
      then route_to_all users msg
      else if kind == b'D'
      then at_user (λ user. route_to_user net limits user msg.cache) msg.target users.table
      else if kind == b'E'
      then route_echo users sender msg
      else if kind == b'F'
      then route_to_subscribers users msg
      else some users.table
