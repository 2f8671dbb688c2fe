-- ===== src/Core/Hub/Message/Guard.antt =====
-- What a client that is not logged in can make hub_handle_message of src/core/hub.c do, and what no
-- client can.
use uhub.Prelude.{
  ◌+◌, ◌*◌, [], codes, ◌⊎◌, List, ◌∷◌, ℕ, ◌≡◌, refl, sym, ◌∙◌, Bool, true, false, not, Option, none,
  some, Bytes, Bool-cases, Option-cases, inl, inr,
}
use uhub.Adc.Message.{adc_msg_get_arg_offset, AdcMessage}
use uhub.Adc.Message.Parse.Sound.{adc_msg_parse_verify-IsEntitled, adc_msg_parse-IsParsed}
use uhub.Adc.Message.Parse.{adc_msg_parse_verify}
use uhub.Core.Transport.{Transport}
use uhub.Core.User.{HubUser, user_is_logged_in, user_is_disconnecting}
use uhub.Core.Route.{Limits}
use uhub.Core.Route.Recipients.{true≢false}
use uhub.Core.Hub.{Hub}
use uhub.Core.Hub.Command.{
  of_chat, of_connect, of_search, of_extras, CommandKind, support, password, info, forbidden, chat,
  search, spam, search_result, revconnect, connect, command, other, command_kind, FloodType,
  route_msg, unless_flood,
}
use uhub.Adc.Message.Position.{adc_msg_get_argument}
use uhub.Adc.Message.Position.Numbered.{get_argument-some}
use uhub.Core.Hub.Chat.{hub_handle_chat_message}
use uhub.Core.Hub.Message.{unless_denied, Services, dispatch, hub_handle_message, sender, ignored}
use uhub.Core.Inf.Update.{Handled, handled}
use uhub.Core.Hub.Message.Flood.{Warnable, Quiet, unless_flood-Quiet}

-- The cases that a client may reach before it is logged in.
abbrev pub before_login : CommandKind → Bool
before_login support = true
before_login password = true
before_login info = true
before_login _ = false

-- The commands of which no client may have a message relayed: DINF, EINF and FINF; BQUI, DQUI, EQUI
-- and FQUI; BRES, ERES and FRES; BCMD, DCMD, ECMD, FCMD and HCMD.
abbrev pub withheld : List Bytes
withheld =
    codes "DINF"
    ∷ codes "EINF"
    ∷ codes "FINF"
    ∷ codes "BQUI"
    ∷ codes "DQUI"
    ∷ codes "EQUI"
    ∷ codes "FQUI"
    ∷ codes "BRES"
    ∷ codes "ERES"
    ∷ codes "FRES"
    ∷ codes "BCMD"
    ∷ codes "DCMD"
    ∷ codes "ECMD"
    ∷ codes "FCMD"
    ∷ codes "HCMD"
    ∷ []

-- A number that is one of these texts, with the first character highest.
abbrev pub code_of : Bytes → ℕ
code_of name = go 0 name
  where
    go : ℕ → Bytes → ℕ
    go acc [] = acc
    go acc (c ∷ cs) = go (acc * 256 + c) cs

abbrev pub IsNamed : ℕ → List Bytes → Type 0
IsNamed code [] = ⊥
IsNamed code (name ∷ names) = (code ≡ code_of name) ⊎ IsNamed code names

-- The cases of these commands, each of which only counts against the flood limit.
abbrev is_ignored : CommandKind → Bool
is_ignored forbidden = true
is_ignored spam = true
is_ignored command = true
is_ignored _ = false

AllIgnored : List Bytes → Type 0
AllIgnored [] = Unit
AllIgnored (name ∷ names) = (is_ignored (command_kind (code_of name)) ≡ true) × AllIgnored names

named-ignored :
    (code : ℕ) (names : List Bytes)
    → AllIgnored names
    → IsNamed code names
    → is_ignored (command_kind code) ≡ true
unfolding AllIgnored
named-ignored code [] a n = absurd n
named-ignored code (name ∷ names) (a, rest) (inl e) = rw (e) a
named-ignored code (name ∷ names) (a, rest) (inr n) = named-ignored code names rest n

withheld-ignored : AllIgnored withheld
unfolding AllIgnored command_kind
withheld-ignored = (
  refl,
  (
    refl,
    (
      refl,
      (
        refl,
        (refl, (refl, (refl, (refl, (refl, (refl, (refl, (refl, (refl, (refl, (refl, tt))))))))))),
      ),
    ),
  ),
)

module _ {C : Type 0} (net : Transport C) (limits : Limits) where
  module _ (services : Services C) (now : ℕ) where
    parsed-offset :
        (user : HubUser C) (line : Bytes) (cmd : AdcMessage)
        → adc_msg_parse_verify (some (sender net limits services now user)) line ≡ some cmd
        → (offset : ℕ) × (adc_msg_get_arg_offset cmd ≡ some offset)
    parsed-offset user line cmd e =
        let parsed = (adc_msg_parse_verify-IsEntitled _ line cmd).0 e in
        let a = (adc_msg_parse-IsParsed line cmd parsed.0).arguments in (a.0, a.1)

    route_msg-Quiet :
        (hub : Hub C) (user : HubUser C) (cmd : AdcMessage)
        → user_is_logged_in user ≡ false
        → Quiet hub (route_msg net limits hub user cmd)
    unfolding route_msg
    route_msg-Quiet hub user cmd e = (handled true (hub, user), rw (e, route_msg) refl, refl)

    logged_in-state :
        (u user : HubUser C) → u.state ≡ user.state → user_is_logged_in u ≡ user_is_logged_in user
    unfolding user_is_logged_in
    logged_in-state u user e = rw (e) refl

    routed-Quiet :
        (hub : Hub C) (user : HubUser C) (cmd : AdcMessage) (kind : FloodType)
        → user_is_logged_in user ≡ false
        → Warnable hub.config user
        → Quiet hub
            (unless_flood net limits now kind true hub user λ u. route_msg net limits hub u cmd)
    routed-Quiet hub user cmd kind e h =
        unless_flood-Quiet net limits now kind true hub user _ h
          (λ u same. route_msg-Quiet hub u cmd (logged_in-state u user same ∙ e))

    denied-Quiet :
        (denied : Bool) (hub : Hub C) (user : HubUser C) (next : Option (Handled C))
        → Quiet hub next
        → Quiet hub (unless_denied net limits services now denied hub user next)
    denied-Quiet true hub user next q = (handled false (hub, user), refl, refl)
    denied-Quiet false hub user next q = q

    ignored-Quiet :
        (kind : FloodType) (hub : Hub C) (user : HubUser C)
        → Warnable hub.config user
        → Quiet hub
            (unless_flood net limits now kind true hub user (ignored net limits services now hub))
    ignored-Quiet kind hub user h =
        unless_flood-Quiet net limits now kind true hub user _ h
          (λ u same. (handled false (hub, u), refl, refl))

    chat-Quiet :
        (hub : Hub C) (user : HubUser C) (cmd : AdcMessage) (offset : ℕ)
        → adc_msg_get_arg_offset cmd ≡ some offset
        → user_is_logged_in user ≡ false
        → Quiet hub (hub_handle_chat_message net limits services.plugins hub user cmd)
    unfolding hub_handle_chat_message
    chat-Quiet hub user cmd offset f e =
        let (m, argument, g) = get_argument-some cmd 0 offset f in go m argument g
      where
        go :
            (m : AdcMessage) (argument : Option Bytes)
            → adc_msg_get_argument cmd 0 ≡ some (m, argument)
            → Quiet hub (hub_handle_chat_message net limits services.plugins hub user cmd)
        go m none g = (handled false (hub, user), rw (g, hub_handle_chat_message) refl, refl)
        go m (some argument) g =
            (handled false (hub, user), rw (g, e, hub_handle_chat_message) refl, refl)

    dispatch-Quiet :
        (kind : CommandKind) (hub : Hub C) (user : HubUser C) (cmd : AdcMessage)
        → before_login kind ≡ false
        → user_is_logged_in user ≡ false
        → Warnable hub.config user
        → (offset : ℕ) → adc_msg_get_arg_offset cmd ≡ some offset
        → Quiet hub (dispatch net limits services now kind hub user cmd)
    unfolding dispatch
    dispatch-Quiet support hub user cmd b e h o f = absurd (true≢false b)
    dispatch-Quiet password hub user cmd b e h o f = absurd (true≢false b)
    dispatch-Quiet info hub user cmd b e h o f = absurd (true≢false b)
    dispatch-Quiet forbidden hub user cmd b e h o f = ignored-Quiet of_extras hub user h
    dispatch-Quiet chat hub user cmd b e h o f =
        unless_flood-Quiet net limits now of_chat true hub user _ h
          (λ u same. chat-Quiet hub u cmd o f (logged_in-state u user same ∙ e))
    dispatch-Quiet search hub user cmd b e h o f =
        denied-Quiet _ hub user _ (routed-Quiet hub user cmd of_search e h)
    dispatch-Quiet spam hub user cmd b e h o f = ignored-Quiet of_extras hub user h
    dispatch-Quiet search_result hub user cmd b e h o f =
        denied-Quiet _ hub user _ (route_msg-Quiet hub user cmd e)
    dispatch-Quiet revconnect hub user cmd b e h o f =
        denied-Quiet _ hub user _ (routed-Quiet hub user cmd of_connect e h)
    dispatch-Quiet connect hub user cmd b e h o f =
        denied-Quiet _ hub user _ (routed-Quiet hub user cmd of_connect e h)
    dispatch-Quiet command hub user cmd b e h o f = ignored-Quiet of_extras hub user h
    dispatch-Quiet other hub user cmd b e h o f = routed-Quiet hub user cmd of_extras e h

    -- Unless the line is a feature, a password or an information message, a line of a user that is
    -- not logged in leaves the hub as it was, its events, its lists and every other user's queue,
    -- whatever its commands, its plugins and its flood limits are. The user's send queue is well
    -- formed, with room for a warning of a flood.
    pub hub_handle_message-unlogged :
        (hub : Hub C) (user : HubUser C) (line : Bytes)
        → user_is_logged_in user ≡ false
        → ((cmd : AdcMessage)
            → adc_msg_parse_verify (some (sender net limits services now user)) line ≡ some cmd
            → before_login (command_kind cmd.cmd) ≡ false)
        → Warnable hub.config user
        → Quiet hub (hub_handle_message net limits services now hub user line)
    unfolding hub_handle_message
    hub_handle_message-unlogged hub user line e guarded h =
        elim (Bool-cases (user_is_disconnecting user)) [
          | inl gone ↦ (handled true (hub, user), rw (gone, hub_handle_message) refl, refl)
          | inr here ↦
              elim (Option-cases
                (adc_msg_parse_verify (some (sender net limits services now user)) line)) [
                  | inl wrong ↦ (
                    handled (not (user_is_logged_in user)) (hub, user),
                    rw (here, wrong, hub_handle_message) refl,
                    refl,
                  )
                  | inr (cmd, parsed) ↦
                      let (o, f) = parsed-offset user line cmd parsed in
                      let (r, g, k) =
                        dispatch-Quiet (command_kind cmd.cmd) hub user cmd (guarded cmd parsed) e h
                          o f in
                      (r, rw (here, parsed, hub_handle_message) g, k)
                ]
        ]

    dispatch-withheld :
        (kind : CommandKind) (hub : Hub C) (user : HubUser C) (cmd : AdcMessage)
        → is_ignored kind ≡ true
        → Warnable hub.config user
        → Quiet hub (dispatch net limits services now kind hub user cmd)
    unfolding dispatch
    dispatch-withheld forbidden hub user cmd w h = ignored-Quiet of_extras hub user h
    dispatch-withheld spam hub user cmd w h = ignored-Quiet of_extras hub user h
    dispatch-withheld command hub user cmd w h = ignored-Quiet of_extras hub user h
    dispatch-withheld support hub user cmd w h = absurd (true≢false (sym w))
    dispatch-withheld password hub user cmd w h = absurd (true≢false (sym w))
    dispatch-withheld info hub user cmd w h = absurd (true≢false (sym w))
    dispatch-withheld chat hub user cmd w h = absurd (true≢false (sym w))
    dispatch-withheld search hub user cmd w h = absurd (true≢false (sym w))
    dispatch-withheld search_result hub user cmd w h = absurd (true≢false (sym w))
    dispatch-withheld revconnect hub user cmd w h = absurd (true≢false (sym w))
    dispatch-withheld connect hub user cmd w h = absurd (true≢false (sym w))
    dispatch-withheld other hub user cmd w h = absurd (true≢false (sym w))

    -- A line whose command is one of DINF, EINF, FINF, BQUI, DQUI, EQUI, FQUI, BRES, ERES, FRES, BCMD,
    -- DCMD, ECMD, FCMD and HCMD leaves the hub as it was, whoever sends it: a user that is logged in
    -- too. The user's send queue is well formed, with room for a warning of a flood. Of HINF, HQUI,
    -- IQUI, HRES, ICMD and other commands, which are routed like unknown ones, nothing is said.
    pub hub_handle_message-withheld :
        (hub : Hub C) (user : HubUser C) (line : Bytes) (cmd : AdcMessage)
        → adc_msg_parse_verify (some (sender net limits services now user)) line ≡ some cmd
        → IsNamed cmd.cmd withheld
        → Warnable hub.config user
        → Quiet hub (hub_handle_message net limits services now hub user line)
    unfolding hub_handle_message
    hub_handle_message-withheld hub user line cmd parsed w h =
        elim (Bool-cases (user_is_disconnecting user)) [
          | inl gone ↦ (handled true (hub, user), rw (gone, hub_handle_message) refl, refl)
          | inr here ↦
              let (r, g, k) =
                dispatch-withheld (command_kind cmd.cmd) hub user cmd
                  (named-ignored cmd.cmd withheld withheld-ignored w) h in
              (r, rw (here, parsed, hub_handle_message) g, k)
        ]
