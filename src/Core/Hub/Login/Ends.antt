-- ===== src/Core/Hub/Login/Ends.antt =====
-- The sending of a login ends, in src/core/usermanager.c and src/core/route.c: the list of users to
-- the new one, and its information to them.
use uhub.Prelude.{
  ℕ, ◌+◌, ◌<◌, ◌≤◌, ◌^◌, ◌≡◌, refl, ap, sym, ◌∙◌, Bool, true, false, List, [], ◌∷◌, Option, none,
  some, inl, inr, Bool-cases, Option-cases, subst, if◌then◌else◌, length, Bytes, arith,
  length-append,
}
use uhub.Adc.Message.{AdcMessage, adc_msg_copy, adc_msg_grow}
use uhub.Adc.Message.Arguments.Length.{remove-shorter, length-add_named}
use uhub.Adc.Message.Build.{adc_msg_add_named_argument, add_named_argument-positive}
use uhub.Core.Transport.{Transport}
use uhub.Core.Queue.Stream.{IsQueue, NonEmpty}
use uhub.Core.User.{HubUser, user_is_logged_in}
use uhub.Core.User.Kept.{OnLine, copy-OnLine}
use uhub.Core.Route.{Limits, Table, Users, route_to_user, route_to_all, for_each}
use uhub.Core.Route.Delivery.{route_to_user-Delivers}
use uhub.Core.Route.Recipients.{member, Distinct, Answers, for_each-Round}
use uhub.Core.UserManager.{send_infos}
use uhub.Core.Hub.Login.{route_info_message, nat_message, user_is_nat_override}

pub OnLine-NonEmpty : (offset : ℕ) (info : AdcMessage) → OnLine offset info → NonEmpty info.cache
OnLine-NonEmpty offset info (body, l) =
    omega (arith, ap length l.text, length-append body (b'\n' ∷ []))

-- The message with the user's own address in it is there, is not empty, and is not much longer.
pub nat_message-returns :
    (address : Bytes) (info : AdcMessage) (offset : ℕ)
    → OnLine offset info
    → (m : AdcMessage) × (nat_message address info ≡ some m)
      × NonEmpty m.cache
      × (length m.cache ≤ length info.cache + length address + 4)
unfolding nat_message adc_msg_copy adc_msg_grow
nat_message-returns address info offset h =
    let (body, l) = copy-OnLine info offset h in
    let (m, n, e, shorter) = remove-shorter b'I' b'4' (adc_msg_copy info) body offset l in
    let same : length (adc_msg_copy info).cache ≡ length info.cache = ground arith in
    (
      adc_msg_add_named_argument m b'I' b'4' address,
      rw (e, nat_message) refl,
      add_named_argument-positive m b'I' b'4' address,
      omega (arith, shorter, same, length-add_named m b'I' b'4' address),
    )

module _ {C : Type 0} where
  abbrev info_length : Option (HubUser C) → ℕ
  info_length none = 0
  info_length (some u) = elim u.info [ none ↦ 0 | some info ↦ length info.cache ]

  -- The length of the list of users that is sent to a new one.
  abbrev pub listing : Table C → List ℕ → ℕ
  listing table [] = 0
  listing table (s ∷ rest) = info_length (table s) + listing table rest

  -- A user that is on the list: it has information, and its send queue is well formed, with room for
  -- a message of the given length.
  pub record Present (longest : ℕ) (o : Option (HubUser C)) : Type 0 where
    pub user : HubUser C
    pub found : o ≡ some user
    pub info : AdcMessage
    pub informed : user.info ≡ some info
    pub not_empty : NonEmpty info.cache
    pub queue : IsQueue user.send_queue
    pub room : user.send_queue.size + longest < 2 ^ 64

  info_length-Present :
      (longest : ℕ) (o : Option (HubUser C)) (p : Present longest o)
      → info_length o ≡ length p.info.cache
  info_length-Present longest o p = ap info_length p.found ∙ ap length_of p.informed
    where
      length_of : Option AdcMessage → ℕ
      length_of none = 0
      length_of (some info) = length info.cache

module _ {C : Type 0} (net : Transport C) (limits : Limits) where
  send_infos-next :
      (table : Table C) (sid : ℕ) (rest : List ℕ) (target sent u : HubUser C) (con : C)
      (info : AdcMessage)
      → table sid ≡ some u
      → user_is_logged_in u ≡ true
      → target.connection ≡ some con
      → u.info ≡ some info
      → route_to_user net limits target info.cache ≡ some sent
      → send_infos net limits table (sid ∷ rest) target ≡ send_infos net limits table rest sent
  unfolding send_infos
  send_infos-next table sid rest target sent u con info a b c d e = simp (a, b, c, d, e, send_infos)

  send_infos-skip :
      (table : Table C) (sid : ℕ) (rest : List ℕ) (target u : HubUser C)
      → table sid ≡ some u
      → user_is_logged_in u ≡ false
      → send_infos net limits table (sid ∷ rest) target ≡ send_infos net limits table rest target
  unfolding send_infos
  send_infos-skip table sid rest target u a b = simp (a, b, send_infos)

  pub send_infos-ends :
      (longest : ℕ) (table : Table C) (list : List ℕ) (target : HubUser C)
      → ((s : ℕ) → member s list ≡ true → Present longest (table s))
      → IsQueue target.send_queue
      → target.send_queue.size + listing table list < 2 ^ 64
      → (target' : HubUser C) × (all : Bool) × (send_infos net limits table list target
          ≡ some (target', all))
        × IsQueue target'.send_queue
        × (target'.send_queue.size ≤ target.send_queue.size + listing table list)
  unfolding send_infos
  send_infos-ends longest table [] target known q room = (target, true, refl, q, omega arith)
  send_infos-ends longest table (sid ∷ rest) target known q room =
      elim (Bool-cases (user_is_logged_in p.user)) [
        | inr out ↦
            let (t, all, e, kept, low) =
              send_infos-ends longest table rest target later q (omega arith) in
            (
              t,
              all,
              send_infos-skip table sid rest target p.user p.found out ∙ e,
              kept,
              omega arith,
            )
        | inl on ↦ elim (Option-cases target.connection) [
          | inl gone ↦ (target, false, simp (p.found, on, gone, send_infos), q, omega arith)
          | inr (con, here) ↦
              let (sent, done, d) =
                route_to_user-Delivers net limits target p.info.cache q p.not_empty
                  (omega (arith, first)) in
              let grown = d.grows in
              let (t, all, e, kept, low) =
                send_infos-ends longest table rest sent later d.kept
                  (omega (arith, first, grown)) in
              (
                t,
                all,
                send_infos-next table sid rest target sent p.user con p.info p.found on here
                      p.informed done
                    ∙ e,
                kept,
                omega (arith, first, grown, low),
              )
        ]
      ]
    where
      p : Present longest (table sid)
      p = known sid (ground arith)

      first : info_length (table sid) ≡ length p.info.cache
      first = info_length-Present longest (table sid) p

      later : (s : ℕ) → member s rest ≡ true → Present longest (table s)
      later s m = known s (ground (arith, m))

  -- A message of at most the given length reaches every user of a list.
  round_ends :
      (longest : ℕ) (text : HubUser C → Bytes) (list : List ℕ) (table : Table C)
      → ((u : HubUser C) → NonEmpty (text u))
      → ((u : HubUser C) → length (text u) ≤ longest)
      → Distinct list
      → ((s : ℕ) → member s list ≡ true → Present longest (table s))
      → (table' : Table C) × (for_each (λ u. route_to_user net limits u (text u)) list table
          ≡ some table')
  round_ends longest text list table full short dis known =
      let r =
        for_each-Round (λ u u'. Unit) (λ u. route_to_user net limits u (text u)) list table dis
          answers in
      (r.table', r.ends)
    where
      answers :
          (s : ℕ)
          → member s list ≡ true
          → Answers (λ u u'. Unit) (λ u. route_to_user net limits u (text u)) (table s)
      answers s m =
          let p = known s m in
          let (u', done, d) =
            route_to_user-Delivers net limits p.user (text p.user) p.queue (full p.user)
              (omega (arith, p.room, short p.user)) in
          subst (Answers (λ u u'. Unit) (λ u. route_to_user net limits u (text u))) (sym p.found)
            (u', done, tt)

  pub route_info-ends :
      (longest : ℕ) (users : Users C) (u : HubUser C) (info : AdcMessage) (offset : ℕ)
      → u.info ≡ some info
      → OnLine offset info
      → length info.cache + length u.address + 4 ≤ longest
      → Distinct users.list
      → ((s : ℕ) → member s users.list ≡ true → Present longest (users.table s))
      → (table' : Table C) × (route_info_message net limits users u ≡ some table')
  unfolding route_info_message route_to_all
  route_info-ends longest users u info offset is line short dis known =
      elim (Bool-cases (user_is_nat_override u)) [
        | inr g ↦
            let (t, e) =
              round_ends longest (λ v. info.cache) users.list users.table (λ v. full)
                (λ v. omega (arith, short)) dis known in
            (t, rw (is, g, route_info_message) e)
        | inl g ↦
            let (m, h, some_text, long) = nat_message-returns u.address info offset line in
            let (t, e) =
              round_ends longest (λ v. if user_is_nat_override v then m.cache else info.cache)
                users.list users.table
                (λ v. either (λ (b : Bytes). NonEmpty b) (user_is_nat_override v) some_text full)
                (λ v.
                  either (λ (b : Bytes). length b ≤ longest) (user_is_nat_override v)
                    (omega (arith, long, short)) (omega (arith, short)))
                dis known in
            (t, rw (is, g, h, route_info_message) e)
      ]
    where
      full : NonEmpty info.cache
      full = OnLine-NonEmpty offset info line

      either : {a b : Bytes} (P : Bytes → Type 0) (c : Bool) → P a → P b → P (if c then a else b)
      either P true p q = p
      either P false p q = q
