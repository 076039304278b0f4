-- ===== src/Bot/Framework/Guards.antt =====
-- Which handlers an event reaches.
use rocketsocket.Base.{
  String, ◌≡◌, refl, sym, ap, ◌∙◌, ◌↔◌, inl, inr, Option, none, some, List, [], ◌∷◌, ℕ_eq,
  String_eq, Option-cases, Option_eq,
}
use rocketsocket.Bot.Filter.{Filtered, Message, local_verdict}
use rocketsocket.Bot.Roles.{RoleDirectory}
use mathlib.Core.Path.{subst}
use rocketsocket.Bot.Filter.Verdict.{Passes, local_verdict_iff}
use rocketsocket.Bot.Roles.Grants.{Grounds, verdict_iff}
use rocketsocket.Bot.Framework.{
  verdict, dispatch, resubscribed, roles_changed, room_message, my_message, stream, observe,
  ClientEvent, Handler, Framework, World, own_id, message_of, authority_verdict, filtered_message,
  filtered, offer_each,
}

-- The bot's id as a dispatch reads it: it is resolved once.
abbrev pub resolved : Framework → World → Option String
resolved f world = (own_id f world).1

module _ (world : World) (me : Option String) (message : Message) (room : String) where
  -- The handler's filters pass the message, which needs no directory.
  abbrev pub PassesLocally : Handler → Type 0
  PassesLocally h = Passes h.filters message room me

  -- The role that the handler requires is attested.
  abbrev pub HasGrounds : RoleDirectory → Handler → Type 0
  HasGrounds d h =
      Grounds d h.filters.authority message.author room (world.inquiries h).0 (world.inquiries h).1

  -- The directory after the verdict on the handler.
  abbrev pub consulted : RoleDirectory → Handler → RoleDirectory
  consulted d h =
      (verdict d h.filters.authority message.author room (world.inquiries h).0
        (world.inquiries h).1).0

  -- Of the handlers in the first list, those in the second are called, in order: the ones whose
  -- filters pass the message and whose role is attested in the directory as their turn finds it.
  pub data Offered : RoleDirectory → List Handler → List Handler → Type 0 where
    all_offered : {d : RoleDirectory} → Offered d [] []
    calls :
        {d : RoleDirectory} {h : Handler} {rest called : List Handler}
        → PassesLocally h
        → HasGrounds d h
        → Offered (consulted d h) rest called
        → Offered d (h ∷ rest) (h ∷ called)
    refuses :
        {d : RoleDirectory} {h : Handler} {rest called : List Handler}
        → PassesLocally h
        → ¬ HasGrounds d h
        → Offered (consulted d h) rest called
        → Offered d (h ∷ rest) called
    filters_out :
        {d : RoleDirectory} {h : Handler} {rest called : List Handler}
        → ¬ PassesLocally h
        → Offered d rest called
        → Offered d (h ∷ rest) called

resolved_me :
    (f : Framework) (world : World) (me : Option String) → f.me ≡ some me → resolved f world ≡ me
unfolding own_id
resolved_me f world me e = rw (e, own_id) refl

own_id_me : (f : Framework) (world : World) → (own_id f world).0.me ≡ some (resolved f world)
unfolding own_id
own_id_me f world = elim (Option-cases f.me) [
  | inl e ↦ rw (e, own_id) refl
  | inr (me, e) ↦ rw (e, own_id) e
]

authority_verdict_me :
    (f : Framework) (h : Handler) (world : World) (message : Message) (room : String)
    → (authority_verdict f h world message room).0.me ≡ f.me
unfolding authority_verdict
authority_verdict_me f h world message room = refl

-- An id once resolved stays.
resolved-filtered_message :
    (f : Framework) (h : Handler) (world : World) (message : Message) (room : String)
    → resolved (filtered_message f h world message room).0 world ≡ resolved f world
unfolding filtered_message
resolved-filtered_message f h world message room =
    resolved_me (filtered_message f h world message room).0 world (resolved f world)
      (elim (Option-cases (local_verdict h.filters message room (resolved f world))) [
        | inr (reason, e) ↦ rw (e, filtered_message) (own_id_me f world)
        | inl e ↦
            rw (e, filtered_message)
              (authority_verdict_me (own_id f world).0 h world message room ∙ own_id_me f world)
      ])

-- What the id's resolution leaves alone.
own_id_roles : (f : Framework) (world : World) → (own_id f world).0.roles ≡ f.roles
unfolding own_id
own_id_roles f world = elim (Option-cases f.me) [
  | inl e ↦ rw (e, own_id) refl
  | inr (me, e) ↦ rw (e, own_id) refl
]

filtered_on :
    (f : Framework) (h : Handler) (world : World) (event : ClientEvent) (message : Message)
    (room : String)
    → message_of event ≡ some (message, room)
    → filtered f h world event ≡ filtered_message f h world message room
unfolding filtered
filtered_on f h world event message room e = rw (e, filtered) refl

-- The turn of a handler, where its filters pass the message.
module _ (f : Framework) (h : Handler) (world : World) (message : Message) (room : String)
    (passes : local_verdict h.filters message room (resolved f world) ≡ none) where
  asks_roles :
      filtered_message f h world message room
      ≡ authority_verdict (own_id f world).0 h world message room
  unfolding filtered_message
  asks_roles = rw (passes, filtered_message) refl

  asked_iff :
      ((filtered_message f h world message room).1 ≡ none)
      ↔ HasGrounds world (resolved f world) message room f.roles h
  unfolding authority_verdict
  asked_iff =
      rw (asks_roles, own_id_roles)
        (verdict_iff f.roles h.filters.authority message.author room (world.inquiries h).0
          (world.inquiries h).1)

  asked_roles :
      (filtered_message f h world message room).0.roles
      ≡ consulted world (resolved f world) message room f.roles h
  unfolding authority_verdict
  asked_roles = rw (asks_roles, own_id_roles) refl

-- A message changes nothing before it is offered.
observe_message :
    (f : Framework) (event : ClientEvent) (message : Message) (room : String)
    → message_of event ≡ some (message, room)
    → observe f event ≡ f
unfolding observe message_of
observe_message f (stream (my_message message rid)) m room e = refl
observe_message f (stream (room_message message r)) m room e = refl
observe_message f (stream (roles_changed change)) m room e = cc
observe_message f (stream rocketsocket.Bot.Framework.other) m room e = cc
observe_message f (resubscribed epoch restored) m room e = cc
observe_message f rocketsocket.Bot.Framework.connection m room e = cc

-- The turn of a handler whose filters reject the message.
turned_away :
    (f : Framework) (h : Handler) (world : World) (message : Message) (room : String)
    (reason : Filtered)
    → local_verdict h.filters message room (resolved f world) ≡ some reason
    → ((filtered_message f h world message room).0.roles ≡ f.roles)
      × ((filtered_message f h world message room).1 ≡ some reason)
unfolding filtered_message
turned_away f h world message room reason e =
    (rw (e, filtered_message) (own_id_roles f world), rw (e, filtered_message) refl)

offer_each-Offered :
    (f : Framework) (handlers : List Handler) (world : World) (event : ClientEvent)
    (message : Message) (room : String)
    → message_of event ≡ some (message, room)
    → Offered world
        (resolved f world)
        message
        room
        f.roles
        handlers
        (offer_each f handlers world event).1
unfolding offer_each
offer_each-Offered f [] world event message room e = all_offered
offer_each-Offered f (h ∷ rest) world event message room e =
    let f' = (filtered f h world event).0 in
    let out = (offer_each f' rest world event).1 in
    let me = resolved f world in
    let same = filtered_on f h world event message room e in
    let kept : resolved f' world ≡ me =
      ap (λ (p : Framework × Option Filtered). resolved p.0 world) same
      ∙ resolved-filtered_message f h world message room in
    let later : Offered world me message room f'.roles rest out =
      subst (λ me. Offered world me message room f'.roles rest out) kept
        (offer_each-Offered f' rest world event message room e) in
    let roles_at = ap (λ (p : Framework × Option Filtered). p.0.roles) same in
    let reason_at = ap (λ (p : Framework × Option Filtered). p.1) same in
    elim (Option-cases (local_verdict h.filters message room me)) [
      | inr (reason, rejects) ↦
          let (as_before, rejected) = turned_away f h world message room reason rejects in
          let later' =
            subst (λ d. Offered world me message room d rest out) (roles_at ∙ as_before) later in
          rw (reason_at ∙ rejected) (
            filters_out
              (λ passes. let open_to = (local_verdict_iff h.filters message room me).1 passes in cc)
              later')
      | inl passes ↦
          let later' =
            subst (λ d. Offered world me message room d rest out)
              (roles_at ∙ asked_roles f h world message room passes) later in
          let locally = (local_verdict_iff h.filters message room me).0 passes in
          let (attests, admits) = asked_iff f h world message room passes in
          elim (Option-cases (filtered f h world event).1) [
            | inl admitted ↦ rw admitted (calls locally (attests (sym reason_at ∙ admitted)) later')
            | inr (reason, refused) ↦ rw refused (
                refuses locally (λ grounds. let admitted = reason_at ∙ admits grounds in cc) later')
          ]
    ]

-- A message is offered to the handlers in order, and exactly those are called whose filters pass
-- it, for the bot's own id as it is resolved at the first message, and whose role is attested in the
-- directory as their turn finds it. Where no id is resolved, the filter of own messages passes all.
pub dispatch-Offered :
    (f : Framework) (world : World) (event : ClientEvent) (message : Message) (room : String)
    → message_of event ≡ some (message, room)
    → Offered world (resolved f world) message room f.roles f.handlers (dispatch f world event).1
unfolding dispatch
dispatch-Offered f world event message room e =
    rw (observe_message f event message room e)
      (offer_each-Offered f f.handlers world event message room e)
