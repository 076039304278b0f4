-- ===== src/Bot/Filter/Verdict.antt =====
-- When an event passes the filters that need no server.
use rocketsocket.Base.{
  String, ◌≡◌, refl, sym, ap, ◌≢◌, ◌↔◌, inl, inr, Bool, true, false, not, ◌&&◌, Option, none, some,
  List, arith, if◌then◌else◌, ◌==◌, ℕ_eq, String_eq, Bool-cases, is_some, is_some_and, elem,
  Option_eq,
}
use mathlib.Core.Option.{some-injective}
use text.Mathlib.Text.{starts_with}
use rocketsocket.Bot.Filter.{
  Filters, Filtered, Message, local_verdict, is_own, lacks_prefix, is_elsewhere, lacks_mention,
}

-- What a message must be to reach a handler.
pub record Passes (f : Filters) (m : Message) (room_id : String) (me : Option String) : Type 0 where
  pub foreign : me ≡ some m.author → f.allow_self ≡ true
  pub ordinary : m.t ≢ none → f.allow_system ≡ true
  pub fresh : m.edited_at ≢ none → f.allow_edits ≡ true
  pub prefixed : (p : String) → f.prefix ≡ some p → starts_with m.msg p ≡ true
  pub here : (wanted : String) → f.room ≡ some wanted → room_id ≡ wanted
  pub addressed :
      f.mentions_me ≡ true
      → (id : String) × (ids : List String) × (me ≡ some id)
        × (m.mentions ≡ some ids)
        × (elem ids id ≡ true)

reject_iff :
    (c : Bool) (x : Filtered) (rest : Option Filtered)
    → ((if c then some x else rest) ≡ none) ↔ ((c ≡ false) × (rest ≡ none))
reject_iff true x rest = ((λ h. ground arith), (λ h. ground arith))
reject_iff false x rest = ((λ h. (refl, h)), (λ h. h.1))

is_own_iff :
    (f : Filters) (m : Message) (me : Option String)
    → (is_own f m me ≡ false) ↔ (me ≡ some m.author → f.allow_self ≡ true)
unfolding is_own
is_own_iff f m none = ((λ h e. ground arith), (λ h. ground arith))
is_own_iff f m (some id) = (
  (λ h e. ground (arith, String_eq.eq_iff m.author id)),
  (λ h. elim (Bool-cases (m.author == id)) [
    | inl same ↦ rw (h (ap some (sym ((String_eq.eq_iff m.author id).0 same)))) refl
    | inr other ↦ ground arith
  ]),
)

gate_iff :
    {A : Type 0} (allowed : Bool) (o : Option A)
    → ((not allowed && is_some o) ≡ false) ↔ (o ≢ none → allowed ≡ true)
gate_iff allowed none = ((λ h e. absurd (e refl)), (λ h. ground arith))
gate_iff allowed (some a) = ((λ h e. ground arith), (λ h. rw (h (λ e. cc)) refl))

lacks_prefix_iff :
    (f : Filters) (m : Message)
    → (lacks_prefix f m ≡ false) ↔ ((p : String) → f.prefix ≡ some p → starts_with m.msg p ≡ true)
unfolding lacks_prefix
lacks_prefix_iff f m = go f.prefix
  where
    go :
        (o : Option String)
        → (is_some_and o (λ p. not (starts_with m.msg p)) ≡ false)
          ↔ ((p : String) → o ≡ some p → starts_with m.msg p ≡ true)
    go none = ((λ h p e. ground arith), (λ h. refl))
    go (some q) = ((λ h p e. ground arith), (λ h. ground (arith, h q refl)))

is_elsewhere_iff :
    (f : Filters) (room_id : String)
    → (is_elsewhere f room_id ≡ false)
      ↔ ((wanted : String) → f.room ≡ some wanted → room_id ≡ wanted)
unfolding is_elsewhere
is_elsewhere_iff f room_id = go f.room
  where
    go :
        (o : Option String)
        → (is_some_and o (λ w. not (room_id == w)) ≡ false)
          ↔ ((w : String) → o ≡ some w → room_id ≡ w)
    go none = ((λ h p e. ground arith), (λ h. refl))
    go (some q) = (
      (λ h p e. ground (arith, String_eq.eq_iff room_id q)),
      (λ h. ground (arith, h q refl, String_eq.eq_iff room_id q)),
    )

mentioned_lem :
    (ids js : List String) (id i : String)
    → some ids ≡ some js
    → some id ≡ some i
    → elem js i ≡ true
    → not (elem ids id) ≡ false
mentioned_lem ids js id i e f h = rw (some-injective ids js e, some-injective id i f, h) refl

lacks_mention_iff :
    (f : Filters) (m : Message) (me : Option String)
    → (lacks_mention f m me ≡ false) ↔ (
        f.mentions_me ≡ true
        → (id : String) × (ids : List String) × (me ≡ some id)
          × (m.mentions ≡ some ids)
          × (elem ids id ≡ true))
unfolding lacks_mention
lacks_mention_iff f m me = go f.mentions_me me m.mentions
  where
    go :
        (asked : Bool) (o : Option String) (l : Option (List String))
        → ((asked && not (is_some_and o (λ id. is_some_and l (λ mentions. elem mentions id))))
            ≡ false)
          ↔ (asked ≡ true
              → (id : String) × (ids : List String) × (o ≡ some id)
                × (l ≡ some ids)
                × (elem ids id ≡ true))
    go false o l = ((λ h e. absurd (ground arith)), (λ h. refl))
    go true none l = (
      (λ h e. absurd (ground arith)),
      (λ h. let (id, ids, no_id, _, _) = h refl in absurd (ground arith)),
    )
    go true (some id) none = (
      (λ h e. absurd (ground arith)),
      (λ h. let (id, ids, _, no_ids, _) = h refl in absurd (ground arith)),
    )
    go true (some id) (some ids) = (
      (λ h e. (id, ids, refl, refl, ground arith)),
      (λ h.
          let (i, js, same_id, same_ids, found) = h refl in
          mentioned_lem ids js id i same_ids same_id found),
    )

-- The local filters pass an event exactly when the message satisfies every one of them: it is not
-- the bot's own, not a system message and not an edit, unless those are allowed; it starts with
-- the prefix and stands in the room, where one is asked for; and, where that is asked for, it
-- mentions the bot by its id.
pub local_verdict_iff :
    (f : Filters) (m : Message) (room_id : String) (me : Option String)
    → (local_verdict f m room_id me ≡ none) ↔ Passes f m room_id me
unfolding local_verdict
local_verdict_iff f m room_id me = (
  (λ h.
      let (own, h1) = (reject_iff _ _ _).0 h in
      let (system, h2) = (reject_iff _ _ _).0 h1 in
      let (edited, h3) = (reject_iff _ _ _).0 h2 in
      let (unprefixed, h4) = (reject_iff _ _ _).0 h3 in
      let (elsewhere, h5) = (reject_iff _ _ _).0 h4 in
      let (unmentioned, _) = (reject_iff _ _ _).0 h5 in
      record {
        foreign = (is_own_iff f m me).0 own;
        ordinary = (gate_iff f.allow_system m.t).0 system;
        fresh = (gate_iff f.allow_edits m.edited_at).0 edited;
        prefixed = (lacks_prefix_iff f m).0 unprefixed;
        here = (is_elsewhere_iff f room_id).0 elsewhere;
        addressed = (lacks_mention_iff f m me).0 unmentioned;
      }),
  (λ p.
      rw
        (
          (is_own_iff f m me).1 p.foreign,
          (gate_iff f.allow_system m.t).1 p.ordinary,
          (gate_iff f.allow_edits m.edited_at).1 p.fresh,
          (lacks_prefix_iff f m).1 p.prefixed,
          (is_elsewhere_iff f room_id).1 p.here,
          (lacks_mention_iff f m me).1 p.addressed,
        )
        refl),
)
