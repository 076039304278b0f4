-- ===== src/Bot/Roles/Grants.antt =====
-- What a grant rests on.
use rocketsocket.Base.{
  ◌≢◌, ◌≤◌, ℕ, ◌-◌, ◌<◌, String, ◌≡◌, refl, sym, ap, ◌∙◌, ◌↔◌, ◌⊎◌, inl, inr, Bool, true, false,
  ◌&&◌, ◌||◌, none, some, List, [], ◌∷◌, arith, ◌==◌, ℕ_eq, String_eq, Bool-cases, Option-cases,
  is_some_and, ok, err, elem, Option_eq,
}
use mathlib.Core.Option.{some-injective}
use mathlib.Core.Path.{subst}
use rocketsocket.Map.{Map, get}
use rocketsocket.Bot.Filter.{Authority, anyone, admin, room_admin, admin_or_room_admin}
use rocketsocket.Bot.Roles.{
  RoleCacheConfig, RoleDirectory, Entry, Slot, empty_slot, Lookup, Answer, Holder, Inquiry,
  is_fresh, grants, holds, holders_of, wanted_roles, learned, cached, store_answer, entry,
  room_slot, is_admin, is_room_admin, granted, verdict,
}

-- The server lists the user with a wanted role.
abbrev pub lists : List String → List Holder → String → Bool
lists wanted [] user = false
lists wanted (h ∷ rest) user = (h.id == user && holds h.roles wanted) || lists wanted rest user

elem-holders_of :
    (wanted : List String) (listed : List Holder) (user : String)
    → elem (holders_of wanted listed) user ≡ lists wanted listed user
unfolding holders_of elem
elem-holders_of wanted [] user = refl
elem-holders_of wanted (h ∷ rest) user = ground (arith, elem-holders_of wanted rest user)

-- The slot has no entry, or one that is as old as its time to live: `ttl` if it has an answer, and
-- `failure_ttl` if it has none.
abbrev pub HasNoFresh : Map Slot Entry → RoleCacheConfig → Slot → ℕ → Type 0
HasNoFresh slots config slot now =
    (e : Entry)
    → get slots slot ≡ some e
    → ((e.holders ≢ none) × (config.ttl ≤ now - e.fetched_at))
      ⊎ ((e.holders ≡ none) × (config.failure_ttl ≤ now - e.fetched_at))

-- An answer that is remembered, younger than its time to live, names the user; or, where none is
-- remembered that is fresh, the server's answer lists the user with a role that the lookup wants.
abbrev pub AttestedBy : Map Slot Entry → RoleCacheConfig → Slot → Lookup → String → Inquiry → Type 0
AttestedBy slots config slot lookup user q =
    ((e : Entry) × (hs : List String) × (get slots slot ≡ some e)
      × (e.holders ≡ some hs)
      × (q.started - e.fetched_at < config.ttl)
      × (elem hs user ≡ true))
    ⊎ ((listed : List Holder) × HasNoFresh slots config slot q.started
        × (q.answer ≡ some (ok listed))
        × (lists (wanted_roles lookup) listed user ≡ true))

abbrev pub Attested : RoleDirectory → Slot → Lookup → String → Inquiry → Type 0
Attested d = AttestedBy d.slots d.config

-- What `cached` finds to be fresh is.
fresh_iff :
    (e : Entry) (config : RoleCacheConfig) (now : ℕ)
    → (is_fresh e config now ≡ false) ↔ (
        ((e.holders ≢ none) × (config.ttl ≤ now - e.fetched_at))
        ⊎ ((e.holders ≡ none) × (config.failure_ttl ≤ now - e.fetched_at)))
unfolding is_fresh
fresh_iff e config now = elim (Option-cases e.holders) [
  | inl unknown ↦ rw unknown (
    λ h. inr (refl, ground (arith, h)),
    λ h. elim h [ inl (known, old) ↦ absurd (known refl) | inr (u, old) ↦ ground arith ],
  )
  | inr (hs, known) ↦ rw known (
    λ h. inl (λ clash. cc, ground (arith, h)),
    λ h. elim h [ inl (k, old) ↦ ground arith | inr (clash, old) ↦ absurd (cc) ],
  )
]

none_fresh :
    (d : RoleDirectory) (slot : Slot) (now : ℕ)
    → (cached d slot now ≡ none) ↔ HasNoFresh d.slots d.config slot now
unfolding cached
none_fresh d slot now = elim (Option-cases (get d.slots slot)) [
  | inl absent ↦ (λ h e found. absurd (cc), λ h. rw (absent, cached) refl)
  | inr (e, found) ↦ elim (Bool-cases (is_fresh e d.config now)) [
    | inl fresh ↦ (
      λ h. let clash = rw (found, fresh, cached) at h in absurd (cc),
      λ h. let stale = (fresh_iff e d.config now).1 (h e found) in absurd (cc),
    )
    | inr stale ↦ (
      λ h e' found'.
          let same : e ≡ e' = some-injective e e' (sym found ∙ found') in
          (fresh_iff e' d.config now).0 (ap (λ x. is_fresh x d.config now) (sym same) ∙ stale),
      λ h. rw (found, stale, cached) refl,
    )
  ]
]

learned-lists :
    (lookup : Lookup) (user : String) (answer : Answer)
    → is_some_and (learned lookup answer) (λ hs. elem hs user) ≡ true
    → (listed : List Holder) × (answer ≡ some (ok listed))
      × (lists (wanted_roles lookup) listed user ≡ true)
unfolding learned
learned-lists lookup user none h = cc
learned-lists lookup user (some (err error)) h = cc
learned-lists lookup user (some (ok listed)) h =
    (listed, refl, sym (elem-holders_of (wanted_roles lookup) listed user) ∙ h)

-- A fresh entry that grants names the user, and is younger than its time to live.
pub fresh_grants :
    (e : Entry) (config : RoleCacheConfig) (started : ℕ) (user : String)
    → is_fresh e config started ≡ true
    → grants e user ≡ true
    → (hs : List String) × (e.holders ≡ some hs)
      × (started - e.fetched_at < config.ttl)
      × (elem hs user ≡ true)
unfolding is_fresh grants
fresh_grants e config started user fresh h = elim (Option-cases e.holders) [
  | inl unknown ↦ ground (arith, unknown, h)
  | inr (hs, known) ↦ (hs, known, ground (arith, known, fresh), ground (arith, known, h))
]

pub cached_grants :
    (d : RoleDirectory) (slot : Slot) (started : ℕ) (e : Entry)
    → cached d slot started ≡ some e
    → (get d.slots slot ≡ some e) × (is_fresh e d.config started ≡ true)
unfolding cached
cached_grants d slot started e c = elim (Option-cases (get d.slots slot)) [
  | inl absent ↦ let c' = rw absent at c in cc
  | inr (e', found) ↦ elim (Bool-cases (is_fresh e' d.config started)) [
    | inr stale ↦ let c' = rw (found, stale, cached) at c in cc
    | inl fresh ↦
        let same : e' ≡ e = some-injective e' e (rw (found, fresh, cached) at c) in
        (found ∙ ap some same, ap (λ x. is_fresh x d.config started) (sym same) ∙ fresh)
  ]
]

-- A lookup grants only what is attested.
entry_attests :
    (d : RoleDirectory) (slot : Slot) (lookup : Lookup) (user : String) (q : Inquiry)
    → grants (entry d slot lookup q.started q.answer).1 user ≡ true
    → Attested d slot lookup user q
unfolding entry store_answer grants
entry_attests d slot lookup user q h = elim (Option-cases (cached d slot q.started)) [
  | inr (e, c) ↦
      let (found, fresh) = cached_grants d slot q.started e c in
      let (hs, known, young, named) =
        fresh_grants e d.config q.started user fresh (rw (c, entry) at h) in
      inl (e, hs, found, known, young, named)
  | inl c ↦
      let (listed, answered, named) = learned-lists lookup user q.answer (rw (c, entry) at h) in
      inr (listed, (none_fresh d slot q.started).0 c, answered, named)
]

fresh_cached :
    (d : RoleDirectory) (slot : Slot) (started : ℕ) (e : Entry)
    → get d.slots slot ≡ some e
    → is_fresh e d.config started ≡ true
    → cached d slot started ≡ some e
unfolding cached
fresh_cached d slot started e found fresh = rw (found, fresh) refl

-- And it grants what is attested.
grants-Attested :
    (d : RoleDirectory) (slot : Slot) (lookup : Lookup) (user : String) (q : Inquiry)
    → Attested d slot lookup user q
    → grants (entry d slot lookup q.started q.answer).1 user ≡ true
unfolding entry is_fresh grants store_answer learned
grants-Attested d slot lookup user q (inl (e, hs, found, known, young, named)) =
    let fresh : is_fresh e d.config q.started ≡ true = ground (arith, known, young) in
    rw (fresh_cached d slot q.started e found fresh, entry) (rw known named)
grants-Attested d slot lookup user q (inr (listed, no_fresh, answered, named)) =
    let c = (none_fresh d slot q.started).1 no_fresh in
    rw (c, entry) (rw answered (elem-holders_of (wanted_roles lookup) listed user ∙ named))

-- The slot of a room: its own if the room is remembered, and otherwise the next to be made.
abbrev pub slot_of : RoleDirectory → String → Slot
slot_of d id = elim (get d.rooms id) [ some existing ↦ existing.slot | none ↦ d.next ]

abbrev pub RoomAttested : RoleDirectory → String → String → Inquiry → Type 0
RoomAttested d id user q = Attested d (slot_of d id) (Lookup.room id) user q

-- `room_slot` gives this slot, and leaves the entries alone.
room_slot_of :
    (d : RoleDirectory) (id : String) (now : ℕ)
    → ((room_slot d id now).1 ≡ slot_of d id)
      × ((room_slot d id now).0.slots ≡ d.slots)
      × ((room_slot d id now).0.config ≡ d.config)
unfolding room_slot empty_slot
room_slot_of d id now = elim (Option-cases (get d.rooms id)) [
  | inl e ↦ rw (e, room_slot, slot_of) (refl, refl, refl)
  | inr (existing, e) ↦ rw (e, room_slot, slot_of) (refl, refl, refl)
]

-- What lets an author pass.
abbrev pub Grounds : RoleDirectory → Authority → String → String → Inquiry → Inquiry → Type 0
Grounds d anyone author id q q' = Unit
Grounds d admin author id q q' = Attested d d.global Lookup.global author q
Grounds d room_admin author id q q' = RoomAttested d id author q'
Grounds d admin_or_room_admin author id q q' =
    Attested d d.global Lookup.global author q ⊎ RoomAttested (is_admin d author q).0 id author q'

is_admin_iff :
    (d : RoleDirectory) (user : String) (q : Inquiry)
    → ((is_admin d user q).1 ≡ true) ↔ Attested d d.global Lookup.global user q
unfolding is_admin
is_admin_iff d user q =
    (entry_attests d d.global Lookup.global user q, grants-Attested d d.global Lookup.global user q)

attested_as :
    {slots slots' : Map Slot Entry} {config config' : RoleCacheConfig} {slot slot' : Slot}
    (lookup : Lookup) (user : String) (q : Inquiry)
    → slots ≡ slots'
    → config ≡ config'
    → slot ≡ slot'
    → AttestedBy slots config slot lookup user q
    → AttestedBy slots' config' slot' lookup user q
attested_as {slots' = slots'} {config = config} {config' = config'} {slot = slot} lookup user q e e'
      e'' h =
    subst (λ s. AttestedBy slots' config' s lookup user q) e''
      (subst (λ c. AttestedBy slots' c slot lookup user q) e'
        (subst (λ m. AttestedBy m config slot lookup user q) e h))

is_room_admin_iff :
    (d : RoleDirectory) (user id : String) (q : Inquiry)
    → ((is_room_admin d user id q).1 ≡ true) ↔ RoomAttested d id user q
unfolding is_room_admin
is_room_admin_iff d user id q =
    let d' = (room_slot d id q.asked).0 in
    let slot = (room_slot d id q.asked).1 in
    let (slot_is, slots, config) = room_slot_of d id q.asked in
    (
      λ h.
          attested_as (Lookup.room id) user q slots config slot_is
            (entry_attests d' slot (Lookup.room id) user q h),
      λ h.
          grants-Attested d' slot (Lookup.room id) user q
            (attested_as (Lookup.room id) user q (sym slots) (sym config) (sym slot_is) h),
    )

granted_iff :
    (d : RoleDirectory) (required : Authority) (author id : String) (q q' : Inquiry)
    → ((granted d required author id q q').1 ≡ true) ↔ Grounds d required author id q q'
unfolding granted
granted_iff d anyone author id q q' = (λ h. tt, λ h. refl)
granted_iff d admin author id q q' = is_admin_iff d author q
granted_iff d room_admin author id q q' = is_room_admin_iff d author id q'
granted_iff d admin_or_room_admin author id q q' = elim (Bool-cases (is_admin d author q).1) [
  | inl global ↦ rw (global, granted) (λ h. inl ((is_admin_iff d author q).0 global), λ h. refl)
  | inr other ↦
      let (attests, grants) = is_room_admin_iff (is_admin d author q).0 author id q' in
      rw (other, granted)
        (
          λ h. inr (attests h),
          λ h. elim h [
            | inl g ↦ let yes_global = (is_admin_iff d author q).1 g in cc
            | inr l ↦ grants l
          ],
        )
]

-- The author of an event passes a handler's role filter exactly where the slots that the handler's
-- role is about attest it: by an entry that is younger than `ttl`, or by what the server answers
-- now, if there is no fresh entry.
pub verdict_iff :
    (d : RoleDirectory) (required : Authority) (author id : String) (q q' : Inquiry)
    → ((verdict d required author id q q').1 ≡ none) ↔ Grounds d required author id q q'
unfolding verdict
verdict_iff d required author id q q' =
    let (attests, grants) = granted_iff d required author id q q' in
    elim (Bool-cases (granted d required author id q q').1) [
      | inl passes ↦ rw passes (λ h. attests passes, λ h. refl)
      | inr fails ↦ rw fails (λ h. cc, λ h. let passes = grants h in cc)
    ]
