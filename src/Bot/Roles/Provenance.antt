-- ===== src/Bot/Roles/Provenance.antt =====
-- What a role rests on: an answer of the server to a lookup of that role.
use mathlib.Core.Path.{subst}
use mathlib.Core.Option.{some-injective}
use rocketsocket.Base.{
  ℕ, ◌-◌, ◌<◌, String, ◌≡◌, refl, sym, ap, ◌∙◌, ◌⊎◌, inl, inr, Bool, true, false, none, some, List,
  [], ◌∷◌, arith, if◌then◌else◌, ◌==◌, ℕ_eq, String_eq, Bool-cases, Option-cases, ok, err, elem,
  Option_eq,
}
use rocketsocket.Map.{get}
use rocketsocket.Map.Entries.{All-get}
use rocketsocket.Bot.Filter.{Filtered, Authority, anyone, admin, room_admin, admin_or_room_admin}
use rocketsocket.Bot.Roles.{
  empty_slot, RoleCacheConfig, RoleDirectory, Slot, Lookup, Answer, Holder, Inquiry, grants, holds,
  holders_of, wanted_roles, learned, cached, store_answer, entry, room_slot, is_admin,
  is_room_admin, granted, verdict,
}
use rocketsocket.Bot.Roles.History.{Told, Course, Reach, start, In, first, later}
use rocketsocket.Bot.Roles.Soundness.{
  Serves, Sound, room_slot-Given, store_answer-Sound, Reach-SoundCourse,
}
use rocketsocket.Bot.Roles.Grants.{cached_grants, fresh_grants}

-- The roles that a lookup is about.
abbrev pub IsWanted : Lookup → String → Type 0
IsWanted Lookup.global role = role ≡ "admin"
IsWanted (Lookup.room id) role = (role ≡ "owner") ⊎ ((role ≡ "moderator") ⊎ (role ≡ "leader"))

-- The server lists the user with a role that the lookup is about.
pub record Lists (lookup : Lookup) (listed : List Holder) (user : String) : Type 0 where
  pub holder : Holder
  pub is_listed : In holder listed
  pub is_user : holder.id ≡ user
  pub role : String
  pub is_held : In role holder.roles
  pub is_wanted : IsWanted lookup role

-- The server lists the user in an answer to the lookup, either in one before that is younger than
-- `ttl`, or in the one that it gives now.
abbrev pub Proven : ℕ → List Told → Lookup → String → Inquiry → Type 0
Proven ttl log lookup user q =
    ((t : Told) × (listed : List Holder) × In t log
      × (t.lookup ≡ lookup)
      × (q.started - t.started < ttl)
      × (t.answer ≡ some (ok listed))
      × Lists lookup listed user)
    ⊎ ((listed : List Holder) × (q.answer ≡ some (ok listed)) × Lists lookup listed user)

wanted_roles-IsWanted :
    (lookup : Lookup) (role : String)
    → elem (wanted_roles lookup) role ≡ true
    → IsWanted lookup role
unfolding wanted_roles elem
wanted_roles-IsWanted Lookup.global role h = ground (arith, String_eq.eq_iff "admin" role)
wanted_roles-IsWanted (Lookup.room id) role h = elim (Bool-cases ("owner" == role)) [
  | inl same ↦ inl (sym ((String_eq.eq_iff "owner" role).0 same))
  | inr other ↦ elim (Bool-cases ("moderator" == role)) [
    | inl same ↦ inr (inl (sym ((String_eq.eq_iff "moderator" role).0 same)))
    | inr neither ↦ inr (inr (ground (arith, other, neither, h, String_eq.eq_iff "leader" role)))
  ]
]

holds-In :
    (lookup : Lookup) (held : List String)
    → holds held (wanted_roles lookup) ≡ true
    → (role : String) × In role held × IsWanted lookup role
unfolding holds
holds-In lookup [] h = absurd (cc)
holds-In lookup (role ∷ held) h = elim (Bool-cases (elem (wanted_roles lookup) role)) [
  | inl wanted ↦ (role, first, wanted_roles-IsWanted lookup role wanted)
  | inr other ↦
      let (found, is_held, is_wanted) = holds-In lookup held (rw other at h) in
      (found, later is_held, is_wanted)
]

holders_of-Lists :
    (lookup : Lookup) (listed : List Holder) (user : String)
    → elem (holders_of (wanted_roles lookup) listed) user ≡ true
    → Lists lookup listed user
unfolding holders_of elem
holders_of-Lists lookup [] user h = absurd (cc)
holders_of-Lists lookup (holder ∷ rest) user h =
    elim (Bool-cases (holds holder.roles (wanted_roles lookup))) [
      | inr none_held ↦
          let l = holders_of-Lists lookup rest user (rw none_held at h) in
          record {
            holder = l.holder;
            is_listed = later l.is_listed;
            is_user = l.is_user;
            role = l.role;
            is_held = l.is_held;
            is_wanted = l.is_wanted;
          }
      | inl held ↦ elim (Bool-cases (holder.id == user)) [
        | inl same ↦
            let (role, is_held, is_wanted) = holds-In lookup holder.roles held in
            record {
              holder = holder;
              is_listed = first;
              is_user = (String_eq.eq_iff holder.id user).0 same;
              role = role;
              is_held = is_held;
              is_wanted = is_wanted;
            }
        | inr other ↦
            let l = holders_of-Lists lookup rest user (rw (held, other) at h) in
            record {
              holder = l.holder;
              is_listed = later l.is_listed;
              is_user = l.is_user;
              role = l.role;
              is_held = l.is_held;
              is_wanted = l.is_wanted;
            }
      ]
    ]

-- What the entry of an answer names.
learned-Lists :
    (lookup : Lookup) (answer : Answer) (holders : List String) (user : String)
    → learned lookup answer ≡ some holders
    → elem holders user ≡ true
    → (listed : List Holder) × (answer ≡ some (ok listed)) × Lists lookup listed user
unfolding learned
learned-Lists lookup none holders user h named = absurd (cc)
learned-Lists lookup (some (err e)) holders user h named = absurd (cc)
learned-Lists lookup (some (ok listed)) holders user h named = (
  listed,
  refl,
  holders_of-Lists lookup listed user
      (ap (λ hs. elem hs user) (some-injective _ holders h) ∙ named),
)

-- A lookup of a room is not the first of a log that begins with one of the workspace.
not_global :
    {log : List Told} (u : Told) (id : String) (t : Told)
    → In u (t ∷ log)
    → u.lookup ≡ Lookup.room id
    → t.lookup ≡ Lookup.global
    → In u log
not_global u id t first same other = absurd (cc)
not_global u id t (later m) same other = m

passed : (b : Bool) → (if b then none else some Filtered.authority) ≡ none → b ≡ true
passed true h = refl
passed false h = absurd (cc)

module _ (owner : Slot → Lookup) (d : RoleDirectory) (log : List Told) (s : Sound owner d log) where
  -- A lookup in a slot that was made for it.
  entry-Proven :
      (slot : Slot) (lookup : Lookup) (user : String) (q : Inquiry)
      → Serves owner d.next slot lookup
      → grants (entry d slot lookup q.started q.answer).1 user ≡ true
      → Proven d.config.ttl log lookup user q
  unfolding entry store_answer grants
  entry-Proven slot lookup user q serves h = elim (Option-cases (cached d slot q.started)) [
    | inr (e, c) ↦
        let (found, fresh) = cached_grants d slot q.started e c in
        let (holders, known, young, named) =
          fresh_grants e d.config q.started user fresh (rw (c, entry) at h) in
        let (t, told, made, is) = All-get _ d.slots slot e s.contents found in
        let same : t.lookup ≡ lookup = sym made.1 ∙ serves.1 in
        let (listed, answered, lists) =
          learned-Lists t.lookup t.answer holders user (ap (λ x. x.holders) (sym is) ∙ known)
            named in
        inl (
          t,
          listed,
          told,
          same,
          subst (λ x. q.started - x.fetched_at < d.config.ttl) is young,
          answered,
          subst (λ l. Lists l listed user) same lists,
        )
    | inl c ↦
        let granted_now = rw (c, entry) at h in
        elim (Option-cases (learned lookup q.answer)) [
          | inl unknown ↦ let clash = rw unknown at granted_now in absurd (cc)
          | inr (holders, known) ↦
              inr (learned-Lists lookup q.answer holders user known (rw known at granted_now))
        ]
  ]

  -- The lookup of the administrators leaves the directory sound, and it logs nothing of a room.
  record AfterAdmin (user : String) (q : Inquiry) : Type 0 where
    log_after : List Told
    sound : Sound owner (is_admin d user q).0 log_after
    config_is : (is_admin d user q).0.config ≡ d.config
    of_rooms : (t : Told) (id : String) → In t log_after → t.lookup ≡ Lookup.room id → In t log

  is_admin-AfterAdmin : (user : String) (q : Inquiry) → AfterAdmin user q
  unfolding is_admin entry store_answer
  is_admin-AfterAdmin user q = elim (Option-cases (cached d d.global q.started)) [
    | inr (e, c) ↦ record {
      log_after = log;
      sound = rw (c, is_admin, entry) s;
      config_is = rw (c, is_admin, entry) refl;
      of_rooms = λ t id m same. m;
    }
    | inl c ↦
        let t : Told = record { lookup = Lookup.global; started = q.started; answer = q.answer } in
        record {
          log_after = t ∷ log;
          sound = rw (c, is_admin, entry) (store_answer-Sound owner d log d.global t s.global_is s);
          config_is = rw (c, is_admin, entry) refl;
          of_rooms = λ u id m same. not_global u id t m same refl;
        }
  ]

  is_admin-Proven :
      (user : String) (q : Inquiry)
      → (is_admin d user q).1 ≡ true
      → Proven d.config.ttl log Lookup.global user q
  unfolding is_admin
  is_admin-Proven user q h = entry-Proven d.global Lookup.global user q s.global_is h

pub room_slot-config :
    (d : RoleDirectory) (id : String) (now : ℕ) → (room_slot d id now).0.config ≡ d.config
unfolding room_slot empty_slot
room_slot-config d id now = elim (Option-cases (get d.rooms id)) [
  | inl e ↦ rw (e, room_slot) refl
  | inr (existing, e) ↦ rw (e, room_slot) refl
]

is_room_admin-Proven :
    (owner : Slot → Lookup) (d : RoleDirectory) (log : List Told)
    → Sound owner d log
    → (user id : String) (q : Inquiry) → (is_room_admin d user id q).1 ≡ true
    → Proven d.config.ttl log (Lookup.room id) user q
unfolding is_room_admin
is_room_admin-Proven owner d log s user id q h =
    let g = room_slot-Given owner d log id q.asked s in
    subst (λ (c : RoleCacheConfig). Proven c.ttl log (Lookup.room id) user q)
      (room_slot-config d id q.asked)
      (entry-Proven g.owner_after (room_slot d id q.asked).0 log g.sound (room_slot d id q.asked).1
        (Lookup.room id) user q g.serves h)

-- What lets an author pass.
abbrev pub Entitled : ℕ → List Told → Authority → String → String → Inquiry → Inquiry → Type 0
Entitled ttl log anyone author id q q' = Unit
Entitled ttl log admin author id q q' = Proven ttl log Lookup.global author q
Entitled ttl log room_admin author id q q' = Proven ttl log (Lookup.room id) author q'
Entitled ttl log admin_or_room_admin author id q q' =
    Proven ttl log Lookup.global author q ⊎ Proven ttl log (Lookup.room id) author q'

granted-Entitled :
    (owner : Slot → Lookup) (d : RoleDirectory) (log : List Told)
    → Sound owner d log
    → (required : Authority) (author id : String) (q q' : Inquiry)
    → (granted d required author id q q').1 ≡ true
    → Entitled d.config.ttl log required author id q q'
unfolding granted
granted-Entitled owner d log s anyone author id q q' h = tt
granted-Entitled owner d log s admin author id q q' h = is_admin-Proven owner d log s author q h
granted-Entitled owner d log s room_admin author id q q' h =
    is_room_admin-Proven owner d log s author id q' h
granted-Entitled owner d log s admin_or_room_admin author id q q' h =
    elim (Bool-cases (is_admin d author q).1) [
      | inl global ↦ inl (is_admin-Proven owner d log s author q global)
      | inr other ↦
          let a = is_admin-AfterAdmin owner d log s author q in
          let proven =
            is_room_admin-Proven owner (is_admin d author q).0 a.log_after a.sound author id q'
              (rw (other, granted) at h) in
          inr (elim proven [
            | inl (t, listed, told, same, young, answered, lists) ↦ inl (
              t,
              listed,
              a.of_rooms t id told same,
              same,
              subst (λ (c : RoleCacheConfig). q'.started - t.started < c.ttl) a.config_is young,
              answered,
              lists,
            )
            | inr now ↦ inr now
          ])
    ]

pub verdict_entitles :
    (owner : Slot → Lookup) (d : RoleDirectory) (log : List Told)
    → Sound owner d log
    → (required : Authority) (author id : String) (q q' : Inquiry)
    → (verdict d required author id q q').1 ≡ none
    → Entitled d.config.ttl log required author id q q'
unfolding verdict
verdict_entitles owner d log s required author id q q' passes =
    granted-Entitled owner d log s required author id q q'
      (passed (granted d required author id q q').1 passes)

-- Through any lookups, answers and invalidations of a new directory, in any order: the author of an
-- event passes a handler's role filter only if the server lists the author with a role that the
-- handler requires, the administrator's for the workspace, or the owner's, the moderator's or the
-- leader's for the room of the event. The list is an answer to a lookup of just that, and is younger
-- than `ttl` or given now.
pub verdict-Entitled :
    (config : RoleCacheConfig) {h : Course} (required : Authority) (author id : String)
    (q q' : Inquiry)
    → Reach (start config) h
    → (verdict h.directory required author id q q').1 ≡ none
    → Entitled h.directory.config.ttl h.log required author id q q'
verdict-Entitled config {h} required author id q q' reached passes =
    let c = Reach-SoundCourse config reached in
    verdict_entitles c.owner h.directory h.log c.sound required author id q q' passes
