-- ===== src/Bot/Roles.antt =====
-- crates/rocketsocket/src/roles.rs: the directory of roles. A lookup is two steps, the reading of its
-- slot and, if that has no fresh entry, the storing of what the server answers; the steps of other
-- lookups, and invalidations, may come between them.
pub mod Slots
pub mod Staleness
pub mod Grants
pub mod Eviction
pub mod History
pub mod Soundness
pub mod Provenance
pub mod Upkeep
mod Tests
use rocketsocket.Base.{
  ℕ, zero, suc, ◌+◌, ◌-◌, ◌*◌, ◌/◌, ◌%◌, ◌^◌, ◌≤◌, ◌<◌, String, ◌≡◌, refl, sym, ap, ◌∙◌, ◌≢◌, ◌↔◌,
  ◌⊎◌, inl, inr, Bool, true, false, not, ◌&&◌, ◌||◌, Option, none, some, List, [], ◌∷◌, ◌++◌, arith,
  ltb, leb, nat_eq, if◌then◌else◌, Eq, ◌==◌, ℕ_eq, String_eq, Bool-cases, if-keeps, Result-cases,
  elem-append, elem-retain, and_then, Option-cases, is_some, is_some_and, Result, ok, err, map_err,
  length, All, retain, elem, option_eq, option_eq_iff, Option_eq,
}
use rocketsocket.Map.{Map, empty, get, insert, remove, contains}
use rocketsocket.Bot.Filter.{Authority, anyone, admin, room_admin, admin_or_room_admin, Filtered}

abbrev pub admin_role : String
admin_role = "admin"

abbrev pub room_admin_roles : List String
room_admin_roles = "owner" ∷ "moderator" ∷ "leader" ∷ []

-- Times are nanoseconds.
pub record RoleCacheConfig : Type 0 where
  pub ttl : ℕ
  pub failure_ttl : ℕ
  pub timeout : ℕ
  pub max_rooms : ℕ

abbrev pub default_config : RoleCacheConfig
default_config = record {
  ttl = 300 * 1000000000;
  failure_ttl = 30 * 1000000000;
  timeout = 5 * 1000000000;
  max_rooms = 512;
}

-- The set of the holders is a list.
pub record Entry : Type 0 where
  pub holders : Option (List String)
  pub fetched_at : ℕ

unfoldable pub is_fresh : Entry → RoleCacheConfig → ℕ → Bool
is_fresh e config now =
    let ttl = if is_some e.holders then config.ttl else config.failure_ttl in
    ltb (now - e.fetched_at) ttl

unfoldable pub grants : Entry → String → Bool
grants e user = is_some_and e.holders (λ holders. elem holders user)

-- The address of a slot that `empty_slot` has made.
abbrev pub Slot : Type 0
Slot = ℕ

pub record RoomSlot : Type 0 where
  pub slot : Slot
  pub touched : ℕ

pub data Lookup : Type 0 where
  global : Lookup
  room : (id : String) → Lookup

-- `slots` has the contents of the slots that have any, and `next` is the next address. The REST
-- client is left out: its answers are arguments.
pub record RoleDirectory : Type 0 where
  pub config : RoleCacheConfig
  pub slots : Map Slot Entry
  pub next : Slot
  pub global : Slot
  pub rooms : Map String RoomSlot

unfoldable pub empty_slot : RoleDirectory → RoleDirectory × Slot
empty_slot d = (record d { next = d.next + 1 }, d.next)

unfoldable pub new : RoleCacheConfig → RoleDirectory
new config = record { config = config; slots = empty; next = 1; global = 0; rooms = empty }

unfoldable pub invalidate_global : RoleDirectory → RoleDirectory
unfolding empty_slot
invalidate_global d = let (d', slot) = empty_slot d in record d' { global = slot }

unfoldable pub invalidate_room : RoleDirectory → String → RoleDirectory
invalidate_room d id = record d { rooms = remove d.rooms id }

unfoldable pub invalidate_all : RoleDirectory → RoleDirectory
unfolding invalidate_global
invalidate_all d = record (invalidate_global d) { rooms = empty }

-- A string that names no variant is kept.
pub data RoleChangeKind : Type 0 where
  added removed changed : RoleChangeKind
  unknown : (name : String) → RoleChangeKind

-- The subject is its id.
pub record RoleChange : Type 0 where
  pub id : String
  pub action : RoleChangeKind
  pub u : Option String
  pub scope : Option String

unfoldable pub is_changed : RoleChangeKind → Bool
is_changed changed = true
is_changed _ = false

unfoldable pub apply_role_change : RoleDirectory → RoleChange → RoleDirectory
unfolding is_changed invalidate_all invalidate_room invalidate_global
apply_role_change d change =
    if not (is_some change.u) || is_changed change.action
    then invalidate_all d
    else elim change.scope [ some id ↦ invalidate_room d id | none ↦ invalidate_global d ]

unfoldable pub cached_rooms : RoleDirectory → ℕ
cached_rooms d = length d.rooms

-- `min_by_key` on the time of the last lookup: the first of the least in the order of the map.
unfoldable pub coldest_of : String × RoomSlot → Map String RoomSlot → String
coldest_of best [] = best.0
coldest_of best (e ∷ rest) =
    let older = coldest_of e rest in
    let kept = coldest_of best rest in if ltb e.1.touched best.1.touched then older else kept

unfoldable pub coldest : Map String RoomSlot → Option String
unfolding coldest_of
coldest [] = none
coldest (e ∷ rest) = some (coldest_of e rest)

-- The eviction loop, on fuel: each turn takes a room away.
unfoldable pub evict : ℕ → ℕ → Map String RoomSlot → Map String RoomSlot
unfolding coldest
evict zero max_rooms rooms = rooms
evict (suc fuel) max_rooms rooms =
    if leb max_rooms (length rooms)
    then elim (coldest rooms) [ none ↦ rooms | some id ↦ evict fuel max_rooms (remove rooms id) ]
    else rooms

unfoldable pub room_slot : RoleDirectory → String → ℕ → RoleDirectory × Slot
unfolding evict empty_slot
room_slot d id now = elim (get d.rooms id) [
  | some existing ↦
      (record d { rooms = insert d.rooms id (record existing { touched = now }) }, existing.slot)
  | none ↦
      let rooms =
        if ltb 0 d.config.max_rooms
        then evict (length d.rooms) d.config.max_rooms d.rooms
        else d.rooms in
      let (d', slot) = empty_slot d in
      (record d' { rooms = insert rooms id (record { slot = slot; touched = now }) }, slot)
]

-- The fresh entry of a slot.
unfoldable pub cached : RoleDirectory → Slot → ℕ → Option Entry
unfolding is_fresh
cached d slot started =
    and_then (get d.slots slot) (λ e. if is_fresh e d.config started then some e else none)

-- `holds`: whether a wanted role is among the held.
unfoldable pub holds : List String → List String → Bool
holds [] wanted = false
holds (role ∷ held) wanted = elem wanted role || holds held wanted

-- A user and the roles that the server lists for them, in the workspace or in a room.
pub record Holder : Type 0 where
  pub id : String
  pub roles : List String

unfoldable pub wanted_roles : Lookup → List String
wanted_roles Lookup.global = admin_role ∷ []
wanted_roles (Lookup.room id) = room_admin_roles

unfoldable pub holders_of : List String → List Holder → List String
unfolding holds
holders_of wanted [] = []
holders_of wanted (h ∷ rest) =
    if holds h.roles wanted then h.id ∷ holders_of wanted rest else holders_of wanted rest

-- What the server answers in time, if it does: the holders, or an error.
abbrev pub Answer : Type 0
Answer = Option (Result (List Holder) String)

-- What a lookup learns: nothing after an error or a timeout.
unfoldable pub learned : Lookup → Answer → Option (List String)
unfolding holders_of wanted_roles
learned lookup (some (ok listed)) = some (holders_of (wanted_roles lookup) listed)
learned lookup (some (err error)) = none
learned lookup none = none

-- The end of a lookup that had to ask the server.
unfoldable pub store_answer : RoleDirectory → Slot → Lookup → ℕ → Answer → RoleDirectory × Entry
unfolding learned
store_answer d slot lookup started answer =
    let e : Entry = record { holders = learned lookup answer; fetched_at = started } in
    (record d { slots = insert d.slots slot e }, e)

-- `entry`, where nothing comes between its steps.
unfoldable pub entry : RoleDirectory → Slot → Lookup → ℕ → Answer → RoleDirectory × Entry
unfolding cached store_answer
entry d slot lookup started answer = elim (cached d slot started) [
  | some e ↦ (d, e)
  | none ↦ store_answer d slot lookup started answer
]

-- The circumstances of a lookup: when its room is looked up, when its slot is read, and what the
-- server answers if it is asked.
pub record Inquiry : Type 0 where
  pub asked : ℕ
  pub started : ℕ
  pub answer : Answer

unfoldable pub is_admin : RoleDirectory → String → Inquiry → RoleDirectory × Bool
unfolding entry grants
is_admin d user q =
    let (d', e) = entry d d.global Lookup.global q.started q.answer in (d', grants e user)

unfoldable pub is_room_admin : RoleDirectory → String → String → Inquiry → RoleDirectory × Bool
unfolding room_slot entry grants
is_room_admin d user id q =
    let (d', slot) = room_slot d id q.asked in
    let (d'', e) = entry d' slot (Lookup.room id) q.started q.answer in (d'', grants e user)

-- The match of `verdict`, on an inquiry for each endpoint: the second is asked only if the first
-- does not grant.
unfoldable pub granted :
    RoleDirectory → Authority → String → String → Inquiry → Inquiry → RoleDirectory × Bool
unfolding is_admin is_room_admin
granted d anyone author id q q' = (d, true)
granted d admin author id q q' = is_admin d author q
granted d room_admin author id q q' = is_room_admin d author id q'
granted d admin_or_room_admin author id q q' =
    let (d', is_global) = is_admin d author q in
    if is_global then (d', true) else is_room_admin d' author id q'

unfoldable pub verdict :
    RoleDirectory
    → Authority
    → String
    → String
    → Inquiry
    → Inquiry
    → RoleDirectory × Option Filtered
unfolding granted
verdict d required author id q q' =
    let (d', passes) = granted d required author id q q' in
    (d', if passes then none else some Filtered.authority)
