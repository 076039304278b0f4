-- ===== src/Bot/Roles/Staleness.antt =====
-- An invalidation is final for the lookups that began before it.
use rocketsocket.Base.{
  ℕ, ◌<◌, String, ◌≡◌, refl, none, List, [], ◌∷◌, arith, ℕ_eq, String_eq, All, Option_eq,
}
use rocketsocket.Map.{get}
use rocketsocket.Map.Entries.{All-insert, All-map, get-eq-none}
use rocketsocket.Map.Laws.{get-remove_self}
use rocketsocket.Bot.Roles.{
  RoleDirectory, Entry, Slot, Lookup, Answer, empty_slot, room_slot, cached, store_answer,
  invalidate_global, invalidate_room,
}
use rocketsocket.Bot.Roles.Slots.{IsValid}

-- A lookup that is to store its answer.
pub record Late : Type 0 where
  pub slot : Slot
  pub lookup : Lookup
  pub started : ℕ
  pub answer : Answer

abbrev pub store_all : RoleDirectory → List Late → RoleDirectory
store_all d [] = d
store_all d (l ∷ rest) = store_all (store_answer d l.slot l.lookup l.started l.answer).0 rest

-- What the late answers leave alone, and that they reach only slots below the bound.
store_all-keeps :
    (bound : Slot) (d : RoleDirectory) (late : List Late)
    → All (λ (e : Slot × Entry). e.0 < bound) d.slots
    → All (λ (l : Late). l.slot < bound) late
    → let d' = store_all d late in
      All (λ (e : Slot × Entry). e.0 < bound) d'.slots
      × (d'.next ≡ d.next)
      × (d'.global ≡ d.global)
      × (d'.rooms ≡ d.rooms)
unfolding store_answer
store_all-keeps bound d [] h g = (h, refl, refl, refl)
store_all-keeps bound d (l ∷ rest) h g =
    store_all-keeps bound (store_answer d l.slot l.lookup l.started l.answer).0 rest
      (All-insert _ d.slots l.slot _ h g.0) g.1

-- The slot of a bound is empty.
cached_beyond :
    (d : RoleDirectory) (slot : Slot) (started : ℕ)
    → All (λ (e : Slot × Entry). e.0 < slot) d.slots
    → cached d slot started ≡ none
unfolding cached
cached_beyond d slot started h =
    let absent : get d.slots slot ≡ none =
      get-eq-none d.slots slot (All-map d.slots (λ e less same. absurd (omega arith)) h) in
    rw absent refl

-- A room that is not remembered gets the next slot.
made_slot :
    (d : RoleDirectory) (id : String) (now : ℕ)
    → get d.rooms id ≡ none
    → ((room_slot d id now).1 ≡ d.next) × ((room_slot d id now).0.slots ≡ d.slots)
unfolding room_slot empty_slot
made_slot d id now e = (rw (e, room_slot) refl, rw (e, room_slot) refl)

-- Once a room is invalidated, and whatever answers the lookups that began before it store, the next
-- lookup of the room finds no answer and asks the server.
pub invalidate_room_asks :
    (d : RoleDirectory) (id : String) (late : List Late) (now started : ℕ)
    → IsValid d
    → All (λ (l : Late). l.slot < d.next) late
    → let (looked, slot) = room_slot (store_all (invalidate_room d id) late) id now in
      cached looked slot started ≡ none
unfolding invalidate_room
invalidate_room_asks d id late now started v h =
    let dropped = invalidate_room d id in
    let (made, next, global, rooms) = store_all-keeps d.next dropped late v.made h in
    let after = store_all dropped late in
    let absent : get after.rooms id ≡ none = rw rooms (get-remove_self d.rooms id) in
    let (slot, slots) = made_slot after id now absent in
    cached_beyond (room_slot after id now).0 (room_slot after id now).1 started
      (rw (slots, slot, next) made)

-- Once the global roles are invalidated, and whatever answers the lookups that began before it
-- store, the next lookup of them finds no answer and asks the server.
invalidate_global_asks :
    (d : RoleDirectory) (late : List Late) (started : ℕ)
    → IsValid d
    → All (λ (l : Late). l.slot < d.next) late
    → let after = store_all (invalidate_global d) late in cached after after.global started ≡ none
unfolding invalidate_global empty_slot
invalidate_global_asks d late started v h =
    let (made, next, global, rooms) = store_all-keeps d.next (invalidate_global d) late v.made h in
    cached_beyond (store_all (invalidate_global d) late) _ started (rw global made)
