-- ===== src/Bot/Roles/History.antt =====
-- The steps of lookups that overlap, with what the server has answered.
use rocketsocket.Base.{ℕ, String, List, [], ◌∷◌, ℕ_eq, String_eq, All, Option_eq}
use rocketsocket.Bot.Roles.{
  RoleCacheConfig, RoleDirectory, Slot, Lookup, Answer, RoleChange, new, room_slot, store_answer,
  invalidate_global, invalidate_room, apply_role_change,
}

-- An element of a list, with its place.
pub data In {A : Type 0} (x : A) : List A → Type 0 where
  first : {xs : List A} → In x (x ∷ xs)
  later : {y : A} {xs : List A} → In x xs → In x (y ∷ xs)

pub All-In : {A : Type 0} (P : A → Type 0) (x : A) (xs : List A) → All P xs → In x xs → P x
All-In P x _ h first = h.0
All-In P x _ h (later m) = All-In P x _ h.1 m

-- What the server answered to a lookup that began at a time.
pub record Told : Type 0 where
  pub lookup : Lookup
  pub started : ℕ
  pub answer : Answer

-- The directory, the lookups that have begun, each with the slot that it was given, and what the
-- server has answered so far.
pub record Course : Type 0 where
  pub directory : RoleDirectory
  pub begun : List (Slot × Lookup)
  pub log : List Told

-- The steps of lookups and invalidations, in any order. Each lookup reads the slot of what it looks
-- up when it begins, and may store its answer there at any time after.
pub data Step (h : Course) : Course → Type 0 where
  begins_global : Step h (record h { begun = (h.directory.global, Lookup.global) ∷ h.begun })
  begins_room :
      (id : String) (now : ℕ)
      → Step h (record h {
        directory = (room_slot h.directory id now).0;
        begun = ((room_slot h.directory id now).1, Lookup.room id) ∷ h.begun;
      })
  stores :
      (slot : Slot) (t : Told)
      → In (slot, t.lookup) h.begun
      → Step h (record h {
        directory = (store_answer h.directory slot t.lookup t.started t.answer).0;
        log = t ∷ h.log;
      })
  drops_global : Step h (record h { directory = invalidate_global h.directory })
  drops_room : (id : String) → Step h (record h { directory = invalidate_room h.directory id })
  changes :
      (change : RoleChange) → Step h (record h { directory = apply_role_change h.directory change })

abbrev pub start : RoleCacheConfig → Course
start config = record { directory = new config; begun = []; log = [] }

pub data Reach (h : Course) : Course → Type 0 where
  here : Reach h h
  next : {i j : Course} → Reach h i → Step i j → Reach h j
