-- ===== src/Bot/Roles/Slots.antt =====
-- The directory's slots: an invalidation is final for the lookups that began before it.
use rocketsocket.Base.{
  ℕ, ◌+◌, ◌≤◌, ◌<◌, String, inl, inr, not, ◌||◌, arith, ltb, ℕ_eq, String_eq, Bool-cases,
  Option-cases, is_some, length, All, Option_eq,
}
use rocketsocket.Map.{Map, get, insert}
use rocketsocket.Map.Entries.{All-insert, All-map}
use rocketsocket.Map.Laws.{
  IsFunctional, insert-IsFunctional, remove-IsFunctional, length-remove, length-insert,
}
use rocketsocket.Bot.Roles.{
  RoleCacheConfig, RoleDirectory, RoomSlot, Entry, Slot, Lookup, Answer, RoleChange, new,
  empty_slot, room_slot, store_answer, invalidate_global, invalidate_room, invalidate_all,
  apply_role_change, is_changed,
}
use rocketsocket.Bot.Roles.Eviction.{evict_enough}

-- Only slots that were made have an entry, and the rooms are within their ceiling, if there is one.
pub record IsValid (d : RoleDirectory) : Type 0 where
  pub made : All (λ (e : Slot × Entry). e.0 < d.next) d.slots
  pub functional : IsFunctional d.rooms
  pub bounded : 0 < d.config.max_rooms → length d.rooms ≤ d.config.max_rooms

-- The steps of lookups and invalidations, in any order. A lookup stores an answer in a slot that was
-- made.
pub data Step (d : RoleDirectory) : RoleDirectory → Type 0 where
  looks : (id : String) (now : ℕ) → Step d (room_slot d id now).0
  stores :
      (slot : Slot) (lookup : Lookup) (started : ℕ) (answer : Answer)
      → slot < d.next
      → Step d (store_answer d slot lookup started answer).0
  drops_global : Step d (invalidate_global d)
  drops_room : (id : String) → Step d (invalidate_room d id)
  changes : (change : RoleChange) → Step d (apply_role_change d change)

pub data Reach (d : RoleDirectory) : RoleDirectory → Type 0 where
  here : Reach d d
  next : {e f : RoleDirectory} → Reach d e → Step e f → Reach d f

new-IsValid : (config : RoleCacheConfig) → IsValid (new config)
unfolding new
new-IsValid config = record { made = tt; functional = tt; bounded = λ h. omega arith }

invalidate_global-IsValid : (d : RoleDirectory) → IsValid d → IsValid (invalidate_global d)
unfolding invalidate_global empty_slot
invalidate_global-IsValid d v = record {
  made = All-map d.slots (λ e less. omega arith) v.made;
  functional = v.functional;
  bounded = v.bounded;
}

invalidate_room-IsValid :
    (d : RoleDirectory) (id : String) → IsValid d → IsValid (invalidate_room d id)
unfolding invalidate_room
invalidate_room-IsValid d id v = record {
  made = v.made;
  functional = remove-IsFunctional d.rooms id v.functional;
  bounded = λ h. ground (arith, v.bounded h, length-remove d.rooms id v.functional);
}

invalidate_all-IsValid : (d : RoleDirectory) → IsValid d → IsValid (invalidate_all d)
unfolding invalidate_all invalidate_global empty_slot
invalidate_all-IsValid d v = record {
  made = All-map d.slots (λ e less. omega arith) v.made;
  functional = tt;
  bounded = λ h. omega arith;
}

apply_role_change-IsValid :
    (d : RoleDirectory) (change : RoleChange) → IsValid d → IsValid (apply_role_change d change)
unfolding apply_role_change
apply_role_change-IsValid d change v =
    elim (Bool-cases (not (is_some change.u) || is_changed change.action)) [
      | inl every ↦ rw every (invalidate_all-IsValid d v)
      | inr one ↦ elim (Option-cases change.scope) [
        | inl e ↦ rw (one, e, apply_role_change) (invalidate_global-IsValid d v)
        | inr (id, e) ↦ rw (one, e, apply_role_change) (invalidate_room-IsValid d id v)
      ]
    ]

store_answer-IsValid :
    (d : RoleDirectory) (slot : Slot) (lookup : Lookup) (started : ℕ) (answer : Answer)
    → slot < d.next
    → IsValid d
    → IsValid (store_answer d slot lookup started answer).0
unfolding store_answer
store_answer-IsValid d slot lookup started answer h v = record {
  made = All-insert _ d.slots slot _ v.made h;
  functional = v.functional;
  bounded = v.bounded;
}

-- A lookup of a room that is not remembered.
make_room :
    (d : RoleDirectory) (id : String) (now : ℕ) (rooms : Map String RoomSlot)
    → IsFunctional rooms
    → (0 < d.config.max_rooms → length rooms < d.config.max_rooms)
    → IsValid d
    → IsValid (record d {
      next = d.next + 1;
      rooms = insert rooms id (record { slot = d.next; touched = now });
    })
make_room d id now rooms f room v = record {
  made = All-map d.slots (λ e less. omega arith) v.made;
  functional = insert-IsFunctional rooms id _ f;
  bounded =
      λ h. ground (arith, room h, length-insert rooms id (record { slot = d.next; touched = now }));
}

room_slot-IsValid :
    (d : RoleDirectory) (id : String) (now : ℕ) → IsValid d → IsValid (room_slot d id now).0
unfolding room_slot empty_slot
room_slot-IsValid d id now v = elim (Option-cases (get d.rooms id)) [
  | inr (existing, e) ↦
      rw (e, room_slot)
        (record {
          made = v.made;
          functional = insert-IsFunctional d.rooms id _ v.functional;
          bounded = λ h.
              ground (
                arith,
                v.bounded h,
                e,
                length-insert d.rooms id (record existing { touched = now }),
              );
        })
  | inl e ↦ elim (Bool-cases (ltb 0 d.config.max_rooms)) [
    | inl capped ↦
        let (f, room) =
          evict_enough (length d.rooms) d.config.max_rooms d.rooms (ground (arith, capped))
            v.functional (omega arith) in
        rw (e, capped, room_slot) (make_room d id now _ f (λ h. room) v)
    | inr free ↦
        rw (e, free, room_slot)
          (make_room d id now d.rooms v.functional (λ h. ground (arith, h, free)) v)
  ]
]

Step-IsValid : {d e : RoleDirectory} → Step d e → IsValid d → IsValid e
Step-IsValid {d = d} (looks id now) v = room_slot-IsValid d id now v
Step-IsValid {d = d} (stores slot lookup started answer h) v =
    store_answer-IsValid d slot lookup started answer h v
Step-IsValid {d = d} drops_global v = invalidate_global-IsValid d v
Step-IsValid {d = d} (drops_room id) v = invalidate_room-IsValid d id v
Step-IsValid {d = d} (changes change) v = apply_role_change-IsValid d change v

-- Whatever lookups and invalidations a new directory sees, in any order, it never remembers more
-- rooms than its ceiling, if that is not zero.
pub Reach-IsValid :
    (config : RoleCacheConfig) {d : RoleDirectory} → Reach (new config) d → IsValid d
Reach-IsValid config here = new-IsValid config
Reach-IsValid config (next before step) = Step-IsValid step (Reach-IsValid config before)
