-- ===== src/Bot/Roles/Soundness.antt =====
-- What the answers are that the directory holds, through any steps.
use rocketsocket.Base.{
  ℕ, zero, suc, ◌+◌, ◌<◌, String, ◌≡◌, refl, inl, inr, true, false, not, ◌||◌, List, ◌∷◌, arith,
  ltb, leb, nat_eq, if◌then◌else◌, ℕ_eq, String_eq, Bool-cases, Option-cases, is_some, length, All,
  Option_eq,
}
use rocketsocket.Map.{Map, get, insert, remove}
use rocketsocket.Map.Entries.{All-insert, All-remove, All-get, All-map}
use rocketsocket.Bot.Roles.{
  RoleCacheConfig, RoleDirectory, RoomSlot, Entry, Slot, Lookup, RoleChange, new, learned,
  empty_slot, room_slot, store_answer, invalidate_global, invalidate_room, invalidate_all,
  apply_role_change, is_changed, evict, coldest,
}
use rocketsocket.Bot.Roles.History.{
  In, first, later, All-In, Told, Course, Step, begins_global, begins_room, stores, drops_global,
  drops_room, changes, start, Reach, here, next,
}

-- A slot that was made, and made for the lookup.
abbrev pub Serves : (Slot → Lookup) → ℕ → Slot → Lookup → Type 0
Serves owner bound slot lookup = (slot < bound) × (owner slot ≡ lookup)

-- The entry that an answer leaves.
abbrev pub entry_of : Told → Entry
entry_of t = record { holders = learned t.lookup t.answer; fetched_at = t.started }

-- An entry is what the server answered to a lookup of what its slot was made for.
abbrev pub IsLogged : (Slot → Lookup) → ℕ → List Told → Slot × Entry → Type 0
IsLogged owner bound log e =
    (t : Told) × In t log × Serves owner bound e.0 t.lookup × (e.1 ≡ entry_of t)

pub record Sound (owner : Slot → Lookup) (d : RoleDirectory) (log : List Told) : Type 0 where
  pub global_is : Serves owner d.next d.global Lookup.global
  pub rooms_are :
      All (λ (e : String × RoomSlot). Serves owner d.next e.1.slot (Lookup.room e.0)) d.rooms
  pub contents : All (IsLogged owner d.next log) d.slots

-- A new slot gets its purpose.
abbrev pub assign : (Slot → Lookup) → ℕ → Lookup → Slot → Lookup
assign owner fresh lookup slot = if nat_eq slot fresh then lookup else owner slot

Serves-assign :
    (owner : Slot → Lookup) (fresh : ℕ) (lookup : Lookup) (slot : Slot) (other : Lookup)
    → Serves owner fresh slot other
    → Serves (assign owner fresh lookup) (fresh + 1) slot other
Serves-assign owner fresh lookup slot other (less, is) =
    let old : nat_eq slot fresh ≡ false = ground arith in (omega arith, rw old is)

Serves-fresh :
    (owner : Slot → Lookup) (fresh : ℕ) (lookup : Lookup)
    → Serves (assign owner fresh lookup) (fresh + 1) fresh lookup
Serves-fresh owner fresh lookup =
    let same : nat_eq fresh fresh ≡ true = ground arith in (omega arith, rw same refl)

module _ (owner : Slot → Lookup) (d : RoleDirectory) (log : List Told) (s : Sound owner d log)
    (lookup : Lookup) where
  abbrev owner' : Slot → Lookup
  owner' = assign owner d.next lookup

  rooms-assign :
      All (λ (e : String × RoomSlot). Serves owner' (d.next + 1) e.1.slot (Lookup.room e.0)) d.rooms
  rooms-assign =
      All-map d.rooms (λ e. Serves-assign owner d.next lookup e.1.slot (Lookup.room e.0))
        s.rooms_are

  contents-assign : All (IsLogged owner' (d.next + 1) log) d.slots
  contents-assign =
      All-map d.slots
        (λ e (t, told, serves, is).
          (t, told, Serves-assign owner d.next lookup e.0 t.lookup serves, is))
        s.contents

All-evict :
    (P : String × RoomSlot → Type 0) (fuel max_rooms : ℕ) (rooms : Map String RoomSlot)
    → All P rooms
    → All P (evict fuel max_rooms rooms)
unfolding evict
All-evict P zero max_rooms rooms h = h
All-evict P (suc fuel) max_rooms rooms h = elim (Bool-cases (leb max_rooms (length rooms))) [
  | inr below ↦ rw below h
  | inl full ↦ elim (Option-cases (coldest rooms)) [
    | inl e ↦ rw (full, e, evict) h
    | inr (id, e) ↦
        rw (full, e, evict) (All-evict P fuel max_rooms (remove rooms id) (All-remove P rooms id h))
  ]
]

invalidate_global-Sound :
    (owner : Slot → Lookup) (d : RoleDirectory) (log : List Told)
    → Sound owner d log
    → Sound (assign owner d.next Lookup.global) (invalidate_global d) log
unfolding invalidate_global empty_slot
invalidate_global-Sound owner d log s = record {
  global_is = Serves-fresh owner d.next Lookup.global;
  rooms_are = rooms-assign owner d log s Lookup.global;
  contents = contents-assign owner d log s Lookup.global;
}

invalidate_all-Sound :
    (owner : Slot → Lookup) (d : RoleDirectory) (log : List Told)
    → Sound owner d log
    → Sound (assign owner d.next Lookup.global) (invalidate_all d) log
unfolding invalidate_all invalidate_global empty_slot
invalidate_all-Sound owner d log s = record {
  global_is = Serves-fresh owner d.next Lookup.global;
  rooms_are = tt;
  contents = contents-assign owner d log s Lookup.global;
}

invalidate_room-Sound :
    (owner : Slot → Lookup) (d : RoleDirectory) (log : List Told) (id : String)
    → Sound owner d log
    → Sound owner (invalidate_room d id) log
unfolding invalidate_room
invalidate_room-Sound owner d log id s = record {
  global_is = s.global_is;
  rooms_are = All-remove _ d.rooms id s.rooms_are;
  contents = s.contents;
}

pub store_answer-Sound :
    (owner : Slot → Lookup) (d : RoleDirectory) (log : List Told) (slot : Slot) (t : Told)
    → Serves owner d.next slot t.lookup
    → Sound owner d log
    → Sound owner (store_answer d slot t.lookup t.started t.answer).0 (t ∷ log)
unfolding store_answer
store_answer-Sound owner d log slot t serves s = record {
  global_is = s.global_is;
  rooms_are = s.rooms_are;
  contents =
      All-insert (IsLogged owner d.next (t ∷ log)) d.slots slot (entry_of t)
        (All-map d.slots (λ e (u, told, made, is). (u, later told, made, is)) s.contents)
        (t, first, serves, refl);
}

-- A slot that was given stays what it was made for.
abbrev Stays : (Slot → Lookup) → ℕ → (Slot → Lookup) → ℕ → Type 0
Stays owner bound owner' bound' =
    (slot : Slot) (lookup : Lookup)
    → Serves owner bound slot lookup
    → Serves owner' bound' slot lookup

-- A lookup of a room that is not remembered, over the rooms that are left.
made_room :
    (owner : Slot → Lookup) (d : RoleDirectory) (log : List Told) (id : String) (now : ℕ)
    (rooms : Map String RoomSlot)
    → Sound owner d log
    → (let owner' = assign owner d.next (Lookup.room id) in
        All
          (λ (e : String × RoomSlot). Serves owner' (d.next + 1) e.1.slot (Lookup.room e.0))
          rooms)
    → Sound
        (assign owner d.next (Lookup.room id))
        (record d {
          next = d.next + 1;
          rooms = insert rooms id (record { slot = d.next; touched = now });
        })
        log
made_room owner d log id now rooms s h = record {
  global_is = Serves-assign owner d.next (Lookup.room id) d.global Lookup.global s.global_is;
  rooms_are = All-insert _ rooms id _ h (Serves-fresh owner d.next (Lookup.room id));
  contents = contents-assign owner d log s (Lookup.room id);
}

-- The lookup of a room is given a slot that was made for this room.
pub record Given (owner : Slot → Lookup) (d : RoleDirectory) (log : List Told) (id : String)
    (now : ℕ) : Type 0 where
  pub owner_after : Slot → Lookup
  pub sound : Sound owner_after (room_slot d id now).0 log
  pub serves :
      Serves owner_after (room_slot d id now).0.next (room_slot d id now).1 (Lookup.room id)
  pub stays : Stays owner d.next owner_after (room_slot d id now).0.next

pub room_slot-Given :
    (owner : Slot → Lookup) (d : RoleDirectory) (log : List Told) (id : String) (now : ℕ)
    → Sound owner d log
    → Given owner d log id now
unfolding room_slot empty_slot
room_slot-Given owner d log id now s = elim (Option-cases (get d.rooms id)) [
  | inr (existing, e) ↦
      let found = All-get _ d.rooms id existing s.rooms_are e in
      record {
        owner_after = owner;
        sound =
            rw (e, room_slot)
              (record {
                global_is = s.global_is;
                rooms_are =
                    All-insert _ d.rooms id (record existing { touched = now }) s.rooms_are found;
                contents = s.contents;
              });
        serves = rw (e, room_slot) found;
        stays = λ slot lookup h. rw (e, room_slot) h;
      }
  | inl e ↦
      let kept = rooms-assign owner d log s (Lookup.room id) in
      elim (Bool-cases (ltb 0 d.config.max_rooms)) [
        | inl capped ↦ record {
          owner_after = assign owner d.next (Lookup.room id);
          sound =
              rw (e, capped, room_slot)
                (made_room owner d log id now _ s (All-evict _ _ _ d.rooms kept));
          serves = rw (e, room_slot) (Serves-fresh owner d.next (Lookup.room id));
          stays = λ slot lookup h.
              rw (e, room_slot) (Serves-assign owner d.next (Lookup.room id) slot lookup h);
        }
        | inr free ↦ record {
          owner_after = assign owner d.next (Lookup.room id);
          sound = rw (e, free, room_slot) (made_room owner d log id now d.rooms s kept);
          serves = rw (e, room_slot) (Serves-fresh owner d.next (Lookup.room id));
          stays = λ slot lookup h.
              rw (e, room_slot) (Serves-assign owner d.next (Lookup.room id) slot lookup h);
        }
      ]
]

-- A course whose directory is sound, and whose lookups have slots that were made for them.
pub record SoundCourse (h : Course) : Type 0 where
  pub owner : Slot → Lookup
  pub sound : Sound owner h.directory h.log
  pub begun_are : All (λ (b : Slot × Lookup). Serves owner h.directory.next b.0 b.1) h.begun

start-SoundCourse : (config : RoleCacheConfig) → SoundCourse (start config)
unfolding new
start-SoundCourse config = record {
  owner = λ slot. Lookup.global;
  sound = record { global_is = (omega arith, refl); rooms_are = tt; contents = tt };
  begun_are = tt;
}

-- An invalidation of the global roles, and of all.
global_dropped :
    (h : Course) (d : RoleDirectory)
    → SoundCourse h
    → ((owner : Slot → Lookup)
        → Sound owner h.directory h.log
        → Sound (assign owner h.directory.next Lookup.global) d h.log)
    → d.next ≡ h.directory.next + 1
    → SoundCourse (record h { directory = d })
global_dropped h d s keeps advanced = record {
  owner = assign s.owner h.directory.next Lookup.global;
  sound = keeps s.owner s.sound;
  begun_are = rw advanced (
      All-map h.begun (λ b. Serves-assign s.owner h.directory.next Lookup.global b.0 b.1)
        s.begun_are);
}

invalidate_global-SoundCourse :
    (h : Course)
    → SoundCourse h
    → SoundCourse (record h { directory = invalidate_global h.directory })
unfolding invalidate_global empty_slot
invalidate_global-SoundCourse h s =
    global_dropped h (invalidate_global h.directory) s
      (λ owner. invalidate_global-Sound owner h.directory h.log) refl

invalidate_all-SoundCourse :
    (h : Course) → SoundCourse h → SoundCourse (record h { directory = invalidate_all h.directory })
unfolding invalidate_all invalidate_global empty_slot
invalidate_all-SoundCourse h s =
    global_dropped h (invalidate_all h.directory) s
      (λ owner. invalidate_all-Sound owner h.directory h.log) refl

invalidate_room-SoundCourse :
    (h : Course) (id : String)
    → SoundCourse h
    → SoundCourse (record h { directory = invalidate_room h.directory id })
unfolding invalidate_room
invalidate_room-SoundCourse h id s = record {
  owner = s.owner;
  sound = invalidate_room-Sound s.owner h.directory h.log id s.sound;
  begun_are = s.begun_are;
}

change-SoundCourse :
    (h : Course) (change : RoleChange)
    → SoundCourse h
    → SoundCourse (record h { directory = apply_role_change h.directory change })
unfolding apply_role_change
change-SoundCourse h change s =
    elim (Bool-cases (not (is_some change.u) || is_changed change.action)) [
      | inl every ↦ rw every (invalidate_all-SoundCourse h s)
      | inr one ↦ elim (Option-cases change.scope) [
        | inl e ↦ rw (one, e, apply_role_change) (invalidate_global-SoundCourse h s)
        | inr (id, e) ↦ rw (one, e, apply_role_change) (invalidate_room-SoundCourse h id s)
      ]
    ]

Step-SoundCourse : {h i : Course} → Step h i → SoundCourse h → SoundCourse i
unfolding store_answer
Step-SoundCourse {h = h} begins_global s = record {
  owner = s.owner;
  sound = s.sound;
  begun_are = (s.sound.global_is, s.begun_are);
}
Step-SoundCourse {h = h} (begins_room id now) s =
    let g = room_slot-Given s.owner h.directory h.log id now s.sound in
    record {
      owner = g.owner_after;
      sound = g.sound;
      begun_are = (g.serves, All-map h.begun (λ b. g.stays b.0 b.1) s.begun_are);
    }
Step-SoundCourse {h = h} (stores slot t m) s =
    let serves = All-In _ (slot, t.lookup) h.begun s.begun_are m in
    record {
      owner = s.owner;
      sound = store_answer-Sound s.owner h.directory h.log slot t serves s.sound;
      begun_are = s.begun_are;
    }
Step-SoundCourse {h = h} drops_global s = invalidate_global-SoundCourse h s
Step-SoundCourse {h = h} (drops_room id) s = invalidate_room-SoundCourse h id s
Step-SoundCourse {h = h} (changes change) s = change-SoundCourse h change s

pub Reach-SoundCourse :
    (config : RoleCacheConfig) {h : Course} → Reach (start config) h → SoundCourse h
Reach-SoundCourse config here = start-SoundCourse config
Reach-SoundCourse config (next before step) =
    Step-SoundCourse step (Reach-SoundCourse config before)
