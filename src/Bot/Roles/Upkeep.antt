-- ===== src/Bot/Roles/Upkeep.antt =====
-- That asking for roles keeps a sound directory sound, and that proofs survive a longer log.
use rocketsocket.Base.{
  ℕ, String, ◌≡◌, refl, ◌∙◌, inl, inr, List, ◌∷◌, ℕ_eq, String_eq, Bool-cases, Option-cases,
  Option_eq,
}
use rocketsocket.Map.Entries.{All-map}
use rocketsocket.Bot.Filter.{Authority, anyone, admin, room_admin, admin_or_room_admin}
use rocketsocket.Bot.Roles.{
  RoleCacheConfig, RoleDirectory, Slot, Lookup, Answer, Inquiry, entry, cached, store_answer,
  room_slot, is_admin, is_room_admin, granted, verdict,
}
use rocketsocket.Bot.Roles.History.{Told, In, later}
use rocketsocket.Bot.Roles.Soundness.{Serves, Sound, room_slot-Given, store_answer-Sound}
use rocketsocket.Bot.Roles.Provenance.{Proven, Entitled, room_slot-config}

-- A longer log.
weaken :
    (owner : Slot → Lookup) (d : RoleDirectory) (log : List Told) (t : Told)
    → Sound owner d log
    → Sound owner d (t ∷ log)
weaken owner d log t s = record {
  global_is = s.global_is;
  rooms_are = s.rooms_are;
  contents = All-map d.slots (λ e (u, told, made, is). (u, later told, made, is)) s.contents;
}

entry-Sound :
    (owner : Slot → Lookup) (d : RoleDirectory) (log : List Told) (slot : Slot) (t : Told)
    → Serves owner d.next slot t.lookup
    → Sound owner d log
    → Sound owner (entry d slot t.lookup t.started t.answer).0 (t ∷ log)
unfolding entry
entry-Sound owner d log slot t serves s = elim (Option-cases (cached d slot t.started)) [
  | inr (e, c) ↦ rw (c, entry) (weaken owner d log t s)
  | inl c ↦ rw (c, entry) (store_answer-Sound owner d log slot t serves s)
]

entry-config :
    (d : RoleDirectory) (slot : Slot) (lookup : Lookup) (started : ℕ) (answer : Answer)
    → (entry d slot lookup started answer).0.config ≡ d.config
unfolding entry store_answer
entry-config d slot lookup started answer = elim (Option-cases (cached d slot started)) [
  | inr (e, c) ↦ rw (c, entry) refl
  | inl c ↦ rw (c, entry) refl
]

-- A directory that is sound, with its settings.
pub record Holds (config : RoleCacheConfig) (log : List Told) (d : RoleDirectory) : Type 0 where
  pub owner : Slot → Lookup
  pub sound : Sound owner d log
  pub config_is : d.config ≡ config

module _ (config : RoleCacheConfig) where
  weaken-Holds :
      (log : List Told) (t : Told) (d : RoleDirectory)
      → Holds config log d
      → Holds config (t ∷ log) d
  weaken-Holds log t d h = record {
    owner = h.owner;
    sound = weaken h.owner d log t h.sound;
    config_is = h.config_is;
  }

  is_admin-Holds :
      (log : List Told) (d : RoleDirectory) (user : String) (q : Inquiry)
      → Holds config log d
      → Holds config
          (record { lookup = Lookup.global; started = q.started; answer = q.answer } ∷ log)
          (is_admin d user q).0
  unfolding is_admin
  is_admin-Holds log d user q h = record {
    owner = h.owner;
    sound = entry-Sound h.owner d log d.global _ h.sound.global_is h.sound;
    config_is = entry-config d d.global Lookup.global q.started q.answer ∙ h.config_is;
  }

  is_room_admin-Holds :
      (log : List Told) (d : RoleDirectory) (user id : String) (q : Inquiry)
      → Holds config log d
      → Holds config
          (record { lookup = Lookup.room id; started = q.started; answer = q.answer } ∷ log)
          (is_room_admin d user id q).0
  unfolding is_room_admin
  is_room_admin-Holds log d user id q h =
      let g = room_slot-Given h.owner d log id q.asked h.sound in
      record {
        owner = g.owner_after;
        sound = entry-Sound g.owner_after _ log _ _ g.serves g.sound;
        config_is =
            entry-config (room_slot d id q.asked).0 (room_slot d id q.asked).1 (Lookup.room id)
              q.started q.answer
            ∙ room_slot-config d id q.asked
            ∙ h.config_is;
      }

  module _ (log : List Told) (d : RoleDirectory) (author id : String) (q q' : Inquiry) where
    abbrev of_global : Told
    of_global = record { lookup = Lookup.global; started = q.started; answer = q.answer }

    abbrev of_room : Told
    of_room = record { lookup = Lookup.room id; started = q'.started; answer = q'.answer }

    pub verdict-Holds :
        (required : Authority)
        → Holds config log d
        → Holds config (of_room ∷ of_global ∷ log) (verdict d required author id q q').0
    unfolding verdict granted
    verdict-Holds anyone h =
        weaken-Holds (of_global ∷ log) of_room d (weaken-Holds log of_global d h)
    verdict-Holds admin h =
        weaken-Holds (of_global ∷ log) of_room _ (is_admin-Holds log d author q h)
    verdict-Holds room_admin h =
        is_room_admin-Holds (of_global ∷ log) d author id q' (weaken-Holds log of_global d h)
    verdict-Holds admin_or_room_admin h =
        let after = is_admin-Holds log d author q h in
        elim (Bool-cases (is_admin d author q).1) [
          | inl global ↦
              rw (global, verdict, granted) (weaken-Holds (of_global ∷ log) of_room _ after)
          | inr other ↦
              rw (other, verdict, granted)
                (is_room_admin-Holds (of_global ∷ log) (is_admin d author q).0 author id q' after)
        ]

Proven-mono :
    (ttl : ℕ) (log total : List Told)
    → ((t : Told) → In t log → In t total)
    → (lookup : Lookup) (user : String) (q : Inquiry) → Proven ttl log lookup user q
    → Proven ttl total lookup user q
Proven-mono ttl log total sub lookup user q (inl (t, listed, told, same, young, answered, lists)) =
    inl (t, listed, sub t told, same, young, answered, lists)
Proven-mono ttl log total sub lookup user q (inr now) = inr now

-- What is proven by a log is proven by one that has all of it.
pub Entitled-mono :
    (ttl : ℕ) (log total : List Told)
    → ((t : Told) → In t log → In t total)
    → (required : Authority) (author id : String) (q q' : Inquiry)
    → Entitled ttl log required author id q q'
    → Entitled ttl total required author id q q'
Entitled-mono ttl log total sub anyone author id q q' h = tt
Entitled-mono ttl log total sub admin author id q q' h = Proven-mono ttl log total sub _ author q h
Entitled-mono ttl log total sub room_admin author id q q' h =
    Proven-mono ttl log total sub _ author q' h
Entitled-mono ttl log total sub admin_or_room_admin author id q q' h = elim h [
  | inl g ↦ inl (Proven-mono ttl log total sub _ author q g)
  | inr r ↦ inr (Proven-mono ttl log total sub _ author q' r)
]
