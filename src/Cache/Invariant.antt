-- ===== src/Cache/Invariant.antt =====
-- crates/rocketsocket-cache/src/cache.rs: what keeps a cache well formed between two calls.
use rocketsocket.Base.{◌≤◌, String, arith, ℕ_eq, String_eq, length, Option_eq}
use rocketsocket.Cache.Users.Queue.{QueuedFor, new-QueuedFor}
use rocketsocket.Cache.DashMap.{DashMap}
use rocketsocket.Cache.Entity.{Room, User}
use rocketsocket.Cache.Config.{Config}
use rocketsocket.Cache.Store.{Cache, ring_of, from_config}
use rocketsocket.Cache.Names.{Sound}

module _ {D : DashMap} {R : Type 0} where
  abbrev pub NamesRooms : Cache D R → Type 0
  NamesRooms c = Sound D (λ (r : Room R). r.name) c.rooms c.rooms_by_name

  abbrev pub NamesUsers : Cache D R → Type 0
  NamesUsers c = Sound D (λ (u : User R). u.username) c.users c.users_by_username

  -- No room's ring holds more ids than the configuration allows.
  abbrev pub IsBounded : Cache D R → Type 0
  IsBounded c =
      (room_id : String) → length (ring_of D c.room_messages room_id) ≤ c.config.message_cache_size

  -- The eviction queue lists the cached users, who are at most the configured number.
  abbrev pub Queued : Cache D R → Type 0
  Queued c = QueuedFor D c.config.user_capacity_pred c.users c.user_order

  -- Both indexes are sound, every ring is bounded, and so are the users.
  pub record IsValid (c : Cache D R) : Type 0 where
    pub rooms_named : NamesRooms c
    pub users_named : NamesUsers c
    pub rings_bounded : IsBounded c
    pub users_queued : Queued c

  pub from_config-IsValid : (config : Config) → IsValid (from_config D R config)
  unfolding from_config
  from_config-IsValid config = record {
    rooms_named = λ n j h. ground (arith, D.get-new String n);
    users_named = λ n j h. ground (arith, D.get-new String n);
    users_queued = new-QueuedFor D (User R) config.user_capacity_pred;
    rings_bounded = λ room_id. rw D.get-new (omega arith);
  }
