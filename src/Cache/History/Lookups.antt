-- ===== src/Cache/History/Lookups.antt =====
-- What holds of every cache that the operations reach.
use rocketsocket.Base.{
  ℕ, suc, ◌≤◌, String, ◌≡◌, refl, sym, ap, ◌∙◌, Option, none, some, List, arith, ℕ_eq, String_eq,
  and_then, is_some, length, elem, Option_eq,
}
use mathlib.Core.Path.{subst}
use rocketsocket.Cache.Users.Queue.{QueuedFor, IsQueued}
use rocketsocket.Cache.Config.{user_cache_size}
use rocketsocket.Cache.DashMap.{DashMap}
use rocketsocket.Cache.Merge.{Json}
use rocketsocket.Cache.Entity.{Room, User, Entities}
use rocketsocket.Cache.Config.{Config}
use rocketsocket.Cache.Store.{Cache, from_config, clear, stats}
use rocketsocket.Cache.Rooms.{name_of, room_by_name, room_id_by_name, room}
use rocketsocket.Cache.Users.{username_of, user_by_username, user_id_by_username, user}
use rocketsocket.Cache.Messages.{room_message_ids}
use rocketsocket.Cache.Invariant.{IsValid, from_config-IsValid}
use rocketsocket.Cache.History.{
  Step, Reach, stores_room, removes_room, stores_user, removes_user, sets_current_user,
  refreshes_current_user, stores_subscription, removes_subscription, stores_message,
  removes_message, removes_message_in, clears, here, next,
}
use rocketsocket.Cache.History.Rooms.{
  remove_room-IsValid, remove_subscription-IsValid, store_room-IsValid, store_subscription-IsValid,
}
use rocketsocket.Cache.History.Users.{
  remove_user-IsValid, store_user-IsValid, refresh_current_user-IsValid, set_current_user-IsValid,
}
use rocketsocket.Cache.History.Messages.{
  remove_message-IsValid, remove_message_in-IsValid, store_message-IsValid,
}

-- What is found through an index stands under an id that the index gives.
found_by :
    {V : Type 0} (o : Option String) (get : String → Option V) (v : V)
    → and_then o get ≡ some v
    → (id : String) × ((o ≡ some id) × (get id ≡ some v))
found_by none get v h = ground arith
found_by (some id) get v h = (id, (refl, h))

-- The queue's part of validity where there is a capacity.
queued_lem :
    {D : DashMap} {V : Type 0} {users : D.Table V} {order : List String} (p : Option ℕ) (n : ℕ)
    → elim p as (λ _. Option ℕ) [ none ↦ none | some m ↦ some (suc m) ] ≡ some n
    → QueuedFor D p users order
    → IsQueued D n users order
queued_lem none n e q = absurd (ground arith)
queued_lem {D} {users} {order} (some m) n e q =
    let same : suc m ≡ n = ground arith in subst (λ k. IsQueued D k users order) same q

module _ {D : DashMap} {R : Type 0} {J : Json} (E : Entities J R) where
  clear-IsValid : (c : Cache D R) → IsValid (clear D R c)
  unfolding clear
  clear-IsValid c = from_config-IsValid c.config

  Step-IsValid : {c d : Cache D R} → IsValid c → Step E c d → IsValid d
  Step-IsValid {c} v (stores_room r mode) = store_room-IsValid E c r mode v
  Step-IsValid {c} v (removes_room id) = remove_room-IsValid c id v
  Step-IsValid {c} v (stores_user u mode) = store_user-IsValid E c u mode v
  Step-IsValid {c} v (removes_user id) = remove_user-IsValid c id v
  Step-IsValid {c} v (sets_current_user u) = set_current_user-IsValid E c u v
  Step-IsValid {c} v (refreshes_current_user u mode) = refresh_current_user-IsValid E c u mode v
  Step-IsValid {c} v (stores_subscription s mode) = store_subscription-IsValid E c s mode v
  Step-IsValid {c} v (removes_subscription room_id) = remove_subscription-IsValid c room_id v
  Step-IsValid {c} v (stores_message m mode) = store_message-IsValid E c m mode v
  Step-IsValid {c} v (removes_message id) = remove_message-IsValid c id v
  Step-IsValid {c} v (removes_message_in room_id id) = remove_message_in-IsValid c room_id id v
  Step-IsValid {c} v clears = clear-IsValid c

  Reach-IsValid : (config : Config) {c : Cache D R} → Reach E (from_config D R config) c → IsValid c
  Reach-IsValid config here = from_config-IsValid config
  Reach-IsValid config (next reach step) = Step-IsValid (Reach-IsValid config reach) step

  -- In a cache that the operations reach from an empty one, a room that is found by a name bears
  -- that name.
  pub room_by_name_lem :
      (config : Config) {c : Cache D R} (n : String) (r : Room R)
      → Reach E (from_config D R config) c
      → room_by_name c n ≡ some r
      → r.name ≡ some n
  unfolding room_by_name room_id_by_name room
  room_by_name_lem config {c} n r reach h =
      let (id, (listed, found)) = found_by (room_id_by_name c n) (room c) r h in
      sym (ap name_of found) ∙ (Reach-IsValid config reach).rooms_named n id listed

  -- In a cache that the operations reach from an empty one, a user that is found by a username
  -- bears that username.
  pub user_by_username_lem :
      (config : Config) {c : Cache D R} (n : String) (u : User R)
      → Reach E (from_config D R config) c
      → user_by_username c n ≡ some u
      → u.username ≡ some n
  unfolding user_by_username user_id_by_username user
  user_by_username_lem config {c} n u reach h =
      let (id, (listed, found)) = found_by (user_id_by_username c n) (user c) u h in
      sym (ap username_of found) ∙ (Reach-IsValid config reach).users_named n id listed

  -- In a cache that the operations reach from an empty one, no room has more message ids than the
  -- configured size.
  pub length-room_message_ids :
      (config : Config) {c : Cache D R} (room_id : String)
      → Reach E (from_config D R config) c
      → length (room_message_ids c room_id) ≤ c.config.message_cache_size
  unfolding room_message_ids
  length-room_message_ids config room_id reach = (Reach-IsValid config reach).rings_bounded room_id

  -- In a cache that the operations reach from an empty one, with a capacity for users, the users
  -- are at most that many, and the eviction queue lists exactly the cached ones.
  pub users_bounded :
      (config : Config) {c : Cache D R} (n : ℕ)
      → Reach E (from_config D R config) c
      → user_cache_size c.config ≡ some n
      → ((stats c).users ≤ n) × ((id : String) → elem c.user_order id ≡ is_some (user c id))
  unfolding stats user
  users_bounded config {c} n reach e =
      let q =
        queued_lem {D = D} {V = User R} {users = c.users} {order = c.user_order}
          c.config.user_capacity_pred n e (Reach-IsValid config reach).users_queued in
      (q.bounded, q.listed)
