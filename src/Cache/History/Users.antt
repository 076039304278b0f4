-- ===== src/Cache/History/Users.antt =====
-- The operations on users keep a cache well formed.
use rocketsocket.Base.{
  ℕ, suc, ◌-◌, String, ◌≡◌, refl, ◌&&◌, Option, none, some, List, [], ◌∷◌, ◌++◌, if◌then◌else◌,
  ◌==◌, ℕ_eq, String_eq, if-keeps, is_some, Option_eq,
}
use rocketsocket.Cache.DashMap.{DashMap}
use rocketsocket.Cache.Merge.{Json}
use rocketsocket.Cache.Entity.{User, Entities}
use rocketsocket.Cache.Resource
use rocketsocket.Cache.Store.{Cache, StoreMode, merge, wants, upsert, reindex, remove_all, stored}
use rocketsocket.Cache.Names.{drop_name-Sound, reindex-Sound}
use rocketsocket.Cache.Invariant.{IsValid, NamesRooms, NamesUsers, IsBounded, Queued}
use rocketsocket.Cache.Users.Queue.{
  QueuedFor, evicted-IsQueued, removed-QueuedFor, updated-QueuedFor,
}
use rocketsocket.Cache.Users.{
  username_of, pop_oldest, drop_user, drop_users, note_new_user, remove_user, current_user_id,
  put_user, store_user, refresh_current_user, set_current_user,
}

module _ {D : DashMap} {R : Type 0} where
  -- What holds of a cache beside its queue.
  abbrev Named : Cache D R → Type 0
  Named c = NamesRooms c × NamesUsers c × IsBounded c

  -- Validity does not read the current user.
  reframed-IsValid :
      (c : Cache D R) (current : Option (User R))
      → IsValid c
      → IsValid (record c { current_user = current })
  reframed-IsValid c current v = record {
    rooms_named = v.rooms_named;
    users_named = v.users_named;
    users_queued = v.users_queued;
    rings_bounded = v.rings_bounded;
  }

  drop_user-Named : (c : Cache D R) (id : String) → Named c → Named (drop_user c id).0
  unfolding drop_user
  drop_user-Named c id (rooms, users, rings) =
      (rooms, drop_name-Sound D (λ u. u.username) c.users c.users_by_username id users, rings)

  drop_users-Named :
      (c : Cache D R) (evicted : List String) → Named c → Named (drop_users c evicted)
  unfolding drop_users
  drop_users-Named c [] v = v
  drop_users-Named c (victim ∷ evicted) v =
      drop_users-Named (drop_user c victim).0 evicted (drop_user-Named c victim v)

  drop_users-Queued :
      (c : Cache D R) (evicted : List String)
      → QueuedFor D c.config.user_capacity_pred (remove_all D (User R) c.users evicted) c.user_order
      → Queued (drop_users c evicted)
  unfolding drop_users drop_user remove_all
  drop_users-Queued c [] q = q
  drop_users-Queued c (victim ∷ evicted) q = drop_users-Queued (drop_user c victim).0 evicted q

  evicted-IsValid :
      (c : Cache D R) (order evicted : List String)
      → Named c
      → QueuedFor D c.config.user_capacity_pred (remove_all D (User R) c.users evicted) order
      → IsValid (drop_users (record c { user_order = order }) evicted)
  evicted-IsValid c order evicted v q =
      let (rooms, users, rings) = drop_users-Named (record c { user_order = order }) evicted v in
      record {
        rooms_named = rooms;
        users_named = users;
        rings_bounded = rings;
        users_queued = drop_users-Queued (record c { user_order = order }) evicted q;
      }

  -- A cache with a user written, as it is when the queue hears of a new user.
  abbrev with_user : Cache D R → String → User R → D.Table String → Cache D R
  with_user c id u byname = record c {
    users = D.insert (User R) c.users id u;
    users_by_username = byname;
  }

  -- With the capacity as it stands.
  noted-IsValid :
      (c : Cache D R) (id : String) (u : User R) (byname : D.Table String) (p : Option ℕ)
      → Named (with_user c id u byname)
      → D.get (User R) c.users id ≡ none
      → c.config.user_capacity_pred ≡ p
      → QueuedFor D p c.users c.user_order
      → IsValid
          (elim (elim p as (λ _. Option ℕ) [ none ↦ none | some n ↦ some (suc n) ])
            as (λ _. Cache D R) [
              | none ↦ with_user c id u byname
              | some capacity ↦
                  let (order, evicted) =
                    pop_oldest
                      (D.len (User R) (with_user c id u byname).users - capacity)
                      id
                      (c.user_order ++ (id ∷ [])) in
                  drop_users (record (with_user c id u byname) { user_order = order }) evicted
            ])
  noted-IsValid c id u byname none (rooms, users, rings) fresh e q = record {
    rooms_named = rooms;
    users_named = users;
    rings_bounded = rings;
    users_queued = rw e tt;
  }
  noted-IsValid c id u byname (some n) v fresh e q =
      let over = D.len (User R) (D.insert (User R) c.users id u) - suc n in
      let popped : List String × List String = pop_oldest over id (c.user_order ++ (id ∷ [])) in
      evicted-IsValid (with_user c id u byname) popped.0 popped.1 v
        (rw e (evicted-IsQueued D n c.users c.user_order id u over q fresh refl))

  note_new_user-IsValid :
      (c : Cache D R) (id : String) (u : User R) (byname : D.Table String)
      → Named (with_user c id u byname)
      → D.get (User R) c.users id ≡ none
      → Queued c
      → IsValid (note_new_user (with_user c id u byname) id)
  unfolding note_new_user
  note_new_user-IsValid c id u byname v fresh q =
      noted-IsValid c id u byname c.config.user_capacity_pred v fresh refl q

  pub remove_user-IsValid : (c : Cache D R) (id : String) → IsValid c → IsValid (remove_user c id).0
  unfolding remove_user drop_user
  remove_user-IsValid c id v = record {
    rooms_named = v.rooms_named;
    users_named = drop_name-Sound D (λ u. u.username) c.users c.users_by_username id v.users_named;
    rings_bounded = v.rings_bounded;
    users_queued =
        removed-QueuedFor D c.config.user_capacity_pred c.users c.user_order id
          (D.get (User R) c.users id) refl v.users_queued;
  }

  module _ {J : Json} (E : Entities J R) where
    -- With the previous user as it stands.
    written-IsValid :
        (c : Cache D R) (id : String) (u : User R) (byname : D.Table String)
        (previous : Option (User R))
        → Named (with_user c id u byname)
        → D.get (User R) c.users id ≡ previous
        → Queued c
        → IsValid (
            if is_some previous
            then with_user c id u byname
            else note_new_user (with_user c id u byname) id)
    written-IsValid c id u byname none v e q = note_new_user-IsValid c id u byname v e q
    written-IsValid c id u byname (some old) (rooms, users, rings) e q = record {
      rooms_named = rooms;
      users_named = users;
      rings_bounded = rings;
      users_queued =
          updated-QueuedFor D c.config.user_capacity_pred c.users c.user_order id u old e q;
    }

    put_user-IsValid :
        (c : Cache D R) (u : User R) (mode : StoreMode)
        → IsValid c
        → IsValid (put_user E c u mode).0
    unfolding put_user upsert
    put_user-IsValid c u mode v =
        let new = stored E.user mode (D.get (User R) c.users u.id) u in
        let byname =
          reindex D c.users_by_username (username_of (D.get (User R) c.users u.id)) new.username
            u.id in
        written-IsValid c u.id new byname (D.get (User R) c.users u.id)
          (
            v.rooms_named,
            reindex-Sound D (λ u. u.username) c.users c.users_by_username u.id new v.users_named,
            v.rings_bounded,
          )
          refl v.users_queued

    pub store_user-IsValid :
        (c : Cache D R) (u : User R) (mode : StoreMode)
        → IsValid c
        → IsValid (store_user E c u mode).0
    unfolding store_user
    store_user-IsValid c u mode v =
        if-keeps (λ (p : Cache D R × Option (User R)). IsValid p.0) (wants c Resource.user)
          (put_user-IsValid c u mode v) v

    pub refresh_current_user-IsValid :
        (c : Cache D R) (u : User R) (mode : StoreMode)
        → IsValid c
        → IsValid (refresh_current_user E c u mode)
    unfolding refresh_current_user
    refresh_current_user-IsValid c u mode v =
        if-keeps IsValid (wants c Resource.current_user && current_user_id c == some u.id)
          (reframed-IsValid c (some (stored E.user mode c.current_user u)) v) v

    pub set_current_user-IsValid :
        (c : Cache D R) (u : User R) → IsValid c → IsValid (set_current_user E c u)
    unfolding set_current_user
    set_current_user-IsValid c u v =
        store_user-IsValid _ u merge
          (if-keeps IsValid (wants c Resource.current_user) (reframed-IsValid c (some u) v) v)
