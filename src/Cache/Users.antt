-- ===== src/Cache/Users.antt =====
-- crates/rocketsocket-cache/src/cache.rs: the operations on users, the queue that bounds them, and
-- the current user.
pub mod Distinct
pub mod Queue
use rocketsocket.Base.{
  ℕ, zero, suc, ◌-◌, String, not, ◌&&◌, Option, none, some, List, [], ◌∷◌, ◌++◌, if◌then◌else◌,
  ◌==◌, ℕ_eq, String_eq, and_then, is_some, retain, Option_eq,
}
use rocketsocket.Cache.DashMap.{DashMap}
use rocketsocket.Cache.Merge.{Json}
use rocketsocket.Cache.Entity.{User, Entities}
use rocketsocket.Cache.Config.{user_cache_size}
use rocketsocket.Cache.Resource
use rocketsocket.Cache.Store.{
  Cache, StoreMode, merge, replace, wants, stored, upsert, reindex, drop_name,
}

abbrev pub username_of : {R : Type 0} → Option (User R) → Option String
username_of o = and_then o (λ u. u.username)

-- The loop of `note_new_user` over the queue: what is left of it, and what it evicts.
unfoldable pub pop_oldest : ℕ → String → List String → List String × List String
pop_oldest zero id order = (order, [])
pop_oldest (suc n) id [] = ([], [])
pop_oldest (suc n) id (oldest ∷ order) =
    let (left, evicted) = pop_oldest n id order in
    if oldest == id then (oldest ∷ order, []) else (left, oldest ∷ evicted)

module _ {D : DashMap} {R : Type 0} where
  unfoldable pub user : Cache D R → String → Option (User R)
  user c id = D.get (User R) c.users id

  unfoldable pub user_id_by_username : Cache D R → String → Option String
  user_id_by_username c username = D.get String c.users_by_username username

  unfoldable pub user_by_username : Cache D R → String → Option (User R)
  unfolding user_id_by_username user
  user_by_username c username = and_then (user_id_by_username c username) (user c)

  unfoldable pub drop_user : Cache D R → String → Cache D R × Option (User R)
  drop_user c id =
      let removed = D.get (User R) c.users id in
      (
        record c {
          users = D.remove (User R) c.users id;
          users_by_username = drop_name D c.users_by_username (username_of removed) id;
        },
        removed,
      )

  unfoldable pub drop_users : Cache D R → List String → Cache D R
  unfolding drop_user
  drop_users c [] = c
  drop_users c (victim ∷ evicted) = drop_users (drop_user c victim).0 evicted

  unfoldable pub note_new_user : Cache D R → String → Cache D R
  unfolding pop_oldest drop_users
  note_new_user c id = elim (user_cache_size c.config) [
    | none ↦ c
    | some capacity ↦
        let over_capacity = D.len (User R) c.users - capacity in
        let (order, evicted) = pop_oldest over_capacity id (c.user_order ++ (id ∷ [])) in
        drop_users (record c { user_order = order }) evicted
  ]

  -- The write to the queue is part of the one record here: the queue stays as it is where the user
  -- was not cached, or where users are not bounded.
  unfoldable pub remove_user : Cache D R → String → Cache D R × Option (User R)
  unfolding drop_user
  remove_user c id =
      let (dropped, removed) = drop_user c id in
      let order =
        if is_some removed && is_some (user_cache_size c.config)
        then retain (λ candidate. not (candidate == id)) dropped.user_order
        else dropped.user_order in
      (record dropped { user_order = order }, removed)

  unfoldable pub current_user_id : Cache D R → Option String
  current_user_id c = elim c.current_user [ none ↦ none | some u ↦ some u.id ]

  module _ {J : Json} (E : Entities J R) where
    -- The body of `store_user` where users are cached.
    unfoldable pub put_user : Cache D R → User R → StoreMode → Cache D R × Option (User R)
    unfolding note_new_user
    put_user c incoming mode =
        let (users, previous, new_username) =
          upsert D E.user c.users incoming.id incoming mode (λ u. u.username) in
        let indexed = record c {
          users = users;
          users_by_username =
              reindex D c.users_by_username (username_of previous) new_username incoming.id;
        } in
        (if is_some previous then indexed else note_new_user indexed incoming.id, previous)

    unfoldable pub store_user : Cache D R → User R → StoreMode → Cache D R × Option (User R)
    unfolding put_user
    store_user c incoming mode =
        if wants c Resource.user then put_user c incoming mode else (c, none)

    unfoldable pub refresh_current_user : Cache D R → User R → StoreMode → Cache D R
    refresh_current_user c incoming mode =
        if wants c Resource.current_user && current_user_id c == some incoming.id
        then record c { current_user = some (stored E.user mode c.current_user incoming) }
        else c

    unfoldable pub replace_user : Cache D R → User R → Cache D R × Option (User R)
    unfolding store_user refresh_current_user
    replace_user c incoming =
        let (c', previous) = store_user c incoming replace in
        (refresh_current_user c' incoming replace, previous)

    unfoldable pub set_current_user : Cache D R → User R → Cache D R
    unfolding store_user
    set_current_user c incoming =
        let c' =
          if wants c Resource.current_user then record c { current_user = some incoming } else c in
        (store_user c' incoming merge).0
