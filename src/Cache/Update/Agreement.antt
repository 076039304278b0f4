-- ===== src/Cache/Update/Agreement.antt =====
-- The two copies of the user who is logged in.
use rocketsocket.Base.{
  ◌≡◌, refl, sym, ap, ◌∙◌, true, some, if◌then◌else◌, ◌==◌, ℕ_eq, String_eq, option_eq_iff,
  Option_eq,
}
use rocketsocket.Cache.DashMap.{DashMap}
use rocketsocket.Cache.Merge.{Json, merge_documents}
use rocketsocket.Cache.Entity.{User, Entities}
use rocketsocket.Cache.Resource
use rocketsocket.Cache.Config.{Config}
use rocketsocket.Cache.Store.{Cache, merge, wants, upsert, stored}
use rocketsocket.Cache.Users.{user, store_user, put_user, refresh_current_user, current_user_id}
use rocketsocket.Cache.Update.{update_user}

module _ {D : DashMap} {R : Type 0} {J : Json} (E : Entities J R) where
  -- Both copies of the user who is logged in are there, and they are one document.
  pub record Agree (c : Cache D R) (v : User R) : Type 0 where
    pub logged_in : c.current_user ≡ some v
    pub stored_as : user c v.id ≡ some v

  wants_of :
      (d c : Cache D R) (kind : Resource.ResourceType)
      → d.config ≡ c.config
      → wants d kind ≡ wants c kind
  unfolding wants
  wants_of d c kind e = ap (λ (k : Config). Resource.contains k.resource_types kind) e

  stored_user :
      (c : Cache D R) (u v : User R)
      → wants c Resource.user ≡ true
      → D.get (User R) c.users u.id ≡ some v
      → let after = (store_user E c u merge).0 in
        (after.users ≡ D.insert (User R) c.users u.id (merge_documents E.user v u))
        × (after.current_user ≡ c.current_user)
        × (after.config ≡ c.config)
  unfolding store_user put_user upsert stored
  stored_user c u v users got =
      rw (users, store_user, put_user, upsert, got, stored) (refl, refl, refl)

  own_id :
      (c : Cache D R) (u v : User R)
      → c.current_user ≡ some v
      → u.id ≡ v.id
      → current_user_id c ≡ some u.id
  unfolding current_user_id
  own_id c u v logged_in e = rw (logged_in, current_user_id) (ap some (sym e))

  refreshed :
      (c : Cache D R) (u v : User R)
      → wants c Resource.current_user ≡ true
      → c.current_user ≡ some v
      → u.id ≡ v.id
      → refresh_current_user E c u merge
        ≡ record c { current_user = some (merge_documents E.user v u) }
  unfolding refresh_current_user current_user_id stored
  refreshed c u v current logged_in e =
      let same : (current_user_id c == some u.id) ≡ true =
        (option_eq_iff (current_user_id c) (some u.id)).1 (own_id c u v logged_in e) in
      rw (current, refresh_current_user, same, logged_in, stored) refl

  -- Where users and the current user are cached and the two copies of the user who is logged in are
  -- one document, they are one after a payload with that user's id, the old one with the payload
  -- merged over it.
  pub update_user-Agree :
      (c : Cache D R) (u v : User R)
      → wants c Resource.user ≡ true
      → wants c Resource.current_user ≡ true
      → Agree c v
      → u.id ≡ v.id
      → ((update_user E c u).current_user ≡ some (merge_documents E.user v u))
        × (user (update_user E c u) v.id ≡ some (merge_documents E.user v u))
  unfolding update_user user
  update_user-Agree c u v users current a e =
      let after = (store_user E c u merge).0 in
      let (table, kept, config) =
        stored_user c u v users (ap (D.get (User R) c.users) e ∙ a.stored_as) in
      let fresh =
        refreshed after u v (wants_of after c Resource.current_user config ∙ current)
          (kept ∙ a.logged_in) e in
      (
        ap (λ d. d.current_user) fresh,
        ap (λ d. D.get (User R) d.users v.id) fresh
            ∙ ap (λ m. D.get (User R) m v.id) table
            ∙ D.get-insert (User R) c.users u.id v.id (merge_documents E.user v u)
            ∙ ap (λ b. if b then some (merge_documents E.user v u) else D.get (User R) c.users v.id)
                ((String_eq.eq_iff u.id v.id).1 e),
      )
