-- ===== src/Cache/Update.antt =====
-- crates/rocketsocket-cache/src/update.rs: what a payload does to the cache, `UpdateCache`. Each
-- implementation of its method has a function of its own.
pub mod Agreement
use rocketsocket.Base.{
  ℕ, zero, suc, ◌+◌, ◌-◌, ◌*◌, ◌/◌, ◌%◌, ◌^◌, ◌≤◌, ◌<◌, String, ◌≡◌, refl, sym, ap, ◌∙◌, ◌≢◌, ◌↔◌,
  ◌⊎◌, inl, inr, Bool, true, false, not, ◌&&◌, ◌||◌, Option, none, some, List, [], ◌∷◌, ◌++◌, arith,
  ltb, leb, nat_eq, if◌then◌else◌, Eq, ◌==◌, ℕ_eq, String_eq, Bool-cases, if-keeps, Result-cases,
  elem-append, elem-retain, and_then, Option-cases, is_some, is_some_and, Result, ok, err, map_err,
  length, All, retain, elem, option_eq, option_eq_iff, Option_eq,
}
use rocketsocket.Cache.DashMap.{DashMap}
use rocketsocket.Cache.Merge.{Json}
use rocketsocket.Cache.Entity.{Room, User, Subscription, Message, Entities}
use rocketsocket.Cache.Store.{Cache, merge, replace}
use rocketsocket.Cache.Rooms.{store_room, store_subscription}
use rocketsocket.Cache.Users.{store_user, refresh_current_user}
use rocketsocket.Cache.Messages.{store_message}

module _ {D : DashMap} {R : Type 0} {J : Json} (E : Entities J R) where
  unfoldable pub update_room : Cache D R → Room R → Cache D R
  update_room c r = (store_room E c r replace).0

  unfoldable pub update_user : Cache D R → User R → Cache D R
  update_user c u = refresh_current_user E (store_user E c u merge).0 u merge

  unfoldable pub update_subscription : Cache D R → Subscription R → Cache D R
  update_subscription c s = (store_subscription E c s merge).0

  unfoldable pub update_message : Cache D R → Message R → Cache D R
  update_message c m = (store_message E c m replace).0

module _ {D : DashMap} {R T : Type 0} (update : Cache D R → T → Cache D R) where
  -- For a slice, and so for a vector.
  unfoldable pub update_each : Cache D R → List T → Cache D R
  update_each c [] = c
  update_each c (item ∷ items) = update_each (update c item) items

  unfoldable pub update_optional : Cache D R → Option T → Cache D R
  update_optional c none = c
  update_optional c (some value) = update c value
