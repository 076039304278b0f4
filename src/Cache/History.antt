-- ===== src/Cache/History.antt =====
-- crates/rocketsocket-cache/src/cache.rs: the operations of the cache that write, as steps.
mod Rooms
mod Users
mod Messages
pub mod Lookups
use rocketsocket.Base.{
  ℕ, zero, suc, ◌+◌, ◌-◌, ◌*◌, ◌/◌, ◌%◌, ◌^◌, ◌≤◌, ◌<◌, String, ◌≡◌, refl, sym, ap, ◌∙◌, ◌≢◌, ◌↔◌,
  ◌⊎◌, inl, inr, Bool, true, false, not, ◌&&◌, ◌||◌, Option, none, some, List, [], ◌∷◌, ◌++◌, arith,
  ltb, leb, nat_eq, if◌then◌else◌, Eq, ◌==◌, ℕ_eq, String_eq, Bool-cases, if-keeps, and_then,
  Option-cases, is_some, is_some_and, Result, ok, err, map_err, length, All, retain, elem,
  option_eq, option_eq_iff, Option_eq,
}
use rocketsocket.Cache.DashMap.{DashMap}
use rocketsocket.Cache.Merge.{Json}
use rocketsocket.Cache.Entity.{Room, User, Subscription, Message, Entities}
use rocketsocket.Cache.Config.{Config}
use rocketsocket.Cache.Store.{
  Cache, StoreMode, merge, replace, wants, upsert, reindex, drop_name, remove_all, ring_of,
  from_config, clear, stored,
}
use rocketsocket.Cache.Rooms.{
  name_of, room, room_by_name, room_id_by_name, remove_room, remove_subscription, put_room,
  store_room, put_subscription, store_subscription,
}
use rocketsocket.Cache.Users.{
  set_current_user, store_user, replace_user, refresh_current_user, remove_user, note_new_user,
}
use rocketsocket.Cache.Messages.{remove_message, remove_message_in, store_message, room_message_ids}
use rocketsocket.Cache.Names.{Sound, drop_name-Sound, reindex-Sound}

module _ {D : DashMap} {R : Type 0} {J : Json} (E : Entities J R) where
  -- One call on the cache. Those that replace or merge are those that store, with the mode.
  pub data Step (c : Cache D R) : Cache D R → Type 0 where
    stores_room : (r : Room R) (mode : StoreMode) → Step c (store_room E c r mode).0
    removes_room : (id : String) → Step c (remove_room c id).0
    stores_user : (u : User R) (mode : StoreMode) → Step c (store_user E c u mode).0
    removes_user : (id : String) → Step c (remove_user c id).0
    sets_current_user : (u : User R) → Step c (set_current_user E c u)
    refreshes_current_user :
        (u : User R) (mode : StoreMode) → Step c (refresh_current_user E c u mode)
    stores_subscription :
        (s : Subscription R) (mode : StoreMode) → Step c (store_subscription E c s mode).0
    removes_subscription : (room_id : String) → Step c (remove_subscription c room_id).0
    stores_message : (m : Message R) (mode : StoreMode) → Step c (store_message E c m mode).0
    removes_message : (id : String) → Step c (remove_message c id).0
    removes_message_in : (room_id id : String) → Step c (remove_message_in c room_id id).0
    clears : Step c (clear D R c)

  pub data Reach (c : Cache D R) : Cache D R → Type 0 where
    here : Reach c c
    next : {d e : Cache D R} → Reach c d → Step d e → Reach c e
