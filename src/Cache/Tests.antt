-- ===== src/Cache/Tests.antt =====
-- A cache over association lists, with one room, one user and one message.
mod Assoc
mod Values
use rocketsocket.Base.{
  ℕ, zero, suc, ◌+◌, ◌-◌, ◌*◌, ◌/◌, ◌%◌, ◌^◌, ◌≤◌, ◌<◌, String, ◌≡◌, refl, sym, ap, ◌∙◌, ◌≢◌, ◌↔◌,
  ◌⊎◌, inl, inr, Bool, true, false, not, ◌&&◌, ◌||◌, Option, none, some, List, [], ◌∷◌, ◌++◌, arith,
  ltb, leb, nat_eq, if◌then◌else◌, Eq, ◌==◌, ℕ_eq, String_eq, Bool-cases, if-keeps, elem-append,
  elem-retain, and_then, Option-cases, is_some, is_some_and, Result, ok, err, map_err, length, All,
  retain, elem, option_eq, option_eq_iff, Option_eq,
}
use rocketsocket.Cache.Config.{user_cache_size}
use rocketsocket.Map.{Map, get, contains, insert}
use rocketsocket.Map.Laws.{IsFunctional}
use rocketsocket.Cache.Tests.Assoc.{assoc}
use rocketsocket.Cache.Tests.Values.{json, Document, document, fields_of, document-KeepsFields}
use rocketsocket.Cache.Merge.{Serde, merge_documents}
use rocketsocket.Cache.Merge.Overlay.{merge_all, last_carried, or_else, merge_all_field}
use rocketsocket.Cache.Entity.{Room, User, Subscription, Message, Entities, is_deleted_tombstone}
use rocketsocket.Cache.Config.{Config, default_config, TombstonePolicy, evict}
use rocketsocket.Cache.Resource
use rocketsocket.Cache.Store.{
  Cache, StoreMode, replace, merge, from_config, wants, stats, upsert, reindex, add_name, drop_name,
  remove_all,
}
use rocketsocket.Cache.Rooms.{room_by_name, room_id_by_name, room, store_room, put_room}
use rocketsocket.Cache.Users.{
  user_by_username, user_id_by_username, user, set_current_user, store_user, put_user,
  note_new_user, pop_oldest,
}
use rocketsocket.Cache.Messages.{
  room_message_ids, store_message, message, put_message, link_message, trim,
}
use rocketsocket.Cache.Messages.Tombstones.{store_message_evicts}
use rocketsocket.Cache.Update.{update_user}
use rocketsocket.Cache.Update.Agreement.{Agree, update_user-Agree}
use rocketsocket.Cache.History.{Step, Reach, stores_room, stores_user, stores_message, here, next}
use rocketsocket.Cache.History.Lookups.{
  users_bounded, room_by_name_lem, user_by_username_lem, length-room_message_ids,
}

-- Entities that never merge.
abbrev opaque : {T : Type 0} → Serde json T
opaque = record { to_value = λ t. none; from_value = λ v. none }

abbrev entities : Entities json Unit
entities = record { room = opaque; user = opaque; subscription = opaque; message = opaque }

-- A cache that keeps two messages of a room, and evicts at a tombstone.
abbrev config : Config
config = record {
  resource_types = Resource.all;
  message_cache_size = 2;
  user_capacity_pred = some 1;
  tombstone_policy = evict;
}

abbrev general : Room Unit
general = record { id = "r1"; name = some "general"; rest = tt }

abbrev alice : User Unit
alice = record { id = "u1"; username = some "alice"; rest = tt }

abbrev said : String → Message Unit
said id = record { id = id; rid = "r1"; t = none; edited_at = none; rest = tt }

abbrev tombstone : Message Unit
tombstone = record { id = "m3"; rid = "r1"; t = some "rm"; edited_at = some 5; rest = tt }

abbrev start : Cache assoc Unit
start = from_config assoc Unit config

abbrev with_room : Cache assoc Unit
with_room = (store_room entities start general replace).0

abbrev with_user : Cache assoc Unit
with_user = (store_user entities with_room alice replace).0

abbrev stored : Cache assoc Unit → List String → Cache assoc Unit
stored c [] = c
stored c (id ∷ ids) = stored (store_message entities c (said id) replace).0 ids

abbrev full : Cache assoc Unit
full = stored with_user ("m1" ∷ "m2" ∷ "m3" ∷ [])

full_reached : Reach entities start full
full_reached =
    next
      (next
        (next (next (next here (stores_room general replace)) (stores_user alice replace))
          (stores_message (said "m1") replace))
        (stores_message (said "m2") replace))
      (stores_message (said "m3") replace)

-- The oldest of three messages has gone from the ring of two.
full_ring : room_message_ids full "r1" ≡ "m3" ∷ "m2" ∷ []
unfolding get insert store_room put_room store_user put_user store_message put_message link_message
    trim upsert reindex add_name drop_name note_new_user pop_oldest is_deleted_tombstone from_config
    wants Resource.contains room_message_ids remove_all
full_ring = refl

room_found : room_by_name full "general" ≡ some general
unfolding get insert store_room put_room store_user put_user store_message put_message link_message
    trim upsert reindex add_name drop_name note_new_user pop_oldest is_deleted_tombstone from_config
    wants Resource.contains room_by_name room_id_by_name room remove_all
room_found = refl

user_found : user_by_username full "alice" ≡ some alice
unfolding get insert store_room put_room store_user put_user store_message put_message link_message
    trim upsert reindex add_name drop_name note_new_user pop_oldest is_deleted_tombstone from_config
    wants Resource.contains user_by_username user_id_by_username user remove_all
user_found = refl

messages_wanted : wants start Resource.message ≡ true
unfolding from_config wants Resource.contains
messages_wanted = refl

keeps_messages : (start.config.message_cache_size == 0) ≡ false
unfolding from_config
keeps_messages = refl

evicts : start.config.tombstone_policy ≡ evict
unfolding from_config
evicts = refl

is_tombstone : is_deleted_tombstone tombstone ≡ true
unfolding is_deleted_tombstone
is_tombstone = refl

room_by_name_lem_example : general.name ≡ some "general"
room_by_name_lem_example =
    room_by_name_lem entities config "general" general full_reached room_found

user_by_username_lem_example : alice.username ≡ some "alice"
user_by_username_lem_example =
    user_by_username_lem entities config "alice" alice full_reached user_found

length-room_message_ids_example :
    length (room_message_ids full "r1") ≤ full.config.message_cache_size
length-room_message_ids_example = length-room_message_ids entities config "r1" full_reached

full_capacity : user_cache_size full.config ≡ some 2
unfolding get insert store_room put_room store_user put_user store_message put_message link_message
    trim upsert reindex add_name drop_name note_new_user pop_oldest is_deleted_tombstone from_config
    wants Resource.contains room_message_ids remove_all
full_capacity = refl

users_bounded_example :
    ((stats full).users ≤ 2) × ((id : String) → elem full.user_order id ≡ is_some (user full id))
users_bounded_example = users_bounded entities config 2 full_reached full_capacity

store_message_evicts_example :
    let d : Cache assoc Unit = (store_message entities start tombstone replace).0 in
    (message d "m3" ≡ none)
    × ((elem (room_message_ids d "r1") "m3" ≡ false)
        × ((store_message entities start tombstone replace).1 ≡ message start "m3"))
store_message_evicts_example =
    store_message_evicts entities start tombstone replace messages_wanted keeps_messages evicts
      is_tombstone

-- A renamed user, and the cache in which the user has logged in.
abbrev renamed : User Unit
renamed = record { id = "u1"; username = some "alicia"; rest = tt }

abbrev logged_in : Cache assoc Unit
logged_in = set_current_user entities with_room alice

logged_in-Agree : Agree entities logged_in alice
unfolding get insert store_room put_room set_current_user store_user put_user upsert reindex
    add_name drop_name note_new_user pop_oldest from_config wants Resource.contains user remove_all
logged_in-Agree = record { logged_in = refl; stored_as = refl }

wanted : (wants logged_in Resource.user ≡ true) × (wants logged_in Resource.current_user ≡ true)
unfolding get insert store_room put_room set_current_user store_user put_user upsert reindex
    add_name drop_name note_new_user pop_oldest from_config wants Resource.contains remove_all
wanted = (refl, refl)

update_user-Agree_example :
    ((update_user entities logged_in renamed).current_user
      ≡ some (merge_documents entities.user alice renamed))
    × (user (update_user entities logged_in renamed) "u1"
        ≡ some (merge_documents entities.user alice renamed))
update_user-Agree_example =
    update_user-Agree entities logged_in renamed alice wanted.0 wanted.1 logged_in-Agree refl

-- A cached document, and two payloads, of which the second has no topic.
abbrev cached : Document
cached = record { id = "r1"; topic = none }

abbrev payloads : List Document
payloads = record { id = "r1"; topic = some "new" } ∷ record { id = "r1"; topic = none } ∷ []

merge_all_field_example :
    json.get (document-KeepsFields.fields (merge_all document payloads cached)) "topic"
    ≡ or_else
        (last_carried document document-KeepsFields payloads "topic")
        (json.get (document-KeepsFields.fields cached) "topic")
merge_all_field_example = merge_all_field document document-KeepsFields payloads cached "topic"
