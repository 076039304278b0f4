-- ===== src/Cache/Store.antt =====
-- crates/rocketsocket-cache/src/cache.rs: the cache, and the two helpers that its writes share.
-- Each operation runs whole: writers that interleave are not modelled.
use rocketsocket.Base.{
  ℕ, String, Bool, Option, none, some, List, [], ◌∷◌, if◌then◌else◌, ◌==◌, ℕ_eq, String_eq,
  Option_eq,
}
use rocketsocket.Cache.DashMap.{DashMap}
use rocketsocket.Cache.Merge.{Json, Serde, merge_documents}
use rocketsocket.Cache.Entity.{Room, User, Subscription, Message}
use rocketsocket.Cache.Config.{Config}
use rocketsocket.Cache.Resource
use rocketsocket.Cache.Resource.{ResourceType}

pub data StoreMode : Type 0 where
  merge replace : StoreMode

pub record CacheStats : Type 0 where
  pub rooms : ℕ
  pub users : ℕ
  pub subscriptions : ℕ
  pub messages : ℕ
  pub rooms_with_messages : ℕ

module _ (D : DashMap) (R : Type 0) where
  pub record Cache : Type 0 where
    pub config : Config
    pub rooms : D.Table (Room R)
    pub rooms_by_name : D.Table String
    pub users : D.Table (User R)
    pub users_by_username : D.Table String
    pub subscriptions : D.Table (Subscription R)
    pub messages : D.Table (Message R)
    pub room_messages : D.Table (List String)
    pub current_user : Option (User R)
    pub user_order : List String

  unfoldable pub from_config : Config → Cache
  from_config config = record {
    config = config;
    rooms = D.new (Room R);
    rooms_by_name = D.new String;
    users = D.new (User R);
    users_by_username = D.new String;
    subscriptions = D.new (Subscription R);
    messages = D.new (Message R);
    room_messages = D.new (List String);
    current_user = none;
    user_order = [];
  }

  unfoldable pub clear : Cache → Cache
  unfolding from_config
  clear c = from_config c.config

module _ {D : DashMap} {R : Type 0} where
  unfoldable pub wants : Cache D R → ResourceType → Bool
  wants c kind = Resource.contains c.config.resource_types kind

  unfoldable pub stats : Cache D R → CacheStats
  stats c = record {
    rooms = D.len (Room R) c.rooms;
    users = D.len (User R) c.users;
    subscriptions = D.len (Subscription R) c.subscriptions;
    messages = D.len (Message R) c.messages;
    rooms_with_messages = D.len (List String) c.room_messages;
  }

module _ {J : Json} {V : Type 0} (s : Serde J V) where
  -- What is stored over a cached value.
  unfoldable pub stored : StoreMode → Option V → V → V
  stored mode none incoming = incoming
  stored merge (some cached) incoming = merge_documents s cached incoming
  stored replace (some cached) incoming = incoming

module _ (D : DashMap) {J : Json} {V : Type 0} (s : Serde J V) where
  -- The table, the previous value, and what `derive` makes of the stored one.
  unfoldable pub upsert {ℓ} :
      {B : Type ℓ} → D.Table V → String → V → StoreMode → (V → B) → D.Table V × Option V × B
  unfolding stored
  upsert m key incoming mode derive =
      let previous = D.get V m key in
      let new = stored s mode previous incoming in (D.insert V m key new, previous, derive new)

abbrev pub or_nil : Option (List String) → List String
or_nil none = []
or_nil (some ring) = ring

module _ (D : DashMap) where
  -- `remove_if`, with the test that the entry is that of `id`.
  unfoldable pub remove_if : D.Table String → String → String → D.Table String
  remove_if index name id =
      if D.get String index name == some id then D.remove String index name else index

  -- The two writes of `reindex` where the names differ.
  unfoldable pub drop_name : D.Table String → Option String → String → D.Table String
  unfolding remove_if
  drop_name index none id = index
  drop_name index (some name) id = remove_if index name id

  unfoldable pub add_name : D.Table String → Option String → String → D.Table String
  add_name index none id = index
  add_name index (some name) id = D.insert String index name id

  unfoldable pub reindex : D.Table String → Option String → Option String → String → D.Table String
  unfolding drop_name add_name
  reindex index old new id = if old == new then index else add_name (drop_name index old id) new id

  -- Several entries removed one by one.
  unfoldable pub remove_all : (V : Type 0) → D.Table V → List String → D.Table V
  remove_all V m [] = m
  remove_all V m (id ∷ ids) = remove_all V (D.remove V m id) ids

  -- The ids of a room's ring, none for a room that has no ring.
  abbrev pub ring_of : D.Table (List String) → String → List String
  ring_of m room_id = or_nil (D.get (List String) m room_id)
