-- ===== src/Cache/Config.antt =====
-- crates/rocketsocket-cache/src/config.rs: the configuration of a cache, and its builder.
use rocketsocket.Base.{ℕ, zero, suc, Option, none, some, ℕ_eq, String_eq, Option_eq}
use rocketsocket.Cache.Resource
use rocketsocket.Cache.Resource.{ResourceType}

pub data TombstonePolicy : Type 0 where
  replace evict : TombstonePolicy

abbrev pub default_message_cache_size : ℕ
default_message_cache_size = 100

abbrev pub default_user_cache_size : ℕ
default_user_cache_size = 10000

-- The user capacity is a `NonZeroUsize`: `some n` stands for the capacity `suc n`.
pub record Config : Type 0 where
  pub resource_types : ResourceType
  pub message_cache_size : ℕ
  pub user_capacity_pred : Option ℕ
  pub tombstone_policy : TombstonePolicy

-- `Config::user_cache_size`.
abbrev pub user_cache_size : Config → Option ℕ
user_cache_size c = elim c.user_capacity_pred [ none ↦ none | some n ↦ some (suc n) ]

-- `NonZeroUsize::new`, less one.
unfoldable pub non_zero : ℕ → Option ℕ
non_zero zero = none
non_zero (suc n) = some n

unfoldable pub default_config : Config
unfolding non_zero
default_config = record {
  resource_types = Resource.all;
  message_cache_size = default_message_cache_size;
  user_capacity_pred = non_zero default_user_cache_size;
  tombstone_policy = replace;
}
