-- ===== src/Cache/Entity.antt =====
-- crates/rocketsocket-model/src/entity.rs: the entities as the cache reads them. `R` stands for the
-- fields that the cache never reads. Ids are texts.
use rocketsocket.Base.{
  ℕ, String, Bool, ◌&&◌, Option, some, ◌==◌, ℕ_eq, String_eq, is_some, Option_eq,
}
use rocketsocket.Cache.Merge.{Json, Serde}

module _ (R : Type 0) where
  pub record Room : Type 0 where
    pub id : String
    pub name : Option String
    pub rest : R

  pub record User : Type 0 where
    pub id : String
    pub username : Option String
    pub rest : R

  pub record Subscription : Type 0 where
    pub rid : String
    pub rest : R

  -- `t` is the wire tag of the message type, and `edited_at` in milliseconds.
  pub record Message : Type 0 where
    pub id : String
    pub rid : String
    pub t : Option String
    pub edited_at : Option ℕ
    pub rest : R

module _ {R : Type 0} where
  unfoldable pub is_system : Message R → Bool
  is_system m = is_some m.t

  unfoldable pub is_edited : Message R → Bool
  is_edited m = is_some m.edited_at

  unfoldable pub is_deleted_tombstone : Message R → Bool
  unfolding is_edited
  is_deleted_tombstone m = is_edited m && (m.t == some "rm")

-- What `serde` derives for each entity.
pub record Entities (J : Json) (R : Type 0) : Type 0 where
  pub room : Serde J (Room R)
  pub user : Serde J (User R)
  pub subscription : Serde J (Subscription R)
  pub message : Serde J (Message R)
