-- ===== src/Cache/Names.antt =====
-- The secondary indexes of the cache: a name leads to an entity that bears it.
use rocketsocket.Base.{
  String, ◌≡◌, refl, sym, ap, ◌∙◌, ◌≢◌, ◌⊎◌, inl, inr, false, Option, none, some, arith, ◌==◌, ℕ_eq,
  String_eq, Bool-cases, and_then, option_eq_iff, Option_eq,
}
use rocketsocket.Cache.DashMap.{DashMap}
use rocketsocket.Cache.Store.{reindex, drop_name, add_name, remove_if}

module _ (D : DashMap) where
  get-remove_if :
      (index : D.Table String) (a id n j : String)
      → D.get String (remove_if D index a id) n ≡ some j
      → (D.get String index n ≡ some j) × (a ≡ n → id ≢ j)
  unfolding remove_if
  get-remove_if index a id n j h = elim (Bool-cases (D.get String index a == some id)) [
    | inl own ↦ ground (arith, D.get-remove String index a n, String_eq.eq_iff a n)
    | inr other ↦
        ground
          (arith, option_eq_iff (D.get String index a) (some id), ap (λ k. D.get String index k))
  ]

  get-add_name :
      (index : D.Table String) (b id n j : String)
      → D.get String (add_name D index (some b) id) n ≡ some j
      → ((b ≡ n) × (id ≡ j)) ⊎ (D.get String index n ≡ some j)
  unfolding add_name
  get-add_name index b id n j h =
      ground (arith, D.get-insert String index b n id, String_eq.eq_iff b n)

  reindex_ne :
      (index : D.Table String) (old new : Option String) (id : String)
      → (old == new) ≡ false
      → reindex D index old new id ≡ add_name D (drop_name D index old id) new id
  unfolding reindex
  reindex_ne index old new id h = rw h refl

module _ (D : DashMap) {V : Type 0} (name : V → Option String) where
  abbrev pub named : Option V → Option String
  named o = and_then o name

  -- Every entry of the index leads to an entity of the table that bears the name.
  abbrev pub Sound : D.Table V → D.Table String → Type 0
  Sound table index =
      (n j : String) → D.get String index n ≡ some j → named (D.get V table j) ≡ some n

  -- With the table and the name that it gives the entity as they stand.
  drop_name_lem :
      (table : D.Table V) (index : D.Table String) (id n j : String) (old : Option String)
      → named (D.get V table id) ≡ old
      → (D.get String index n ≡ some j → named (D.get V table j) ≡ some n)
      → D.get String (drop_name D index old id) n ≡ some j
      → (named (D.get V table j) ≡ some n) × (id ≢ j)
  unfolding drop_name
  drop_name_lem table index id n j none e sound h =
      let found = sound h in (found, λ same. ground (arith, ap (λ k. named (D.get V table k)) same))
  drop_name_lem table index id n j (some a) e sound h =
      let (found, apart) = get-remove_if D index a id n j h in
      let bears = sound found in
      (bears, λ same. let named_n = ap (λ k. named (D.get V table k)) same in ground arith)

  -- An entity that is removed takes its entry of the index with it.
  pub drop_name-Sound :
      (table : D.Table V) (index : D.Table String) (id : String)
      → Sound table index
      → Sound (D.remove V table id) (drop_name D index (named (D.get V table id)) id)
  drop_name-Sound table index id sound n j h =
      let (found, apart) =
        drop_name_lem table index id n j (named (D.get V table id)) refl (sound n j) h in
      ground (arith, D.get-remove V table id j, String_eq.eq_iff id j)

  -- With the old entry dropped and the new name as it stands.
  written_lem :
      (table : D.Table V) (index : D.Table String) (id n j : String) (v : V) (new : Option String)
      → name v ≡ new
      → (D.get String index n ≡ some j → (named (D.get V table j) ≡ some n) × (id ≢ j))
      → D.get String (add_name D index new id) n ≡ some j
      → named (D.get V (D.insert V table id v) j) ≡ some n
  unfolding add_name
  written_lem table index id n j v none e old h =
      ground (arith, D.get-insert V table id j v, String_eq.eq_iff id j, old h)
  written_lem table index id n j v (some b) e old h = elim (get-add_name D index b id n j h) [
    | inl (same, own) ↦ ground (arith, D.get-insert V table id j v, String_eq.eq_iff id j)
    | inr found ↦ ground (arith, D.get-insert V table id j v, String_eq.eq_iff id j, old found)
  ]

  -- So does one that is written, which gets an entry by its new name.
  pub reindex-Sound :
      (table : D.Table V) (index : D.Table String) (id : String) (v : V)
      → Sound table index
      → Sound (D.insert V table id v) (reindex D index (named (D.get V table id)) (name v) id)
  unfolding reindex
  reindex-Sound table index id v sound n j h =
      elim (Bool-cases (named (D.get V table id) == name v)) [
        | inl same ↦ ground (
          arith,
          D.get-insert V table id j v,
          String_eq.eq_iff id j,
          option_eq_iff (named (D.get V table id)) (name v),
          ap (λ k. named (D.get V table k)),
          sound n j,
        )
        | inr other ↦
            written_lem table (drop_name D index (named (D.get V table id)) id) id n j v (name v)
              refl (drop_name_lem table index id n j (named (D.get V table id)) refl (sound n j))
              (sym (
                  ap (λ m. D.get String m n)
                    (reindex_ne D index (named (D.get V table id)) (name v) id other))
                ∙ h)
      ]
