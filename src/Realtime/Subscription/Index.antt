-- ===== src/Realtime/Subscription/Index.antt =====
-- The routing index lists exactly the remembered subscriptions, under their keys.
use rocketsocket.Base.{
  String, ◌≡◌, refl, sym, ap, ◌∙◌, inl, inr, Bool, true, false, not, ◌||◌, Option, none, some, List,
  [], ◌∷◌, arith, if◌then◌else◌, ◌==◌, ℕ_eq, String_eq, Bool-cases, Option-cases, retain, elem,
  Option_eq,
}
use rocketsocket.Map.{Map, get, insert}
use rocketsocket.Map.Laws.{get-insert, get-remove}
use rocketsocket.Realtime.Subscription.{
  StreamKey, StreamKey_eq, key_eq_iff, Entry, Registry, or_nil, ids_of, put_back, drop_id, rename,
  rename_id,
}

module _ {V : Type 0} where
  -- Whether a remembered entry has the key.
  abbrev pub has_key : Option (Entry V) → StreamKey → Bool
  has_key none k = false
  has_key (some e) k = e.key == k

  -- A key lists an id exactly when the id is remembered with that key.
  pub record IsConsistent (r : Registry V) : Type 0 where
    pub listed :
        (id : String) (k : StreamKey) → elem (ids_of r.by_key k) id ≡ has_key (get r.by_id id) k

pub elem-rename :
    (old fresh x : String) (xs : List String)
    → elem (rename old fresh xs) x
      ≡ (if fresh == x then (elem xs old || (elem xs x)) else if old == x then false else elem xs x)
unfolding elem rename
elem-rename old fresh x [] = ground arith
elem-rename old fresh x (y ∷ ys) = ground (
  arith,
  elem-rename old fresh x ys,
  String_eq.eq_iff y old,
  String_eq.eq_iff fresh x,
  String_eq.eq_iff old x,
  String_eq.eq_iff y x,
)

or_nil_if :
    (b : Bool) (x y : Option (List String))
    → or_nil (if b then x else y) ≡ (if b then or_nil x else or_nil y)
or_nil_if true x y = refl
or_nil_if false x y = refl

pub ids_of-insert :
    (m : Map StreamKey (List String)) (k j : StreamKey) (ids : List String)
    → ids_of (insert m k ids) j ≡ (if k == j then ids else ids_of m j)
ids_of-insert m k j ids = ap or_nil (get-insert m k j ids) ∙ or_nil_if (k == j) (some ids) (get m j)

pub ids_of-put_back :
    (m : Map StreamKey (List String)) (k j : StreamKey) (ids : List String)
    → ids_of (put_back m k ids) j ≡ (if k == j then ids else ids_of m j)
unfolding put_back
ids_of-put_back m k j [] = ap or_nil (get-remove m k j) ∙ or_nil_if (k == j) none (get m j)
ids_of-put_back m k j (x ∷ xs) = ids_of-insert m k j (x ∷ xs)

pub ids_of_eq :
    (m : Map StreamKey (List String)) (k j : StreamKey) (found : Option (List String))
    → get m k ≡ found
    → (k == j) ≡ true
    → ids_of m j ≡ or_nil found
ids_of_eq m k j found e same = ap or_nil (ap (get m) (sym ((key_eq_iff k j).0 same)) ∙ e)

pub ids_of-drop_id :
    (m : Map StreamKey (List String)) (k j : StreamKey) (id : String)
    → ids_of (drop_id m k id) j
      ≡ (if k == j then retain (λ c. not (c == id)) (ids_of m j) else ids_of m j)
unfolding drop_id
ids_of-drop_id m k j id = elim (Option-cases (get m k)) [
  | inl e ↦ elim (Bool-cases (k == j)) [
    | inl same ↦ rw (e, drop_id, same, ids_of_eq m k j none e same) refl
    | inr other ↦ rw (e, drop_id, other) refl
  ]
  | inr (ids, e) ↦ elim (Bool-cases (k == j)) [
    | inl same ↦ rw (e, drop_id, ids_of-put_back, same, ids_of_eq m k j (some ids) e same) refl
    | inr other ↦ rw (e, drop_id, ids_of-put_back, other) refl
  ]
]

pub ids_of-rename_id :
    (m : Map StreamKey (List String)) (k j : StreamKey) (old fresh : String)
    → ids_of (rename_id m k old fresh) j
      ≡ (if k == j then rename old fresh (ids_of m j) else ids_of m j)
unfolding rename_id
ids_of-rename_id m k j old fresh = elim (Option-cases (get m k)) [
  | inl e ↦ elim (Bool-cases (k == j)) [
    | inl same ↦ rw (e, rename_id, same, ids_of_eq m k j none e same) refl
    | inr other ↦ rw (e, rename_id, other) refl
  ]
  | inr (ids, e) ↦ elim (Bool-cases (k == j)) [
    | inl same ↦ rw (e, rename_id, ids_of-insert, same, ids_of_eq m k j (some ids) e same) refl
    | inr other ↦ rw (e, rename_id, ids_of-insert, other) refl
  ]
]
