-- ===== src/Realtime/Replay/Forgetting.antt =====
-- Which subscriptions a replay forgets.
use rocketsocket.Base.{
  map, Result-cases, String, ◌≡◌, refl, sym, ap, ◌∙◌, ◌≢◌, ◌⊎◌, inl, inr, Bool, true, false, ◌||◌,
  none, some, List, [], ◌∷◌, arith, ◌==◌, ℕ_eq, String_eq, Bool-cases, Option-cases, Result, ok,
  err, Option_eq,
}
use rocketsocket.Map.{Map, get, remove}
use rocketsocket.Map.Laws.{get-insert, get-remove}
use rocketsocket.Realtime.Correlate.{CallError}
use rocketsocket.Realtime.Subscription.{
  Registry, Entry, StreamKey, to_replay, rekey, forget, pending, insert_sorted, sort_by_id, text_le,
}
use rocketsocket.Realtime.Replay.{replay_each, replay}

-- Whether a list of subscriptions has the id.
unfoldable pub lists : {V : Type 0} → List (String × StreamKey × List V) → String → Bool
lists [] id = false
lists (x ∷ xs) id = x.0 == id || lists xs id

lists-insert_sorted :
    {V : Type 0} (x : String × StreamKey × List V) (xs : List (String × StreamKey × List V))
    (id : String)
    → lists (insert_sorted x xs) id ≡ (x.0 == id || lists xs id)
unfolding lists insert_sorted
lists-insert_sorted x [] id = refl
lists-insert_sorted x (y ∷ ys) id = elim (Bool-cases (text_le x.0 y.0)) [
  | inl before ↦ rw (before, insert_sorted) refl
  | inr after ↦ rw (after, insert_sorted) (ground (arith, lists-insert_sorted x ys id))
]

pub lists-sort_by_id :
    {V : Type 0} (xs : List (String × StreamKey × List V)) (id : String)
    → lists (sort_by_id xs) id ≡ lists xs id
unfolding lists sort_by_id
lists-sort_by_id [] id = refl
lists-sort_by_id (x ∷ xs) id =
    lists-insert_sorted x (sort_by_id xs) id ∙ ground (arith, lists-sort_by_id xs id)

pub listed_lem :
    {V : Type 0} (m : Map String (Entry V)) (id : String) (e : Entry V)
    → get m id ≡ some e
    → lists (map (λ x. (x.0, x.1.key, x.1.params)) m) id ≡ true
unfolding lists get
listed_lem [] id e h = absurd (ground arith)
listed_lem ((j, w) ∷ m) id e h = ground (arith, listed_lem m id e)

pub forget-gone :
    {V : Type 0} (r : Registry V) (old id : String)
    → (get r.by_id id ≡ none) ⊎ (old ≡ id)
    → get (forget r old).0.by_id id ≡ none
unfolding forget
forget-gone r old id h = elim (Option-cases (get r.by_id old)) [
  | inl e ↦ rw (e, forget) (elim h [ inl gone ↦ gone | inr same ↦ sym (ap (get r.by_id) same) ∙ e ])
  | inr (x, e) ↦ rw (e, forget) (ground (arith, get-remove r.by_id old id, String_eq.eq_iff old id))
]

pub rekey-gone :
    {V : Type 0} (r : Registry V) (old new id : String)
    → get r.by_id id ≡ none
    → new ≢ id
    → get (rekey r old new).0.by_id id ≡ none
unfolding rekey
rekey-gone r old new id h apart = elim (Option-cases (get r.by_id old)) [
  | inl e ↦ rw (e, rekey) h
  | inr (x, e) ↦
      rw (e, rekey)
        (ground (
          arith,
          get-insert (remove r.by_id old) new id (record x { state = pending }),
          get-remove r.by_id old id,
          String_eq.eq_iff new id,
        ))
]

module _ {V : Type 0} (answer : String → Result String (CallError V)) (id : String) where
  -- No request is answered with the id as a fresh one.
  abbrev pub NeverFresh : Type 0
  NeverFresh = (old new : String) → answer old ≡ ok new → new ≢ id

  -- What is not remembered, the rest of a replay does not bring back.
  replay_each-gone :
      (r : Registry V) (xs : List (String × StreamKey × List V))
      → NeverFresh
      → get r.by_id id ≡ none
      → get (replay_each answer r xs).0.by_id id ≡ none
  unfolding replay_each
  replay_each-gone r [] fresh h = h
  replay_each-gone r ((old, key, params) ∷ rest) fresh h = elim (Result-cases (answer old)) [
    | inl (new, e) ↦
        rw (e, replay_each)
          (replay_each-gone (rekey r old new).0 rest fresh
            (rekey-gone r old new id h (fresh old new e)))
    | inr (x, e) ↦
        rw (e, replay_each)
          (replay_each-gone (forget r old).0 rest fresh (forget-gone r old id (inl h)))
  ]

  replay_each-forgets :
      (r : Registry V) (xs : List (String × StreamKey × List V)) (x : CallError V)
      → NeverFresh
      → answer id ≡ err x
      → lists xs id ≡ true
      → get (replay_each answer r xs).0.by_id id ≡ none
  unfolding replay_each lists
  replay_each-forgets r [] x fresh failed h = absurd (ground arith)
  replay_each-forgets r ((old, key, params) ∷ rest) x fresh failed h =
      elim (Bool-cases (old == id)) [
        | inl same ↦
            let e : answer old ≡ err x = ap answer ((String_eq.eq_iff old id).0 same) ∙ failed in
            rw (e, replay_each)
              (replay_each-gone (forget r old).0 rest fresh
                (forget-gone r old id (inr ((String_eq.eq_iff old id).0 same))))
        | inr other ↦
            let later : lists rest id ≡ true = ground arith in
            elim (Result-cases (answer old)) [
              | inl (new, e) ↦
                  rw (e, replay_each)
                    (replay_each-forgets (rekey r old new).0 rest x fresh failed later)
              | inr (y, e) ↦
                  rw (e, replay_each)
                    (replay_each-forgets (forget r old).0 rest x fresh failed later)
            ]
      ]

-- A replay forgets a remembered subscription whose request failed, whatever the error is: the
-- server's refusal, or the loss of the connection before an answer. Its id is not among those that
-- the new connection gives out.
pub replay_forgets :
    {V : Type 0} (answer : String → Result String (CallError V)) (r : Registry V) (id : String)
    (e : Entry V) (x : CallError V)
    → NeverFresh answer id
    → get r.by_id id ≡ some e
    → answer id ≡ err x
    → get (replay answer r).0.by_id id ≡ none
unfolding replay to_replay
replay_forgets answer r id e x fresh known failed =
    let entries = map (λ y. (y.0, y.1.key, y.1.params)) r.by_id in
    replay_each-forgets answer id r (sort_by_id entries) x fresh failed
      (lists-sort_by_id entries id ∙ listed_lem r.by_id id e known)
