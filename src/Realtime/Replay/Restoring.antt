-- ===== src/Realtime/Replay/Restoring.antt =====
-- Which subscriptions a replay restores.
use rocketsocket.Base.{
  map, String, ◌≡◌, refl, sym, ap, ◌∙◌, ◌≢◌, inl, inr, true, false, Option, none, some, List, [],
  ◌∷◌, arith, ◌==◌, ℕ_eq, String_eq, Bool-cases, Result-cases, Option-cases, Result, ok, Option_eq,
}
use rocketsocket.Map.{Map, get, remove}
use rocketsocket.Map.Laws.{get-insert, get-remove}
use rocketsocket.Realtime.Correlate.{CallError}
use rocketsocket.Realtime.Subscription.{
  Registry, Entry, StreamKey, pending, to_replay, rekey, forget, sort_by_id, with_state,
}
use rocketsocket.Realtime.Replay.{replay_each, replay}
use rocketsocket.Realtime.Replay.Forgetting.{
  NeverFresh, lists, lists-sort_by_id, listed_lem, forget-gone, rekey-gone,
}

unlisted_lem :
    {V : Type 0} (m : Map String (Entry V)) (id : String)
    → get m id ≡ none
    → lists (map (λ x. (x.0, x.1.key, x.1.params)) m) id ≡ false
unfolding lists get
unlisted_lem [] id h = refl
unlisted_lem ((j, w) ∷ m) id h = ground (arith, unlisted_lem m id)

module _ {V : Type 0} where
  forget-kept :
      (r : Registry V) (old id : String) (o : Option (Entry V))
      → get r.by_id id ≡ o
      → old ≢ id
      → get (forget r old).0.by_id id ≡ o
  unfolding forget
  forget-kept r old id o h apart = elim (Option-cases (get r.by_id old)) [
    | inl e ↦ rw (e, forget) h
    | inr (x, e) ↦
        rw (e, forget) (ground (arith, get-remove r.by_id old id, String_eq.eq_iff old id))
  ]

  rekey-kept :
      (r : Registry V) (old new id : String) (o : Option (Entry V))
      → get r.by_id id ≡ o
      → old ≢ id
      → new ≢ id
      → get (rekey r old new).0.by_id id ≡ o
  unfolding rekey
  rekey-kept r old new id o h apart fresh = elim (Option-cases (get r.by_id old)) [
    | inl e ↦ rw (e, rekey) h
    | inr (x, e) ↦
        rw (e, rekey)
          (ground (
            arith,
            get-insert (remove r.by_id old) new id (with_state pending x),
            get-remove r.by_id old id,
            String_eq.eq_iff old id,
            String_eq.eq_iff new id,
          ))
  ]

  -- The renamed subscription stands under the new id alone.
  rekey-moved :
      (r : Registry V) (old new : String) (e : Entry V)
      → get r.by_id old ≡ some e
      → new ≢ old
      → (get (rekey r old new).0.by_id new ≡ some (with_state pending e))
        × (get (rekey r old new).0.by_id old ≡ none)
  unfolding rekey
  rekey-moved r old new e h fresh =
      rw (h, rekey)
        (
          ground (
            arith,
            get-insert (remove r.by_id old) new new (with_state pending e),
            String_eq.eq_iff new new,
          ),
          ground (
            arith,
            get-insert (remove r.by_id old) new old (with_state pending e),
            get-remove r.by_id old old,
            String_eq.eq_iff new old,
            String_eq.eq_iff old old,
          ),
        )

  rekey_absent :
      (r : Registry V) (old new : String) → get r.by_id old ≡ none → (rekey r old new).0 ≡ r
  unfolding rekey
  rekey_absent r old new h = rw (h, rekey) refl

  module _ (answer : String → Result String (CallError V)) (id new : String) (e : Entry V) where
    -- Once a subscription is restored, the rest of the replay leaves it.
    replay_each-kept :
        (r : Registry V) (xs : List (String × StreamKey × List V))
        → NeverFresh answer id
        → ((old : String) → answer old ≡ ok new → old ≡ id)
        → lists xs new ≡ false
        → get r.by_id new ≡ some e
        → get r.by_id id ≡ none
        → get (replay_each answer r xs).0.by_id new ≡ some e
    unfolding replay_each lists
    replay_each-kept r [] fresh once others h gone = h
    replay_each-kept r ((old, key, params) ∷ rest) fresh once others h gone =
        let apart : old ≢ new = λ same. ground (arith, String_eq.eq_iff old new) in
        let later : lists rest new ≡ false = ground arith in
        elim (Result-cases (answer old)) [
          | inl (n, a) ↦
              rw (a, replay_each)
                (elim (Bool-cases (n == new)) [
                  | inl same ↦
                      let old_id = once old (a ∙ ap ok ((String_eq.eq_iff n new).0 same)) in
                      rw (rekey_absent r old n (ap (get r.by_id) old_id ∙ gone))
                        (replay_each-kept r rest fresh once later h gone)
                  | inr other ↦
                      replay_each-kept (rekey r old n).0 rest fresh once later
                        (rekey-kept r old n new (some e) h apart
                          (λ s. ground (arith, String_eq.eq_iff n new)))
                        (rekey-gone r old n id gone (fresh old n a))
                ])
          | inr (x, a) ↦
              rw (a, replay_each)
                (replay_each-kept (forget r old).0 rest fresh once later
                  (forget-kept r old new (some e) h apart) (forget-gone r old id (inl gone)))
        ]

  module _ (answer : String → Result String (CallError V)) (id new : String) (e : Entry V) where
    replay_each-restores :
        (r : Registry V) (xs : List (String × StreamKey × List V))
        → NeverFresh answer id
        → ((old : String) → answer old ≡ ok new → old ≡ id)
        → answer id ≡ ok new
        → lists xs new ≡ false
        → lists xs id ≡ true
        → get r.by_id id ≡ some e
        → get (replay_each answer r xs).0.by_id new ≡ some (with_state pending e)
    unfolding replay_each lists
    replay_each-restores r [] fresh once given others listed h = absurd (ground arith)
    replay_each-restores r ((old, key, params) ∷ rest) fresh once given others listed h =
        let later : lists rest new ≡ false = ground arith in
        elim (Bool-cases (old == id)) [
          | inl same ↦
              let old_id = (String_eq.eq_iff old id).0 same in
              let (there, gone) =
                rekey-moved r old new e (ap (get r.by_id) old_id ∙ h)
                  (λ s. fresh id new given (s ∙ old_id)) in
              rw (ap answer old_id ∙ given, replay_each)
                (replay_each-kept answer id new (with_state pending e) (rekey r old new).0 rest
                  fresh once later there (sym (ap (get (rekey r old new).0.by_id) old_id) ∙ gone))
          | inr other ↦
              let apart : old ≢ id = λ s. ground (arith, String_eq.eq_iff old id) in
              let listed_later : lists rest id ≡ true = ground arith in
              elim (Result-cases (answer old)) [
                | inl (n, a) ↦
                    rw (a, replay_each)
                      (replay_each-restores (rekey r old n).0 rest fresh once given later
                        listed_later (rekey-kept r old n id (some e) h apart (fresh old n a)))
                | inr (x, a) ↦
                    rw (a, replay_each)
                      (replay_each-restores (forget r old).0 rest fresh once given later
                        listed_later (forget-kept r old id (some e) h apart))
              ]
        ]

-- A replay keeps a remembered subscription whose request succeeded, under the fresh id that it
-- got, with its key and parameters, and pending. The fresh id is not remembered before, no other
-- request gets it, and no request gets the old id.
pub replay_restores :
    {V : Type 0} (answer : String → Result String (CallError V)) (r : Registry V) (id new : String)
    (e : Entry V)
    → NeverFresh answer id
    → ((old : String) → answer old ≡ ok new → old ≡ id)
    → get r.by_id new ≡ none
    → get r.by_id id ≡ some e
    → answer id ≡ ok new
    → get (replay answer r).0.by_id new ≡ some (with_state pending e)
unfolding replay to_replay
replay_restores answer r id new e fresh once unknown known given =
    let entries = map (λ y. (y.0, y.1.key, y.1.params)) r.by_id in
    replay_each-restores answer id new e r (sort_by_id entries) fresh once given
      (lists-sort_by_id entries new ∙ unlisted_lem r.by_id new unknown)
      (lists-sort_by_id entries id ∙ listed_lem r.by_id id e known) known
