-- ===== src/Realtime/Correlate/Wire/Marks.antt =====
-- The marks of the frames that are on the wire, and the end of the connection.
use mathlib.Core.Option.{some-injective}
use mathlib.Core.List.{Mem}
use mathlib.Core.Path.{subst}
use rocketsocket.Base.{
  ℕ, String, ◌≡◌, refl, sym, ap, ◌∙◌, inl, inr, Bool, true, ◌||◌, some, List, [], ◌∷◌, arith,
  if◌then◌else◌, ◌==◌, ℕ_eq, String_eq, Bool-cases, Option-cases, err, elem, Option_eq,
}
use rocketsocket.Map.{get}
use rocketsocket.Map.Laws.{get-insert}
use rocketsocket.Realtime.Correlate.{
  Correlator, Pending, Reply, mark_sent, disconnect, fail_all, abandoned, not_sent,
}
use rocketsocket.Realtime.Correlate.Settling.{verdict, fail_all-mem}
use rocketsocket.Realtime.Correlate.Invariant.{IsValid, mark_sent-IsValid, disconnect-IsValid}
use rocketsocket.Realtime.Correlate.Wire.{Tracks}

module _ {S : Type 0} where
  -- The calls of the ids are marked.
  abbrev pub mark_each : Correlator S → List String → Correlator S
  mark_each c [] = c
  mark_each c (id ∷ ids) = mark_each (mark_sent c id) ids

  -- What a mark leaves of an entry.
  get-mark_sent :
      (c : Correlator S) (id j : String) (p : Pending S)
      → get (mark_sent c id).pending j ≡ some p
      → (q : Pending S) × (get c.pending j ≡ some q)
        × (p.sent ≡ (q.sent || id == j))
        × (p.reply ≡ q.reply)
  unfolding mark_sent
  get-mark_sent c id j p e = elim (Option-cases (get c.pending id)) [
    | inl absent ↦
        let same_entry = rw (absent, mark_sent) at e in
        (p, same_entry, ground (arith, String_eq.eq_iff id j, same_entry, absent), refl)
    | inr (q, found) ↦
        let marked : Pending S = record q { sent = true } in
        let stored = rw (get-insert c.pending id j marked) at (rw (found, mark_sent) at e) in
        elim (Bool-cases (id == j)) [
          | inl same ↦
              let named : id ≡ j = (String_eq.eq_iff id j).0 same in
              let kept : marked ≡ p = some-injective marked p (rw same at stored) in
              let here_found : get c.pending j ≡ some q = rw (named) at found in
              let is_sent : true ≡ p.sent = ap (λ (x : Pending S). x.sent) kept in
              (
                q,
                here_found,
                ground (arith, is_sent, same),
                sym (ap (λ (x : Pending S). x.reply) kept),
              )
          | inr other ↦ (p, rw other at stored, ground (arith, other), refl)
        ]
  ]

  pub get-mark_each :
      (c : Correlator S) (ids : List String) (j : String) (p : Pending S)
      → get (mark_each c ids).pending j ≡ some p
      → (q : Pending S) × (get c.pending j ≡ some q)
        × (p.sent ≡ (q.sent || elem ids j))
        × (p.reply ≡ q.reply)
  unfolding elem
  get-mark_each c [] j p e = (p, e, ground arith, refl)
  get-mark_each c (id ∷ ids) j p e =
      let (q, found, told, kept) = get-mark_each (mark_sent c id) ids j p e in
      let (q', found', told', kept') = get-mark_sent c id j q found in
      (q', found', ground (arith, told, told'), kept ∙ kept')

  fixed-mark_sent :
      (c : Correlator S) (id : String)
      → ((mark_sent c id).next_id ≡ c.next_id) × ((mark_sent c id).prefix ≡ c.prefix)
  unfolding mark_sent
  fixed-mark_sent c id = elim (Option-cases (get c.pending id)) [
    | inl e ↦ rw (e, mark_sent) (refl, refl)
    | inr (p, e) ↦ rw (e, mark_sent) (refl, refl)
  ]

  fixed-mark_each :
      (c : Correlator S) (ids : List String)
      → IsValid c
      → IsValid (mark_each c ids)
        × ((mark_each c ids).next_id ≡ c.next_id)
        × ((mark_each c ids).prefix ≡ c.prefix)
  fixed-mark_each c [] v = (v, refl, refl)
  fixed-mark_each c (id ∷ ids) v =
      let (v', n, f) = fixed-mark_each (mark_sent c id) ids (mark_sent-IsValid c id v) in
      let (n', f') = fixed-mark_sent c id in (v', n ∙ n', f ∙ f')

  -- What was not known to be flushed is, and its calls are marked.
  pub flush-Tracks :
      (c : Correlator S) (handed unflushed priority app : List String) (room : ℕ)
      → Tracks c handed unflushed priority app room
      → Tracks (mark_each c unflushed) handed [] priority app room
  unfolding elem
  flush-Tracks c handed unflushed priority app room t =
      let (v, n, f) = fixed-mark_each c unflushed t.valid in
      record {
        valid = v;
        enough = rw n t.enough;
        handed_issued = rw (n, f) t.handed_issued;
        unflushed_issued = tt;
        priority_issued = rw (n, f) t.priority_issued;
        app_issued = rw (n, f) t.app_issued;
        told = λ id p e.
            let (q, found, told, kept) = get-mark_each c unflushed id p e in
            ground (arith, t.told id q found, told);
      }

  -- A disconnect starts over, with the frames that no socket has.
  pub disconnect-Tracks :
      (V : Type 0) (is_open : S → Bool) (c : Correlator S)
      (handed unflushed priority app : List String) (room : ℕ)
      → Tracks c handed unflushed priority app room
      → Tracks (disconnect {V = V} is_open c).0 [] [] [] [] room
  unfolding disconnect get
  disconnect-Tracks V is_open c handed unflushed priority app room t = record {
    valid = disconnect-IsValid V is_open c t.valid;
    enough = t.enough;
    handed_issued = tt;
    unflushed_issued = tt;
    priority_issued = tt;
    app_issued = tt;
    told = λ id p e. cc;
  }

  -- A mark loses no entry.
  found-mark_sent :
      (c : Correlator S) (id j : String) (q : Pending S)
      → get c.pending j ≡ some q
      → (p : Pending S) × (get (mark_sent c id).pending j ≡ some p) × (p.reply ≡ q.reply)
  unfolding mark_sent
  found-mark_sent c id j q e = elim (Option-cases (get c.pending id)) [
    | inl absent ↦ (q, rw (absent, mark_sent) e, refl)
    | inr (q', found) ↦
        let marked : Pending S = record q' { sent = true } in
        elim (Bool-cases (id == j)) [
          | inl same ↦
              let named : id ≡ j = (String_eq.eq_iff id j).0 same in
              let also : get c.pending j ≡ some q' = rw named at found in
              let entry : q ≡ q' = some-injective q q' (sym e ∙ also) in
              (
                marked,
                rw (found, mark_sent) (rw (get-insert, same) refl),
                sym (ap (λ (x : Pending S). x.reply) entry),
              )
          | inr other ↦ (q, rw (found, mark_sent) (rw (get-insert, other) e), refl)
        ]
  ]

  found-mark_each :
      (c : Correlator S) (ids : List String) (j : String) (q : Pending S)
      → get c.pending j ≡ some q
      → (p : Pending S) × (get (mark_each c ids).pending j ≡ some p) × (p.reply ≡ q.reply)
  found-mark_each c [] j q e = (q, e, refl)
  found-mark_each c (id ∷ ids) j q e =
      let (q', e', kept) = found-mark_sent c id j q e in
      let (p, found, kept') = found-mark_each (mark_sent c id) ids j q' e' in
      (p, found, kept' ∙ kept)

  -- What the end of a connection tells the caller of a call, by whether its frame was handed over.
  pub disconnect_told :
      {V : Type 0} (is_open : S → Bool) (c : Correlator S)
      (handed unflushed priority app : List String) (room : ℕ) (id : String) (q : Pending S)
      → Tracks c handed unflushed priority app room
      → get c.pending id ≡ some q
      → is_open q.reply ≡ true
      → Mem {A = S × Reply V}
          (q.reply, err (if elem handed id then abandoned id else not_sent))
          (disconnect {V = V} is_open (mark_each c unflushed)).2
  unfolding elem disconnect
  disconnect_told {V = V} is_open c handed unflushed priority app room id q t e waits =
      let (p, found, kept) = found-mark_each c unflushed id q e in
      let after = flush-Tracks c handed unflushed priority app room t in
      let same : elem handed id ≡ p.sent = ground (arith, after.told id p found) in
      let told =
        fail_all-mem {V = V} is_open (mark_each c unflushed).pending id p found (rw kept waits) in
      let verdicts : verdict {V = V} is_open id p
          ≡ (q.reply, err (if elem handed id then abandoned id else not_sent)) =
        rw (same, kept) refl in
      subst (λ (v : S × Reply V). Mem v (fail_all is_open (mark_each c unflushed).pending)) verdicts
        told
