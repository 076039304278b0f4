-- ===== src/Realtime/Correlate/Wire.antt =====
-- A table of pending calls beside the ids of the frames of its calls: those handed to a socket,
-- those of them not known to be flushed, and those that wait to be handed over.
pub mod Marks
use rocketsocket.Base.{
  ℕ, zero, suc, ◌+◌, ◌-◌, ◌*◌, ◌/◌, ◌%◌, ◌^◌, ◌≤◌, ◌<◌, String, ◌≡◌, refl, sym, ap, ◌∙◌, ◌≢◌, ◌↔◌,
  ◌⊎◌, inl, inr, Bool, true, false, not, ◌&&◌, ◌||◌, Option, none, some, List, [], ◌∷◌, ◌++◌, arith,
  ltb, leb, nat_eq, if◌then◌else◌, Eq, ◌==◌, ℕ_eq, String_eq, Bool-cases, if-keeps, Result-cases,
  elem-append, elem-retain, and_then, Option-cases, is_some, is_some_and, Result, ok, err, map_err,
  length, All, retain, elem, option_eq, option_eq_iff, Option_eq,
}
use mathlib.Core.Option.{some-injective}
use rocketsocket.Map.{get}
use rocketsocket.Map.Laws.{get-insert, get-remove}
use rocketsocket.Protocol.{DdpError}
use rocketsocket.Realtime.Correlate.{
  u64_mod, Correlator, Pending, fresh_id, register, mark_sent, cancel, resolve, disconnect,
  abandoned, not_sent,
}
use rocketsocket.Realtime.Correlate.Settling.{verdict}
use rocketsocket.Realtime.Correlate.Invariant.{
  IsValid, IsIssuedId, IsIssuedId-ne, register-IsValid, cancel-IsValid, mark_sent-IsValid,
  resolve-cancel, disconnect-IsValid,
}

module _ {P Q : String → Type 0} where
  All-weaken : (xs : List String) → ((x : String) → P x → Q x) → All P xs → All Q xs
  All-weaken [] f h = tt
  All-weaken (x ∷ xs) f h = (f x h.0, All-weaken xs f h.1)

module _ (P : String → Type 0) where
  pub All-append : (xs ys : List String) → All P xs → All P ys → All P (xs ++ ys)
  All-append [] ys h g = g
  All-append (x ∷ xs) ys h g = (h.0, All-append xs ys h.1 g)

  pub All-split : (xs ys : List String) → All P (xs ++ ys) → All P xs × All P ys
  All-split [] ys h = (tt, h)
  All-split (x ∷ xs) ys h = let (front, back) = All-split xs ys h.1 in ((h.0, front), back)

elem-eq-false : (xs : List String) (id : String) → All (λ x. x ≢ id) xs → elem xs id ≡ false
unfolding elem
elem-eq-false [] id h = refl
elem-eq-false (x ∷ xs) id h = ground (arith, elem-eq-false xs id h.1, String_eq.eq_iff x id, h.0)

module _ {S : Type 0} where
  -- A call is marked as sent, or is about to be, exactly if its frame was handed over. The
  -- correlator can issue `room` more ids.
  pub record Tracks (c : Correlator S) (handed unflushed priority app : List String) (room : ℕ)
      : Type 0 where
    pub valid : IsValid c
    pub enough : c.next_id + room < u64_mod
    pub handed_issued : All (IsIssuedId c.prefix c.next_id) handed
    pub unflushed_issued : All (IsIssuedId c.prefix c.next_id) unflushed
    pub priority_issued : All (IsIssuedId c.prefix c.next_id) priority
    pub app_issued : All (IsIssuedId c.prefix c.next_id) app
    pub told :
        (id : String) (p : Pending S)
        → get c.pending id ≡ some p
        → elem handed id ≡ (p.sent || elem unflushed id)

  pub Tracks-relax :
      (c : Correlator S) (handed unflushed priority app : List String) (room room' : ℕ)
      → room ≤ room'
      → Tracks c handed unflushed priority app room'
      → Tracks c handed unflushed priority app room
  Tracks-relax c handed unflushed priority app room room' h t = record {
    valid = t.valid;
    enough = omega (arith, t.enough);
    handed_issued = t.handed_issued;
    unflushed_issued = t.unflushed_issued;
    priority_issued = t.priority_issued;
    app_issued = t.app_issued;
    told = t.told;
  }

  module _ (c : Correlator S) (handed unflushed priority app : List String) (room : ℕ)
      (t : Tracks c handed unflushed priority app (suc room)) where
    fresh_absent :
        (xs : List String) → All (IsIssuedId c.prefix c.next_id) xs → elem xs (fresh_id c) ≡ false
    fresh_absent xs h =
        elem-eq-false xs (fresh_id c) (All-weaken xs (IsIssuedId-ne c.prefix c.next_id) h)

    register_told :
        (reply : S) (id : String) (p : Pending S)
        → get (register c reply).0.pending id ≡ some p
        → elem handed id ≡ (p.sent || elem unflushed id)
    unfolding register
    register_told reply id p e =
        let entry : Pending S = record { epoch = c.epoch; sent = false; reply = reply } in
        let stored = rw (get-insert c.pending (fresh_id c) id entry) at e in
        elim (Bool-cases (fresh_id c == id)) [
          | inl same ↦
              let named : fresh_id c ≡ id = (String_eq.eq_iff (fresh_id c) id).0 same in
              let found : entry ≡ p = some-injective entry p (rw same at stored) in
              let unsent : false ≡ p.sent = ap (λ (q : Pending S). q.sent) found in
              rw
                (
                  sym named,
                  fresh_absent handed t.handed_issued,
                  fresh_absent unflushed t.unflushed_issued,
                  sym unsent,
                )
                refl
          | inr other ↦ t.told id p (rw other at stored)
        ]

    -- A registered call keeps the tracking, and its id is issued.
    pub register-Tracks :
        (reply : S)
        → Tracks (register c reply).0 handed unflushed priority app room
          × IsIssuedId (register c reply).0.prefix (register c reply).0.next_id (register c reply).1
    unfolding register
    register-Tracks reply =
        let e : (c.next_id + 1) % u64_mod ≡ c.next_id + 1 = omega (arith, t.enough) in
        let later : (x : String)
            → IsIssuedId c.prefix c.next_id x
            → IsIssuedId c.prefix (c.next_id + 1) x =
          λ x (k, less, named). (k, omega arith, named) in
        (
          record {
            valid = register-IsValid c reply (omega (arith, t.enough)) t.valid;
            enough = omega (arith, e, t.enough);
            handed_issued = rw e (All-weaken handed later t.handed_issued);
            unflushed_issued = rw e (All-weaken unflushed later t.unflushed_issued);
            priority_issued = rw e (All-weaken priority later t.priority_issued);
            app_issued = rw e (All-weaken app later t.app_issued);
            told = register_told reply;
          },
          rw e (c.next_id, omega arith, refl),
        )

  module _ (c : Correlator S) (handed unflushed priority app : List String) (room : ℕ) where
    pub cancel-Tracks :
        (id : String)
        → Tracks c handed unflushed priority app room
        → Tracks (cancel c id).0 handed unflushed priority app room
    unfolding cancel
    cancel-Tracks id t = record {
      valid = cancel-IsValid c id t.valid;
      enough = t.enough;
      handed_issued = t.handed_issued;
      unflushed_issued = t.unflushed_issued;
      priority_issued = t.priority_issued;
      app_issued = t.app_issued;
      told = λ j p e. t.told j p (ground (arith, get-remove c.pending id j, e));
    }

    pub resolve-Tracks :
        {V : Type 0} (is_open : S → Bool) (id : String) (outcome : Result V (DdpError V))
        → Tracks c handed unflushed priority app room
        → Tracks (resolve is_open c id outcome).0 handed unflushed priority app room
    resolve-Tracks is_open id outcome t =
        rw (resolve-cancel is_open c id outcome) (cancel-Tracks id t)

    -- Frames are handed over.
    pub hand_over-Tracks :
        (ids : List String)
        → All (IsIssuedId c.prefix c.next_id) ids
        → Tracks c handed unflushed priority app room
        → Tracks c (handed ++ ids) (unflushed ++ ids) priority app room
    hand_over-Tracks ids h t = record {
      valid = t.valid;
      enough = t.enough;
      handed_issued = All-append _ handed ids t.handed_issued h;
      unflushed_issued = All-append _ unflushed ids t.unflushed_issued h;
      priority_issued = t.priority_issued;
      app_issued = t.app_issued;
      told = λ id p e.
          ground (arith, elem-append handed ids id, elem-append unflushed ids id, t.told id p e);
    }

    -- Other frames wait.
    pub requeue-Tracks :
        (priority' app' : List String)
        → All (IsIssuedId c.prefix c.next_id) priority'
        → All (IsIssuedId c.prefix c.next_id) app'
        → Tracks c handed unflushed priority app room
        → Tracks c handed unflushed priority' app' room
    requeue-Tracks priority' app' h h' t = record {
      valid = t.valid;
      enough = t.enough;
      handed_issued = t.handed_issued;
      unflushed_issued = t.unflushed_issued;
      priority_issued = h;
      app_issued = h';
      told = t.told;
    }
