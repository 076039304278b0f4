-- ===== src/Realtime/Correlate/Invariant.antt =====
-- The table of pending calls: its ids are the correlator's own, each issued once, and its entries
-- belong to the current connection.
use text.Mathlib.TextLemmas.{append_cancel_left}
use Prim.Native.String.{String, ◌++◌}
use rocketsocket.Base.{
  false, ◌%◌, ◌+◌, String_eq, inr, arith, ◌≢◌, ◌<◌, inl, Result, ℕ, Option-cases, none, Bool, All,
  ◌≡◌, refl, ◌∙◌, sym,
}
use rocketsocket.Base.Texts.{to_decimal, to_decimal_injective}
use rocketsocket.Map.{get}
use rocketsocket.Map.Entries.{All-insert, All-remove, All-get, All-map, get-eq-none}
use rocketsocket.Map.Laws.{remove_absent, IsFunctional, insert-IsFunctional, remove-IsFunctional}
use rocketsocket.Realtime.Correlate.{
  u64_mod, DdpError, Correlator, Pending, fresh_id, register, mark_sent, cancel, resolve,
  disconnect,
}

-- The id is one of the first that the correlator issues.
abbrev pub IsIssuedId : String → ℕ → String → Type 0
IsIssuedId prefix bound id = (k : ℕ) × (k < bound) × (id ≡ prefix ++ to_decimal k)

pub IsIssuedId-ne :
    (prefix : String) (n : ℕ) (id : String) → IsIssuedId prefix n id → id ≢ prefix ++ to_decimal n
IsIssuedId-ne prefix n id (k, less, named) h =
    let same = to_decimal_injective k n (append_cancel_left prefix _ _ (sym named ∙ h)) in
    absurd (omega arith)

module _ {S : Type 0} where
  -- The entry has an id that the correlator has issued.
  abbrev pub IsIssued : String → ℕ → String × Pending S → Type 0
  IsIssued prefix bound e = IsIssuedId prefix bound e.0

  abbrev pub IsCurrent : ℕ → String × Pending S → Type 0
  IsCurrent epoch e = e.1.epoch ≡ epoch

  pub record IsValid (c : Correlator S) : Type 0 where
    pub issued : All (IsIssued c.prefix c.next_id) c.pending
    pub current : All (IsCurrent c.epoch) c.pending
    pub functional : IsFunctional c.pending

  -- The id of the next call is that of no pending call.
  pub get-fresh_id : (c : Correlator S) → IsValid c → get c.pending (fresh_id c) ≡ none
  get-fresh_id c v =
      get-eq-none c.pending (fresh_id c)
        (All-map c.pending (λ x. IsIssuedId-ne c.prefix c.next_id x.0) v.issued)

  pub register-IsValid :
      (c : Correlator S) (reply : S)
      → c.next_id + 1 < u64_mod
      → IsValid c
      → IsValid (register c reply).0
  unfolding register
  register-IsValid c reply h v =
      let e : (c.next_id + 1) % u64_mod ≡ c.next_id + 1 = omega arith in
      let entry : Pending S = record { epoch = c.epoch; sent = false; reply = reply } in
      record {
        issued = rw e (
            All-insert (IsIssued c.prefix (c.next_id + 1)) c.pending (fresh_id c) entry
              (All-map c.pending (λ x (k, less, named). (k, omega arith, named)) v.issued)
              (c.next_id, omega arith, refl));
        current = All-insert (IsCurrent c.epoch) c.pending (fresh_id c) entry v.current refl;
        functional = insert-IsFunctional c.pending (fresh_id c) entry v.functional;
      }

  pub cancel-IsValid : (c : Correlator S) (id : String) → IsValid c → IsValid (cancel c id).0
  unfolding cancel
  cancel-IsValid c id v = record {
    issued = All-remove _ c.pending id v.issued;
    current = All-remove _ c.pending id v.current;
    functional = remove-IsFunctional c.pending id v.functional;
  }

  pub mark_sent-IsValid : (c : Correlator S) (id : String) → IsValid c → IsValid (mark_sent c id)
  unfolding mark_sent
  mark_sent-IsValid c id v = elim (Option-cases (get c.pending id)) [
    | inl e ↦ rw (e, mark_sent) v
    | inr (p, e) ↦
        rw (e, mark_sent)
          (record {
            issued =
                All-insert _ c.pending id _ v.issued
                  (All-get (IsIssued c.prefix c.next_id) c.pending id p v.issued e);
            current =
                All-insert _ c.pending id _ v.current
                  (All-get (IsCurrent c.epoch) c.pending id p v.current e);
            functional = insert-IsFunctional c.pending id _ v.functional;
          })
  ]

  module _ {V : Type 0} (is_open : S → Bool) where
    -- `resolve` always leaves the table that `cancel` leaves.
    pub resolve-cancel :
        (c : Correlator S) (id : String) (outcome : Result V (DdpError V))
        → (resolve is_open c id outcome).0 ≡ (cancel c id).0
    unfolding resolve cancel
    resolve-cancel c id outcome = elim (Option-cases (get c.pending id)) [
      | inl e ↦ rw (e, resolve, remove_absent) refl
      | inr (p, e) ↦ rw (e, resolve) refl
    ]

  pub disconnect-IsValid :
      (V : Type 0) (is_open : S → Bool) (c : Correlator S)
      → IsValid c
      → IsValid (disconnect {V = V} is_open c).0
  unfolding disconnect
  disconnect-IsValid V is_open c v = record { issued = tt; current = tt; functional = tt }
