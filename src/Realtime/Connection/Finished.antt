-- ===== src/Realtime/Connection/Finished.antt =====
-- How the outer loop ends.
use mathlib.Core.Path.{subst}
use rocketsocket.Base.{
  ◌≡◌, refl, sym, ap, ◌∙◌, ◌⊎◌, inl, inr, Bool, true, false, Option, none, some, List, [], ◌∷◌,
  ◌++◌, if◌then◌else◌, ℕ_eq, String_eq, Bool-cases, Option-cases, Option_eq,
}
use rocketsocket.Map.{empty}
use rocketsocket.Realtime.Backoff.{Rng}
use rocketsocket.Realtime.Correlate.{disconnect}
use rocketsocket.Realtime.Connection.{ConnectionState, Env, Runner}
use rocketsocket.Realtime.Connection.State.{settle, set_state}
use rocketsocket.Realtime.Connection.Run.{
  Attempt, Course, retries, finished, in_use, is_final, wait, connect_once, finish, run,
}
use rocketsocket.Realtime.Connection.Tracking.Cycles.{left_at}

Course-cases : (c : Course) → (c ≡ retries) ⊎ ((c ≡ finished) ⊎ (c ≡ in_use))
Course-cases retries = inl refl
Course-cases finished = inr (inl refl)
Course-cases in_use = inr (inr refl)

module _ {r : Rng} {V S : Type 0} where
  -- The runner has settled every call, and says that it is closed or has failed.
  pub record Over (x : Runner r V S) : Type 0 where
    pub final : is_final x.state ≡ true
    pub unqueued : x.priority ++ x.app ≡ []
    pub no_calls : x.methods.pending ≡ empty
    pub no_subs : x.subs.pending ≡ empty

  closed_or_final :
      (x : Runner r V S)
      → is_final (if is_final x.state then x else set_state x ConnectionState.closed).state ≡ true
  unfolding set_state is_final
  closed_or_final x = go x.state
    where
      go :
          (state : ConnectionState)
          → is_final
              (if is_final state
                then record x { state = state }
                else record x { state = ConnectionState.closed }).state
            ≡ true
      go ConnectionState.disconnected = refl
      go ConnectionState.connecting = refl
      go ConnectionState.handshaking = refl
      go ConnectionState.authenticating = refl
      go ConnectionState.ready = refl
      go ConnectionState.closed = refl
      go ConnectionState.fatal = refl

  module _ (env : Env V S) where
    settle-Over : (x : Runner r V S) → is_final x.state ≡ true → Over (settle env x)
    unfolding settle disconnect
    settle-Over x e = record { final = e; unqueued = refl; no_calls = refl; no_subs = refl }

    finish-Over : (x : Runner r V S) → Over (finish env x)
    unfolding finish set_state
    finish-Over x =
        settle-Over (if is_final x.state then x else set_state x ConnectionState.closed)
          (closed_or_final x)

    finished_at :
        (x y : Runner r V S)
        → ◌≡◌ {A = Option (Runner r V S × Course)}
            (some (finish env x, finished))
            (some (y, finished))
        → Over y
    finished_at x y e = subst Over (left_at env (finish env x) y _ _ e).0 (finish-Over x)

    -- What an attempt leaves of the loop.
    abbrev after : Runner r V S → Attempt V S → List (Attempt V S) → Option (Runner r V S × Course)
    after waited a attempts = elim (connect_once env waited a) [
      | none ↦ none
      | some (y, retries) ↦ run env y attempts
      | some (y, finished) ↦ some (finish env y, finished)
      | some (y, in_use) ↦ some (y, in_use)
    ]

    module _ (x : Runner r V S) (a : Attempt V S) (attempts : List (Attempt V S)) where
      abbrev on : Bool → Bool → Option (Runner r V S × Course)
      on stopped waiting_stopped =
          if stopped
          then some (finish env x, finished)
          else if waiting_stopped
          then some (finish env (wait env x a.commands), finished)
          else after (wait env x a.commands) a attempts

      run_on :
          (b c : Bool)
          → x.shutdown ≡ b
          → (wait env x a.commands).shutdown ≡ c
          → run env x (a ∷ attempts) ≡ on b c
      unfolding run
      run_on b c e e' = ap (λ b. on b (wait env x a.commands).shutdown) e ∙ ap (λ c. on b c) e'

    run_idle :
        (x : Runner r V S) (b : Bool)
        → x.shutdown ≡ b
        → run env x [] ≡ (if b then some (finish env x, finished) else some (x, in_use))
    unfolding run
    run_idle x b e = ap (λ b. if b then some (finish env x, finished) else some (x, in_use)) e

    -- When the outer loop returns, the runner says that it is closed or has failed, its queues are
    -- empty, and no call or subscription is left pending.
    pub run-Over :
        (x y : Runner r V S) (attempts : List (Attempt V S))
        → run env x attempts ≡ some (y, finished)
        → Over y
    run-Over x y [] e = elim (Bool-cases x.shutdown) [
      | inl ends ↦ finished_at x y (sym (run_idle x true ends) ∙ e)
      | inr goes ↦
          let other : in_use ≡ finished =
            (left_at env x y _ _ (sym (run_idle x false goes) ∙ e)).1 in
          cc
    ]
    run-Over x y (a ∷ attempts) e =
        let waited = wait env x a.commands in
        elim (Bool-cases x.shutdown) [
          | inl ends ↦ finished_at x y (sym (run_on x a attempts true _ ends refl) ∙ e)
          | inr goes ↦ elim (Bool-cases waited.shutdown) [
            | inl ends ↦ finished_at waited y (sym (run_on x a attempts false true goes ends) ∙ e)
            | inr goes' ↦
                let e' = sym (run_on x a attempts false false goes goes') ∙ e in
                elim (Option-cases (connect_once env waited a)) [
                  | inl bad ↦ let none_left = rw (bad, after) at e' in cc
                  | inr ((z, course), tried) ↦ elim (Course-cases course) [
                    | inl again ↦ run-Over z y attempts (rw (tried, again, after) at e')
                    | inr (inl done) ↦ finished_at z y (rw (tried, done, after) at e')
                    | inr (inr busy) ↦
                        let left = rw (tried, busy, after) at e' in
                        let other : in_use ≡ finished = (left_at env z y _ _ left).1 in cc
                  ]
                ]
          ]
        ]
