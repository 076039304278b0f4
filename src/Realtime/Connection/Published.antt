-- ===== src/Realtime/Connection/Published.antt =====
-- What the runner publishes of its session.
use rocketsocket.Base.{
  ℕ, ◌≡◌, refl, inl, inr, Option, ℕ_eq, String_eq, Bool-cases, Option-cases, Option_eq,
}
use rocketsocket.Realtime.Backoff.{Rng}
use rocketsocket.Realtime.Connection.{Outcome, Step, Env, Runner}
use rocketsocket.Realtime.Connection.State.{state_of, sync_state, set_state}
use rocketsocket.Realtime.Connection.Drive.{arm_timer, perform, decide, turn}

module _ {r : Rng} {V S : Type 0} where
  -- The published state is that of the session's phase.
  abbrev pub IsPublished : Runner r V S → Type 0
  IsPublished x = x.state ≡ state_of x.session.phase

  decide-IsPublished :
      (x : Runner r V S) (outcome : Option Outcome) (now : ℕ)
      → IsPublished x
      → IsPublished (decide x outcome now).0
  unfolding decide arm_timer
  decide-IsPublished x outcome now h = elim (Option-cases x.fatal) [
    | inr (f, e) ↦ rw (e, decide) h
    | inl e ↦ elim (Bool-cases x.shutdown) [
      | inl ends ↦ rw (e, ends, decide) h
      | inr goes ↦ elim (Option-cases outcome) [
        | inl e' ↦ rw (e, goes, e', decide) h
        | inr (o, e') ↦ rw (e, goes, e', decide) h
      ]
    ]
  ]

  -- After each turn of the socket loop, whatever its step, the published state is that of the
  -- session's phase.
  pub turn-IsPublished :
      (env : Env V S) (x : Runner r V S) (step : Step V S) (now : ℕ) (channel : S)
      → IsPublished (turn env x step now channel).0
  unfolding turn sync_state set_state
  turn-IsPublished env x step now channel =
      decide-IsPublished (sync_state (perform env x step now channel).0) _ now refl
