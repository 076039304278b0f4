-- ===== src/Realtime/Connection/Tracking/Turns.antt =====
-- The socket loop keeps the tracking, from the opening of a socket to the end of the connection.
use mathlib.Core.Path.{subst}
use mathlib.Core.Option.{some-injective}
use rocketsocket.Base.{
  ℕ, suc, ◌+◌, ◌≡◌, refl, sym, ap, ◌∙◌, ◌≢◌, inl, inr, Option, none, some, List, [], ◌∷◌, arith,
  leb, ℕ_eq, String_eq, Bool-cases, Option-cases, is_some_and, length, Option_eq,
}
use rocketsocket.Realtime.Backoff.{Rng}
use rocketsocket.Realtime.Liveness
use rocketsocket.Realtime.Liveness.Polls.{Liveness-cases}
use rocketsocket.Realtime.Connection.{
  Outbound, Outcome, Step, frame, eof, failed, command, handles_dropped, deadline, Env, Runner,
}
use rocketsocket.Realtime.Connection.State.{sync_state, set_state}
use rocketsocket.Realtime.Connection.Polls.{handed, Answers, is_ready, poll_step, poll_socket}
use rocketsocket.Realtime.Connection.Drive.{
  arm_timer, clear_handshake, check_liveness, on_deadline, perform, decide, turn, drive_loop,
}
use rocketsocket.Realtime.Connection.Tracking.{
  Lane, TracksLane, weaken_lane, relax_lane, push_priority-TracksLane,
}
use rocketsocket.Realtime.Connection.Tracking.Inputs.{handle_command-TracksLane}
use rocketsocket.Realtime.Connection.Tracking.Replies.{on_frame-TracksLane}
use rocketsocket.Realtime.Connection.Tracking.Outputs.{poll_socket-TracksLane}

module _ {r : Rng} {V S : Type 0} where
  clear_handshake-TracksLane :
      (lane : Lane) (x : Runner r V S) (room : ℕ)
      → TracksLane lane x room
      → TracksLane lane (clear_handshake x) room
  unfolding clear_handshake handed
  clear_handshake-TracksLane lane x room t = elim (Bool-cases (is_ready x.session.phase)) [
    | inl e ↦ rw e t
    | inr e ↦ rw e t
  ]

  decide-TracksLane :
      (lane : Lane) (x : Runner r V S) (outcome : Option Outcome) (now room : ℕ)
      → TracksLane lane x room
      → TracksLane lane (decide x outcome now).0 room
  unfolding decide arm_timer handed
  decide-TracksLane lane x outcome now room t = elim (Option-cases x.fatal) [
    | inr (f, e) ↦ rw (e, decide) t
    | inl e ↦ elim (Bool-cases x.shutdown) [
      | inl ends ↦ rw (e, ends, decide) t
      | inr goes ↦ elim (Option-cases outcome) [
        | inl e' ↦ rw (e, goes, e', decide) t
        | inr (o, e') ↦ rw (e, goes, e', decide) t
      ]
    ]
  ]

module _ {r : Rng} {V S : Type 0} (env : Env V S) where
  check_liveness-TracksLane :
      (lane : Lane) (x : Runner r V S) (now room : ℕ)
      → TracksLane lane x room
      → TracksLane lane (check_liveness env x now).0 room
  unfolding handed check_liveness
  check_liveness-TracksLane lane x now room t =
      let polled = record x { liveness = (Liveness.poll x.liveness now).1 } in
      elim (Liveness-cases (Liveness.poll x.liveness now).0) [
        | inl e ↦ rw (e, check_liveness) t
        | inr (inl e) ↦
            rw (e, check_liveness) (push_priority-TracksLane lane polled _ none room tt t)
        | inr (inr e) ↦ rw (e, check_liveness) t
      ]

  on_deadline-TracksLane :
      (lane : Lane) (x : Runner r V S) (now room : ℕ)
      → TracksLane lane x room
      → TracksLane lane (on_deadline env x now).0 room
  unfolding on_deadline
  on_deadline-TracksLane lane x now room t =
      let t' = clear_handshake-TracksLane lane x room t in
      elim (Bool-cases
        (is_some_and (clear_handshake x).handshake_deadline (λ limit. leb limit now))) [
          | inl e ↦ rw e t'
          | inr e ↦ rw e (check_liveness-TracksLane lane (clear_handshake x) now room t')
        ]

  perform-TracksLane :
      (lane : Lane) (x : Runner r V S) (step : Step V S) (now : ℕ) (channel : S) (room : ℕ)
      → TracksLane lane x (suc room)
      → TracksLane lane (perform env x step now channel).0 room
  unfolding perform
  perform-TracksLane lane x (frame message) now channel room t =
      on_frame-TracksLane env lane x message now channel room t
  perform-TracksLane lane x eof now channel room t = weaken_lane lane x room t
  perform-TracksLane lane x (failed error) now channel room t = weaken_lane lane x room t
  perform-TracksLane lane x (command c) now channel room t =
      handle_command-TracksLane env lane x c room t
  perform-TracksLane lane x handles_dropped now channel room t = weaken_lane lane x room t
  perform-TracksLane lane x deadline now channel room t =
      on_deadline-TracksLane lane x now room (weaken_lane lane x room t)

  pub turn-TracksLane :
      (lane : Lane) (x : Runner r V S) (step : Step V S) (now : ℕ) (channel : S) (room : ℕ)
      → TracksLane lane x (suc room)
      → TracksLane lane (turn env x step now channel).0 room
  unfolding turn sync_state set_state handed
  turn-TracksLane lane x step now channel room t =
      decide-TracksLane lane (sync_state (perform env x step now channel).0) _ now room
        (perform-TracksLane lane x step now channel room t)

  module _ (x : Runner r V S) (a : Answers V S) (channel : S) (rest : List (Answers V S × S))
      (polls : poll_step x a ≡ some (poll_socket x a)) where
    drive_waits :
        (poll_socket x a).1 ≡ none
        → drive_loop env x ((a, channel) ∷ rest) ≡ drive_loop env (poll_socket x a).0 rest
    unfolding drive_loop
    drive_waits e = rw (polls, e, drive_loop) refl

    drive_turns :
        (step : Step V S)
        → (poll_socket x a).1 ≡ some step
        → (turn env (poll_socket x a).0 step a.now channel).1 ≡ none
        → drive_loop env x ((a, channel) ∷ rest)
          ≡ drive_loop env (turn env (poll_socket x a).0 step a.now channel).0 rest
    unfolding drive_loop
    drive_turns step e e' = rw (polls, e, e', drive_loop) refl

    drive_ends :
        (step : Step V S) (o : Outcome)
        → (poll_socket x a).1 ≡ some step
        → (turn env (poll_socket x a).0 step a.now channel).1 ≡ some o
        → drive_loop env x ((a, channel) ∷ rest)
          ≡ some ((turn env (poll_socket x a).0 step a.now channel).0, some o)
    unfolding drive_loop
    drive_ends step o e e' = rw (polls, e, e', drive_loop) refl

  -- With a socket, a poll is that of the socket.
  poll_step_open :
      (x : Runner r V S) (a : Answers V S) (frames : List (Outbound V))
      → x.socket ≡ some frames
      → poll_step x a ≡ some (poll_socket x a)
  unfolding poll_step
  poll_step_open x a frames e =
      subst
        (λ s.
          (elim s as (λ _. Option (Runner r V S × Option (Step V S))) [
            | none ↦ none
            | some _ ↦ some (poll_socket x a)
          ])
          ≡ some (poll_socket x a))
        (sym e) refl

  drive_panics :
      (x y : Runner r V S) (a : Answers V S) (channel : S) (rest : List (Answers V S × S))
      (o : Option Outcome)
      → x.socket ≡ none
      → drive_loop env x ((a, channel) ∷ rest) ≢ some (y, o)
  unfolding drive_loop poll_step
  drive_panics x y a channel rest o e h = let h' = rw (e, drive_loop) at h in cc

  pub drive_loop-TracksLane :
      (lane : Lane) (inputs : List (Answers V S × S)) (x y : Runner r V S) (o : Option Outcome)
      (room : ℕ)
      → TracksLane lane x (length inputs + room)
      → drive_loop env x inputs ≡ some (y, o)
      → TracksLane lane y room
  unfolding drive_loop
  drive_loop-TracksLane lane [] x y o room t e =
      let same : x ≡ y = ap (λ (p : Runner r V S × Option Outcome). p.0) (some-injective _ _ e) in
      subst (λ z. TracksLane lane z room) same (relax_lane lane x room (0 + room) (omega arith) t)
  drive_loop-TracksLane lane ((a, channel) ∷ rest) x y o room t e = elim (Option-cases x.socket) [
    | inl none_there ↦ absurd (drive_panics x y a channel rest o none_there e)
    | inr (frames, there) ↦
        let polls = poll_step_open x a frames there in
        let t' = poll_socket-TracksLane lane x a _ t in
        elim (Option-cases (poll_socket x a).1) [
          | inl waits ↦
              drive_loop-TracksLane lane rest (poll_socket x a).0 y o room
                (relax_lane lane (poll_socket x a).0 _ _ (omega arith) t')
                (sym (drive_waits x a channel rest polls waits) ∙ e)
          | inr (step, polled) ↦
              let turned = turn env (poll_socket x a).0 step a.now channel in
              let t'' =
                turn-TracksLane lane (poll_socket x a).0 step a.now channel (length rest + room)
                  (relax_lane lane (poll_socket x a).0 _ _ (omega arith) t') in
              elim (Option-cases turned.1) [
                | inl goes ↦
                    drive_loop-TracksLane lane rest turned.0 y o room t''
                      (sym (drive_turns x a channel rest polls step polled goes) ∙ e)
                | inr (o', ends) ↦
                    let stopped = sym (drive_ends x a channel rest polls step o' polled ends) ∙ e in
                    let same : turned.0 ≡ y =
                      ap (λ (p : Runner r V S × Option Outcome). p.0)
                        (some-injective _ _ stopped) in
                    subst (λ z. TracksLane lane z room) same
                      (relax_lane lane turned.0 room _ (omega arith) t'')
              ]
        ]
  ]
