-- ===== src/Realtime/Connection/Tracking/Cycles.antt =====
-- From a new runner on, every attempt to connect keeps the tracking, and every call is judged by it.
use mathlib.Core.List.{Mem}
use rocketsocket.Base.{
  ℕ, ◌+◌, ◌-◌, ◌<◌, String, ◌≡◌, refl, ap, ◌∙◌, inl, inr, true, Option, none, some, List, [], ◌∷◌,
  arith, ltb, ℕ_eq, String_eq, Bool-cases, Option-cases, length, Option_eq,
}
use rocketsocket.Map.{get}
use rocketsocket.Realtime.Backoff.{Rng}
use rocketsocket.Realtime.Liveness
use rocketsocket.Realtime.Session.{connect}
use rocketsocket.Protocol.{opening}
use mathlib.Core.Path.{subst}
use mathlib.Core.Option.{some-injective}
use rocketsocket.Realtime.Correlate.Wire.{Tracks}
use rocketsocket.Realtime.Correlate
use rocketsocket.Realtime.Connection.State.{handle_command}
use rocketsocket.Realtime.Correlate.{Correlator, Pending, Reply, u64_mod}
use rocketsocket.Realtime.Connection.{
  ConnectionState, Event, Config, Command, Outcome, closed, shutdown, fatal, Env, Runner,
}
use rocketsocket.Realtime.Connection.State.{
  connection_ended, settle, new, sync_state, set_state, emit, apply,
}
use rocketsocket.Realtime.Connection.Polls.{handed, Answers}
use rocketsocket.Realtime.Connection.Drive.{arm_timer, begin, drive_loop, conclude}
use rocketsocket.Realtime.Connection.Run.{Course, Attempt, retries, in_use, idle, connect_once}
use rocketsocket.Realtime.Connection.Tracking.{
  Lane, method_lane, sub_lane, TracksLane, table, relax_lane, push_priority-TracksLane,
}
use rocketsocket.Realtime.Connection.Tracking.Inputs.{handle_command-TracksLane}
use rocketsocket.Realtime.Connection.Tracking.Turns.{drive_loop-TracksLane}
use rocketsocket.Realtime.Connection.Tracking.Endings.{
  handed-none, connection_ended-TracksLane, conclude-TracksLane, conclude_told, judged,
}

empty-Tracks :
    {S : Type 0} (prefix : String) (room : ℕ)
    → room < u64_mod
    → Tracks {S = S} (Correlate.new prefix) [] [] [] [] room
unfolding Correlate.new get
empty-Tracks prefix room h = record {
  valid = record { issued = tt; current = tt; functional = tt };
  enough = omega arith;
  handed_issued = tt;
  unflushed_issued = tt;
  priority_issued = tt;
  app_issued = tt;
  told = λ id p e. cc;
}

module _ {r : Rng} {V S : Type 0} where
  -- A new runner tracks, and has no socket.
  pub new-TracksLane :
      (lane : Lane) (config : Config) (rng : r.State) (now room : ℕ) (x : Runner r V S)
      → room < u64_mod
      → new config rng now ≡ some x
      → TracksLane lane x room × (x.socket ≡ none)
  unfolding new handed
  new-TracksLane method_lane config rng now room x h e =
      elim (Option-cases (Liveness.with_thresholds config.ping_after config.dead_after now)) [
        | inl bad ↦ let e' = rw (bad, new) at e in cc
        | inr (p, good) ↦
            let e' = rw (good, new) at e in
            subst (λ z. TracksLane method_lane z room × (z.socket ≡ none)) (some-injective _ x e')
              (empty-Tracks "m" room h, refl)
      ]
  new-TracksLane sub_lane config rng now room x h e =
      elim (Option-cases (Liveness.with_thresholds config.ping_after config.dead_after now)) [
        | inl bad ↦ let e' = rw (bad, new) at e in cc
        | inr (p, good) ↦
            let e' = rw (good, new) at e in
            subst (λ z. TracksLane sub_lane z room × (z.socket ≡ none)) (some-injective _ x e')
              (empty-Tracks "s" room h, refl)
      ]

module _ {r : Rng} {V S : Type 0} (env : Env V S) where
  pub begin-TracksLane :
      (lane : Lane) (x y : Runner r V S) (now : ℕ) (channel : S) (room : ℕ)
      → x.socket ≡ none
      → TracksLane lane x room
      → begin env x now channel ≡ some y
      → TracksLane lane y room
  unfolding begin apply sync_state set_state arm_timer handed connect
  begin-TracksLane lane x y now channel room parted t e =
      elim (Option-cases (Liveness.with_thresholds x.config.ping_after x.config.dead_after now)) [
        | inl bad ↦ let e' = rw (bad, begin) at e in cc
        | inr (liveness, good) ↦
            let t' = rw (handed-none x parted) at t in
            let opened : Runner r V S = record x {
              socket = some [];
              liveness = liveness;
              handshake_deadline = some (now + x.config.handshake_timeout);
              session = (connect {V = V} x.session).0;
            } in
            let e' = rw (good, begin) at e in
            subst (λ z. TracksLane lane z room) (some-injective _ y e')
              (push_priority-TracksLane lane opened opening none room tt t')
      ]

  pub idle-TracksLane :
      (lane : Lane) (x : Runner r V S) (arrivals : List (Option (Command V S))) (room : ℕ)
      → TracksLane lane x (length arrivals + room)
      → TracksLane lane (idle env x arrivals) room
  unfolding idle handed
  idle-TracksLane lane x [] room t = relax_lane lane x room _ (omega arith) t
  idle-TracksLane lane x (arrival ∷ rest) room t =
      elim (Bool-cases (ltb (length x.app) x.config.outbox_capacity)) [
        | inr full ↦ rw (full, idle) (relax_lane lane x room _ (omega arith) t)
        | inl free ↦ elim (Option-cases arrival) [
          | inl gone ↦ rw (free, gone, idle) (relax_lane lane x room _ (omega arith) t)
          | inr (c, came) ↦
              let handled = handle_command env x c in
              let t' =
                handle_command-TracksLane env lane x c (length rest + room)
                  (relax_lane lane x _ _ (omega arith) t) in
              elim (Bool-cases handled.shutdown) [
                | inl ends ↦
                    rw (free, came, ends, idle) (relax_lane lane handled room _ (omega arith) t')
                | inr goes ↦ rw (free, came, goes, idle) (idle-TracksLane lane handled rest room t')
              ]
        ]
      ]

  -- The state and the course of an attempt that has a result.
  pub left_at :
      (x y : Runner r V S) (c d : Course)
      → ◌≡◌ {A = Option (Runner r V S × Course)} (some (x, c)) (some (y, d))
      → (x ≡ y) × (c ≡ d)
  left_at x y c d e =
      let same = some-injective (x, c) (y, d) e in
      (ap (λ (p : Runner r V S × Course). p.0) same, ap (λ (p : Runner r V S × Course). p.1) same)

  parted-connection_ended :
      (x : Runner r V S) (reason : String) (now : ℕ)
      → (connection_ended env x reason now).socket ≡ x.socket
  unfolding connection_ended settle set_state emit
  parted-connection_ended x reason now = refl

  parted-conclude :
      (x : Runner r V S) (o : Outcome) (now : ℕ) → (conclude env x o now).socket ≡ none
  unfolding conclude connection_ended settle set_state emit
  parted-conclude x (closed reason) now = refl
  parted-conclude x shutdown now = refl
  parted-conclude x (fatal f) now = refl

  -- Let a runner without a socket track, with ids left for one more call per poll of an attempt to
  -- connect. If it is to retry after the attempt, it tracks again, and has no socket.
  connect_once-TracksLane :
      (lane : Lane) (x y : Runner r V S) (a : Attempt V S) (room : ℕ)
      → x.socket ≡ none
      → TracksLane lane x (length a.inputs + room)
      → connect_once env x a ≡ some (y, retries)
      → TracksLane lane y room × (y.socket ≡ none)
  unfolding connect_once set_state emit handed
  connect_once-TracksLane lane x y a room parted t e =
      let announced : Runner r V S =
        emit (set_state x ConnectionState.connecting) (Event.connecting (x.backoff.attempt - 1)) in
      elim (Option-cases a.failure) [
        | inr (reason, fails) ↦
            let e' = rw (fails, connect_once) at e in
            subst (λ z. TracksLane lane z room × (z.socket ≡ none)) (left_at _ y _ _ e').0
              (
                connection_ended-TracksLane env lane announced reason a.ended room parted
                    (relax_lane lane announced room _ (omega arith) t),
                parted-connection_ended announced reason a.ended ∙ parted,
              )
        | inl succeeds ↦ elim (Option-cases (begin env announced a.started a.channel)) [
          | inl bad ↦ let e' = rw (succeeds, bad, connect_once) at e in cc
          | inr (begun, good) ↦ elim (Option-cases (drive_loop env begun a.inputs)) [
            | inl bad ↦ let e' = rw (succeeds, good, bad, connect_once) at e in cc
            | inr ((driven, result), ran) ↦ elim (Option-cases result) [
              | inl open_still ↦
                  let e' = rw (succeeds, good, ran, open_still, connect_once) at e in
                  let other : in_use ≡ retries = (left_at _ y _ _ e').1 in cc
              | inr (o, ends) ↦
                  let e' = rw (succeeds, good, ran, ends, connect_once) at e in
                  let begun_tracks =
                    begin-TracksLane lane announced begun a.started a.channel _ parted t good in
                  let driven_tracks =
                    drive_loop-TracksLane env lane a.inputs begun driven (some o) room begun_tracks
                      (ran ∙ ap (λ k. some (driven, k)) ends) in
                  subst (λ z. TracksLane lane z room × (z.socket ≡ none)) (left_at _ y _ _ e').0
                    (
                      conclude-TracksLane env lane driven o a.ended room driven_tracks,
                      parted-conclude driven o a.ended,
                    )
            ]
          ]
        ]
      ]

  -- Let the runner track, with ids left for one more call per poll. When a socket's loop ends, for
  -- whatever reason, each pending call whose caller still waits is told `Abandoned` if the socket
  -- accepted its frame, and `NotSent` if it did not.
  pub connection_told :
      (lane : Lane) (inputs : List (Answers V S × S)) (x y : Runner r V S) (o : Outcome)
      (now room : ℕ) (id : String) (p : Pending S)
      → TracksLane lane x (length inputs + room)
      → drive_loop env x inputs ≡ some (y, some o)
      → get (table lane y).pending id ≡ some p
      → env.is_open p.reply ≡ true
      → Mem (judged env lane y id p.reply) (conclude env y o now).replies
  connection_told lane inputs x y o now room id p t driven found waits =
      conclude_told env lane y o now room id p
        (drive_loop-TracksLane env lane inputs x y (some o) room t driven) found waits
