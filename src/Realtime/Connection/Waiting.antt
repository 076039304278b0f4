-- ===== src/Realtime/Connection/Waiting.antt =====
-- What the socket loop waits for, and for how long.
use rocketsocket.Base.{
  ℕ, ◌-◌, ◌<◌, String, ◌≡◌, refl, ap, ◌∙◌, ◌↔◌, ◌⊎◌, inl, inr, Bool, true, false, not, ◌&&◌, Option,
  none, some, arith, ltb, leb, if◌then◌else◌, ℕ_eq, String_eq, Bool-cases, is_some_and, Result, ok,
  err, length, Option_eq,
}
use rocketsocket.Realtime.Backoff.{Rng}
use rocketsocket.Realtime.Liveness
use rocketsocket.Realtime.Liveness.{LivenessPolicy, healthy, send_ping, dead}
use rocketsocket.Realtime.Liveness.Polls.{poll_cases, Liveness-cases}
use rocketsocket.Realtime.Connection.{Command, Message, Step, Env, Runner}
use rocketsocket.Realtime.Connection.State.{push_priority}
use rocketsocket.Realtime.Connection.Polls.{
  Answers, is_ready, poll_read, poll_commands, poll_sources,
}
use rocketsocket.Realtime.Connection.Drive.{clear_handshake, check_liveness, on_deadline}

module _ {V S : Type 0} where
  poll_read-some :
      (m : Option (Result Message String)) → (s : Step V S) × (poll_read (some m) ≡ some s)
  unfolding poll_read
  poll_read-some none = (_, refl)
  poll_read-some (some (ok message)) = (_, refl)
  poll_read-some (some (err error)) = (_, refl)

  poll_commands-some :
      (c : Option (Command V S)) → (s : Step V S) × (poll_commands (some c) ≡ some s)
  unfolding poll_commands
  poll_commands-some none = (_, refl)
  poll_commands-some (some c) = (_, refl)

module _ {r : Rng} {V S : Type 0} where
  -- Which source a poll serves where both have something.
  served :
      (x : Runner r V S) (a : Answers V S) (m : Option (Result Message String))
      (c : Option (Command V S))
      → a.read ≡ some m
      → a.commands ≡ some c
      → length x.app < x.config.outbox_capacity
      → (poll_sources x a).1 ≡ (if x.turn then poll_commands a.commands else poll_read a.read)
  unfolding poll_sources
  served x a m c reads commands free =
      let room : ltb (length x.app) x.config.outbox_capacity ≡ true = ground arith in
      let (s, read) = poll_read-some {V = V} {S = S} m in
      let (t, taken) = poll_commands-some c in
      elim (Bool-cases x.turn) [
        | inl e ↦ rw (room, e, reads, commands, read, taken) refl
        | inr e ↦ rw (room, e, reads, commands, read) refl
      ]

  flips : (x : Runner r V S) (a : Answers V S) → (poll_sources x a).0.turn ≡ not x.turn
  unfolding poll_sources
  flips x a = refl

  -- Of two successive polls of the stream and the command channel, where both have something each
  -- time and the outbox has room, one serves the stream and the other the commands.
  pub poll_sources_fair :
      (x y : Runner r V S) (a b : Answers V S) (m n : Option (Result Message String))
      (c d : Option (Command V S))
      → y.turn ≡ (poll_sources x a).0.turn
      → a.read ≡ some m
      → b.read ≡ some n
      → a.commands ≡ some c
      → b.commands ≡ some d
      → length x.app < x.config.outbox_capacity
      → length y.app < y.config.outbox_capacity
      → (((poll_sources x a).1 ≡ poll_read a.read)
          × ((poll_sources y b).1 ≡ poll_commands b.commands))
        ⊎ (((poll_sources x a).1 ≡ poll_commands a.commands)
            × ((poll_sources y b).1 ≡ poll_read b.read))
  poll_sources_fair x y a b m n c d next ra rb ca cb free free' =
      let first = served x a m c ra ca free in
      let second = served y b n d rb cb free' in
      elim (Bool-cases x.turn) [
        | inl e ↦
            let e' : y.turn ≡ false = rw (next, flips, e) refl in
            inr (first ∙ rw e refl, second ∙ rw e' refl)
        | inr e ↦
            let e' : y.turn ≡ true = rw (next, flips, e) refl in
            inl (first ∙ rw e refl, second ∙ rw e' refl)
      ]

  check_liveness_closes :
      (env : Env V S) (x : Runner r V S) (now : ℕ)
      → ((check_liveness env x now).1 ≡ none)
        ↔ (now - x.liveness.last_seen < x.liveness.idle_before_dead)
  unfolding check_liveness push_priority
  check_liveness_closes env x now =
      let deadly = (poll_cases x.liveness now).0 in
      elim (Liveness-cases (Liveness.poll x.liveness now).0) [
        | inl e ↦ rw (e, check_liveness) (ground (arith, deadly, e))
        | inr (inl e) ↦ rw (e, check_liveness) (ground (arith, deadly, e))
        | inr (inr e) ↦ rw (e, check_liveness) (ground (arith, deadly, e))
      ]

  check_liveness_keeps :
      (env : Env V S) (x : Runner r V S) (now : ℕ)
      → (check_liveness env x now).0.handshake_deadline ≡ x.handshake_deadline
  unfolding check_liveness push_priority
  check_liveness_keeps env x now = elim (Liveness-cases (Liveness.poll x.liveness now).0) [
    | inl e ↦ rw (e, check_liveness) refl
    | inr (inl e) ↦ rw (e, check_liveness) refl
    | inr (inr e) ↦ rw (e, check_liveness) refl
  ]

  clear_handshake_ready :
      (x : Runner r V S)
      → is_ready x.session.phase ≡ true
      → clear_handshake x ≡ record x { handshake_deadline = none }
  unfolding clear_handshake
  clear_handshake_ready x e = ap (λ b. if b then record x { handshake_deadline = none } else x) e

  clear_handshake_waits :
      (x : Runner r V S) → is_ready x.session.phase ≡ false → clear_handshake x ≡ x
  unfolding clear_handshake
  clear_handshake_waits x e = ap (λ b. if b then record x { handshake_deadline = none } else x) e

  -- The handshake is over time.
  abbrev pub late : Runner r V S → ℕ → Bool
  late x now =
      not (is_ready x.session.phase) && is_some_and x.handshake_deadline (λ limit. leb limit now)

  -- The timer ends the connection exactly where the handshake is over time, or the silence has
  -- reached the threshold of death; and it makes the handshake of a ready session no longer count.
  pub on_deadline_closes :
      (env : Env V S) (x : Runner r V S) (now : ℕ)
      → let (y, outcome) = on_deadline env x now in
        ((outcome ≡ none)
          ↔ ((late x now ≡ false) × (now - x.liveness.last_seen < x.liveness.idle_before_dead)))
        × (is_ready x.session.phase ≡ true → y.handshake_deadline ≡ none)
  unfolding on_deadline
  on_deadline_closes env x now = elim (Bool-cases (is_ready x.session.phase)) [
    | inl e ↦
        let (then_alive, alive) =
          check_liveness_closes env (record x { handshake_deadline = none }) now in
        rw (clear_handshake_ready x e, e)
          (
            (λ h. (refl, then_alive h), λ h. alive h.1),
            λ h. check_liveness_keeps env (record x { handshake_deadline = none }) now,
          )
    | inr e ↦
        let (then_alive, alive) = check_liveness_closes env x now in
        elim (Bool-cases (is_some_and x.handshake_deadline (λ limit. leb limit now))) [
          | inl over ↦ rw (clear_handshake_waits x e, e, over) ((λ h. cc, λ h. cc), λ h. cc)
          | inr on_time ↦
              rw (clear_handshake_waits x e, e, on_time)
                ((λ h. (refl, then_alive h), λ h. alive h.1), λ h. cc)
        ]
  ]
