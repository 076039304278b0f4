-- ===== src/Realtime/Liveness/Polls.antt =====
-- What a sequence of polls answers.
use rocketsocket.Base.{
  ℕ, suc, ◌-◌, ◌≤◌, ◌<◌, ◌≡◌, refl, ◌↔◌, ◌⊎◌, inl, inr, true, false, List, [], ◌∷◌, arith, ℕ_eq,
  String_eq, Option_eq,
}
use rocketsocket.Realtime.Liveness.{Liveness, healthy, send_ping, dead, LivenessPolicy, poll}

pub Liveness-cases : (v : Liveness) → (v ≡ healthy) ⊎ ((v ≡ send_ping) ⊎ (v ≡ dead))
Liveness-cases healthy = inl refl
Liveness-cases send_ping = inr (inl refl)
Liveness-cases dead = inr (inr refl)

-- The thresholds that the constructor admits.
pub record IsValid (p : LivenessPolicy) : Type 0 where
  pub ordered : p.idle_before_ping < p.idle_before_dead

-- The answer by the silence: dead from the second threshold on; a ping from the first, if none is
-- in flight; and no other change of the policy.
pub poll_cases :
    (p : LivenessPolicy) (now : ℕ)
    → let idle = now - p.last_seen in
      let (answer, after) = poll p now in
      ((answer ≡ dead) ↔ (p.idle_before_dead ≤ idle))
      × ((answer ≡ send_ping) ↔ (
          (idle < p.idle_before_dead) × (p.idle_before_ping ≤ idle) × (p.ping_in_flight ≡ false)))
      × (after.last_seen ≡ p.last_seen)
      × ((after.ping_in_flight ≡ true) ↔ ((p.ping_in_flight ≡ true) ⊎ (answer ≡ send_ping)))
unfolding poll
poll_cases p now = (
  (ground arith, ground arith),
  (ground arith, ground arith),
  ground arith,
  (ground arith, ground arith),
)

-- The answers to polls at the given times, with no traffic between them.
abbrev silent_polls : LivenessPolicy → List ℕ → List Liveness
silent_polls p [] = []
silent_polls p (now ∷ later) = let (answer, after) = poll p now in answer ∷ silent_polls after later

abbrev pings : List Liveness → ℕ
pings [] = 0
pings (healthy ∷ r) = pings r
pings (send_ping ∷ r) = suc (pings r)
pings (dead ∷ r) = pings r

pings_in_flight :
    (p : LivenessPolicy) (times : List ℕ)
    → p.ping_in_flight ≡ true
    → pings (silent_polls p times) ≡ 0
unfolding poll
pings_in_flight p [] h = refl
pings_in_flight p (now ∷ later) h = ground (arith, pings_in_flight p later)

-- A silent stretch is probed at most once, however often and in whatever order of times the
-- policy is polled.
pings-silent_polls-le : (p : LivenessPolicy) (times : List ℕ) → pings (silent_polls p times) ≤ 1
unfolding poll
pings-silent_polls-le p [] = omega arith
pings-silent_polls-le p (now ∷ later) = ground (
  arith,
  pings-silent_polls-le p later,
  pings_in_flight (record p { ping_in_flight = true }) later,
)
