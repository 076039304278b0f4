-- ===== src/Realtime/Liveness.antt =====
-- crates/rocketsocket-realtime/src/liveness.rs: the connection liveness policy. An `Instant` is a
-- number of nanoseconds since a common origin, and a `Duration` a number of nanoseconds.
mod Tests
pub mod Polls
pub mod Deadlines
use rocketsocket.Base.{
  ℕ, ◌+◌, ◌-◌, ◌*◌, Option, none, some, Bool, true, false, not, ◌&&◌, max, ltb, leb, if◌then◌else◌,
}

pub data Liveness : Type 0 where
  healthy send_ping dead : Liveness

pub record LivenessPolicy : Type 0 where
  pub idle_before_ping : ℕ
  pub idle_before_dead : ℕ
  pub last_seen : ℕ
  pub ping_in_flight : Bool

abbrev pub default_ping_after : ℕ
default_ping_after = 25 * 1000000000

abbrev pub default_dead_after : ℕ
default_dead_after = 45 * 1000000000

-- `none` where the assertion on the thresholds panics.
unfoldable pub with_thresholds : ℕ → ℕ → ℕ → Option LivenessPolicy
with_thresholds idle_before_ping idle_before_dead now =
    if ltb idle_before_ping idle_before_dead
    then some (record {
      idle_before_ping = idle_before_ping;
      idle_before_dead = idle_before_dead;
      last_seen = now;
      ping_in_flight = false;
    })
    else none

unfoldable pub new : ℕ → Option LivenessPolicy
unfolding with_thresholds
new now = with_thresholds default_ping_after default_dead_after now

unfoldable pub saw_traffic : LivenessPolicy → ℕ → LivenessPolicy
saw_traffic p now = record p { last_seen = now; ping_in_flight = false }

-- `saturating_duration_since`: zero for a time before the last traffic.
unfoldable pub idle_for : LivenessPolicy → ℕ → ℕ
idle_for p now = now - p.last_seen

unfoldable pub poll : LivenessPolicy → ℕ → Liveness × LivenessPolicy
unfolding idle_for
poll p now =
    let idle = idle_for p now in
    if leb p.idle_before_dead idle
    then (dead, p)
    else if leb p.idle_before_ping idle && not p.ping_in_flight
    then (send_ping, record p { ping_in_flight = true })
    else (healthy, p)

unfoldable pub next_deadline : LivenessPolicy → ℕ → ℕ
unfolding idle_for
next_deadline p now =
    let target = if p.ping_in_flight then p.idle_before_dead else p.idle_before_ping in
    p.last_seen + max target (idle_for p now)
