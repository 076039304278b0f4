-- ===== src/Realtime/Liveness/Tests.antt =====
-- The policy with a ping after 25 and death after 45, in some unit of time.
use rocketsocket.Base.{
  ◌<◌, ◌≡◌, refl, ◌≢◌, true, false, arith, if◌then◌else◌, ℕ_eq, String_eq, Option_eq,
}
use rocketsocket.Realtime.Liveness.{LivenessPolicy, healthy, send_ping, dead, poll, next_deadline}
use rocketsocket.Realtime.Liveness.Polls.{IsValid}
use rocketsocket.Realtime.Liveness.Deadlines.{poll_at_deadline}

abbrev sample : LivenessPolicy
sample = record {
  idle_before_ping = 25;
  idle_before_dead = 45;
  last_seen = 100;
  ping_in_flight = false;
}

abbrev pinged : LivenessPolicy
pinged = record {
  idle_before_ping = 25;
  idle_before_dead = 45;
  last_seen = 100;
  ping_in_flight = true;
}

sample-IsValid : IsValid sample
sample-IsValid = record { ordered = omega arith }

poll_pings : poll sample 125 ≡ (send_ping, pinged)
unfolding poll
poll_pings = refl

still_up : (poll sample 125).0 ≢ dead
unfolding poll
still_up h = cc

not_healthy : (poll sample 125).0 ≢ healthy
unfolding poll
not_healthy h = cc

poll_at_deadline_example :
    let q = (poll sample 125).1 in
    (125 < next_deadline q 125)
    × ((poll q (next_deadline q 125)).0 ≡ (if q.ping_in_flight then dead else send_ping))
poll_at_deadline_example = poll_at_deadline sample 125 sample-IsValid (omega arith) still_up
