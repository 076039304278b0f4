-- ===== src/Realtime/Liveness/Deadlines.antt =====
-- The timer: a runner may sleep until the deadline.
use rocketsocket.Base.{ℕ, ◌≤◌, ◌<◌, ◌≡◌, ◌≢◌, arith, if◌then◌else◌, ℕ_eq, String_eq, Option_eq}
use rocketsocket.Realtime.Liveness.{healthy, send_ping, dead, LivenessPolicy, poll, next_deadline}
use rocketsocket.Realtime.Liveness.Polls.{IsValid}

-- With the ping threshold below the other and no traffic after the present: after a poll that
-- leaves the connection up, every later poll before the deadline is healthy and changes nothing.
poll_before_deadline :
    (p : LivenessPolicy) (now later : ℕ)
    → IsValid p
    → p.last_seen ≤ now
    → (poll p now).0 ≢ dead
    → now ≤ later
    → later < next_deadline (poll p now).1 now
    → poll (poll p now).1 later ≡ (healthy, (poll p now).1)
unfolding poll next_deadline
poll_before_deadline p now later v seen up after before = ground arith

-- With the ping threshold below the other and no traffic after the present: the deadline after a
-- poll that leaves the connection up lies in the future, and a poll at the deadline asks for a
-- ping, or finds the connection dead where a ping is in flight.
pub poll_at_deadline :
    (p : LivenessPolicy) (now : ℕ)
    → IsValid p
    → p.last_seen ≤ now
    → (poll p now).0 ≢ dead
    → let q = (poll p now).1 in
      (now < next_deadline q now)
      × ((poll q (next_deadline q now)).0 ≡ (if q.ping_in_flight then dead else send_ping))
unfolding poll next_deadline
poll_at_deadline p now v seen up = (ground arith, ground arith)
