-- ===== src/Realtime/Connection/Tracking/Endings.antt =====
-- The end of a connection: what it tells the callers, and where it leaves the tracking.
use mathlib.Core.List.{Mem, mem-append_left, mem-append_right}
use rocketsocket.Base.{
  ℕ, String, ◌≡◌, refl, true, none, some, List, [], ◌++◌, if◌then◌else◌, ℕ_eq, String_eq, err, elem,
  Option_eq,
}
use rocketsocket.Map.{get}
use rocketsocket.Realtime.Backoff.{Rng}
use rocketsocket.Realtime.Correlate.{Correlator, Pending, Reply, disconnect, abandoned, not_sent}
use rocketsocket.Realtime.Correlate.Wire.{Tracks}
use rocketsocket.Realtime.Correlate.Wire.Marks.{disconnect-Tracks, disconnect_told}
use rocketsocket.Realtime.Connection.{Outcome, closed, shutdown, fatal, Env, Runner}
use rocketsocket.Realtime.Connection.State.{mark_all, settle, connection_ended, set_state, emit}
use rocketsocket.Realtime.Connection.Polls.{handed}
use rocketsocket.Realtime.Connection.Drive.{conclude}
use rocketsocket.Realtime.Connection.Tracking.{
  Lane, method_lane, sub_lane, TracksLane, table, pick, frame_ids, pick-mark_all,
}
use rocketsocket.Realtime.Connection.Tracking.Outputs.{marked-Tracks}

in_either {ℓ} :
    {A : Type ℓ} (lane : Lane) (xs : List A) (news : Lane → List A) (v : A)
    → Mem v (news lane)
    → Mem v (xs ++ (news method_lane ++ news sub_lane))
in_either method_lane xs news v m = mem-append_right xs (mem-append_left _ m)
in_either sub_lane xs news v m = mem-append_right xs (mem-append_right (news method_lane) m)

module _ {r : Rng} {V S : Type 0} where
  pub handed-none : (x : Runner r V S) → x.socket ≡ none → handed x ≡ []
  unfolding handed
  handed-none x e = rw e refl

module _ {r : Rng} {V S : Type 0} (env : Env V S) where
  -- What a table becomes.
  abbrev cleared : Lane → Runner r V S → Correlator S
  cleared lane x =
      (disconnect {V = V} env.is_open (pick lane (mark_all x.unflushed (x.methods, x.subs)))).0

  cleared-Tracks :
      (lane : Lane) (x : Runner r V S) (room : ℕ)
      → TracksLane lane x room
      → Tracks (cleared lane x) [] [] [] [] room
  cleared-Tracks lane x room t =
      disconnect-Tracks V env.is_open _ _ _ _ _ room (marked-Tracks lane x room t)

  pub conclude-TracksLane :
      (lane : Lane) (x : Runner r V S) (o : Outcome) (now : ℕ) (room : ℕ)
      → TracksLane lane x room
      → TracksLane lane (conclude env x o now) room
  unfolding conclude connection_ended settle set_state emit handed
  conclude-TracksLane method_lane x (closed reason) now room t = cleared-Tracks method_lane x room t
  conclude-TracksLane sub_lane x (closed reason) now room t = cleared-Tracks sub_lane x room t
  conclude-TracksLane method_lane x shutdown now room t = cleared-Tracks method_lane x room t
  conclude-TracksLane sub_lane x shutdown now room t = cleared-Tracks sub_lane x room t
  conclude-TracksLane method_lane x (fatal f) now room t = cleared-Tracks method_lane x room t
  conclude-TracksLane sub_lane x (fatal f) now room t = cleared-Tracks sub_lane x room t

  -- Without a socket, too, the end of the connection leaves the tables empty.
  pub connection_ended-TracksLane :
      (lane : Lane) (x : Runner r V S) (reason : String) (now room : ℕ)
      → x.socket ≡ none
      → TracksLane lane x room
      → TracksLane lane (connection_ended env x reason now) room
  unfolding connection_ended settle set_state emit handed
  connection_ended-TracksLane method_lane x reason now room parted t =
      rw parted (cleared-Tracks method_lane x room t)
  connection_ended-TracksLane sub_lane x reason now room parted t =
      rw parted (cleared-Tracks sub_lane x room t)

  -- The replies of `settle`.
  abbrev told : Runner r V S → Lane → List (S × Reply V)
  told x lane =
      (disconnect {V = V} env.is_open (pick lane (mark_all x.unflushed (x.methods, x.subs)))).2

  conclude-replies :
      (x : Runner r V S) (o : Outcome) (now : ℕ)
      → (conclude env x o now).replies ≡ x.replies ++ (told x method_lane ++ told x sub_lane)
  unfolding conclude connection_ended settle set_state emit
  conclude-replies x (closed reason) now = refl
  conclude-replies x shutdown now = refl
  conclude-replies x (fatal f) now = refl

  -- The verdict on a call, by the frames that the socket has accepted.
  abbrev pub judged : Lane → Runner r V S → String → S → S × Reply V
  judged lane x id reply =
      (reply, err (if elem (frame_ids lane (handed x)) id then abandoned id else not_sent))

  -- In the tracking runner, the end of the connection, for whatever reason, tells a pending call's
  -- caller that still waits whether its frame was handed to the socket.
  pub conclude_told :
      (lane : Lane) (x : Runner r V S) (o : Outcome) (now room : ℕ) (id : String) (p : Pending S)
      → TracksLane lane x room
      → get (table lane x).pending id ≡ some p
      → env.is_open p.reply ≡ true
      → Mem (judged lane x id p.reply) (conclude env x o now).replies
  unfolding elem disconnect
  conclude_told lane x o now room id p t e waits =
      let verdict = disconnect_told {V = V} env.is_open _ _ _ _ _ room id p t e waits in
      rw conclude-replies (in_either lane x.replies (told x) _ (rw pick-mark_all verdict))
