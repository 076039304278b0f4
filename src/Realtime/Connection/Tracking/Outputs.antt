-- ===== src/Realtime/Connection/Tracking/Outputs.antt =====
-- A poll of the socket keeps the tracking.
use rocketsocket.Base.{
  ℕ, String, ◌≡◌, refl, ◌⊎◌, inl, inr, Bool, true, false, Option, none, some, List, [], ◌∷◌, ℕ_eq,
  String_eq, Bool-cases, if-keeps, Option-cases, All, Option_eq,
}
use rocketsocket.Realtime.Backoff.{Rng}
use rocketsocket.Realtime.Correlate.Wire.Marks.{flush-Tracks}
use rocketsocket.Realtime.Correlate.Wire.{Tracks, hand_over-Tracks, requeue-Tracks, All-split}
use rocketsocket.Realtime.Connection.{Outbound, Runner}
use rocketsocket.Realtime.Connection.State.{mark_all}
use rocketsocket.Realtime.Connection.Polls.{
  Offer, accepted, refused, broken, Flush, flushed, blocked, unflushable, Answers, handed,
  mark_list, writable, pop, hand_over, write, flush_all, poll_sources, poll_socket,
}
use rocketsocket.Realtime.Connection.Tracking.{
  pick, Lane, TracksLane, IsIssuedIn, ids, frame_ids, frame_ids-snoc, ids-append, pick-mark_all,
}

-- What is popped is the front of the first queue, or that of the second where the first is empty
-- and the second may be written.
abbrev pub Popped :
    {V : Type 0}
    → Bool
    → List (Outbound V)
    → List (Outbound V)
    → Outbound V
    → List (Outbound V)
    → List (Outbound V)
    → Type 0
Popped w priority app o priority' app' =
    ((priority ≡ o ∷ priority') × (app ≡ app'))
    ⊎ ((priority ≡ []) × (priority' ≡ []) × (app ≡ o ∷ app') × (w ≡ true))

pub pop-cases :
    {V : Type 0} (w : Bool) (priority app : List (Outbound V))
    → (pop w priority app ≡ none)
      ⊎ ((o : Outbound V) × (priority' : List (Outbound V)) × (app' : List (Outbound V)) × (pop w
              priority app
            ≡ some (o, priority', app'))
          × Popped w priority app o priority' app')
unfolding pop
pop-cases w (o ∷ priority) app = inr (o, priority, app, refl, inl (refl, refl))
pop-cases w [] [] = inl refl
pop-cases true [] (o ∷ app) = inr (o, [], app, refl, inr (refl, refl, refl, refl))
pop-cases false [] (o ∷ app) = inl refl

module _ {r : Rng} {V S : Type 0} where
  -- The runner whose queues have lost a frame.
  abbrev pub popped : Runner r V S → List (Outbound V) → List (Outbound V) → Runner r V S
  popped x priority app = record x { priority = priority; app = app }

  popped-TracksLane :
      (lane : Lane) (x : Runner r V S) (o : Outbound V) (priority app : List (Outbound V))
      (room : ℕ)
      → Popped (writable x) x.priority x.app o priority app
      → TracksLane lane x room
      → All (IsIssuedIn lane x) (ids lane (mark_list o.mark))
        × TracksLane lane (popped x priority app) room
  unfolding handed
  popped-TracksLane lane x o priority app room (inl (first, same)) t =
      let issued = rw first at t.priority_issued in
      let (front, back) =
        All-split _ (ids lane (mark_list o.mark)) (frame_ids lane priority) issued in
      (front, requeue-Tracks _ _ _ _ _ room _ _ back (rw same at t.app_issued) t)
  popped-TracksLane lane x o priority app room (inr (empty, empty', first, w)) t =
      let issued = rw first at t.app_issued in
      let (front, back) = All-split _ (ids lane (mark_list o.mark)) (frame_ids lane app) issued in
      (front, requeue-Tracks _ _ _ _ _ room _ _ (rw empty' tt) back t)

  hand_over-TracksLane :
      (lane : Lane) (x : Runner r V S) (o : Outbound V) (room : ℕ)
      → All (IsIssuedIn lane x) (ids lane (mark_list o.mark))
      → TracksLane lane x room
      → TracksLane lane (hand_over x o) room
  unfolding handed hand_over
  hand_over-TracksLane lane x o room h t =
      rw (frame_ids-snoc, ids-append) (hand_over-Tracks _ _ _ _ _ room _ h t)

  write-TracksLane :
      (lane : Lane) (x : Runner r V S) (offers : List Offer) (room : ℕ)
      → TracksLane lane x room
      → TracksLane lane (write x offers).0 room
  unfolding write
  write-TracksLane lane x [] room t = t
  write-TracksLane lane x (offer ∷ offers) room t = elim (pop-cases (writable x) x.priority x.app) [
    | inl e ↦ rw (e, write) t
    | inr (o, priority, app, e, from) ↦
        let (issued, t') = popped-TracksLane lane x o priority app room from t in
        let later =
          write-TracksLane lane (hand_over (popped x priority app) o) offers room
            (hand_over-TracksLane lane (popped x priority app) o room issued t') in
        rw (e, write)
          (elim offer
            as (λ offer.
              TracksLane lane
                (elim offer as (λ _. Runner r V S × Option String) [
                  | accepted ↦ write (hand_over (popped x priority app) o) offers
                  | refused error ↦ (popped x priority app, some error)
                  | broken error ↦ (x, some error)
                ]).0
                room) [ accepted ↦ later | refused error ↦ t' | broken error ↦ t ])
  ]

  -- The marks, of the flush or of the end of the connection.
  pub marked-Tracks :
      (lane : Lane) (x : Runner r V S) (room : ℕ)
      → TracksLane lane x room
      → Tracks
          (pick lane (mark_all x.unflushed (x.methods, x.subs)))
          (frame_ids lane (handed x))
          []
          (frame_ids lane x.priority)
          (frame_ids lane x.app)
          room
  marked-Tracks lane x room t = rw pick-mark_all (flush-Tracks _ _ _ _ _ room t)

  flush_all-TracksLane :
      (lane : Lane) (x : Runner r V S) (answer : Flush) (room : ℕ)
      → TracksLane lane x room
      → TracksLane lane (flush_all x answer).0 room
  unfolding flush_all handed
  flush_all-TracksLane lane x flushed room t = elim (Bool-cases x.needs_flush) [
    | inl e ↦ rw e (marked-Tracks lane x room t)
    | inr e ↦ rw e t
  ]
  flush_all-TracksLane lane x blocked room t =
      if-keeps (λ (y : Runner r V S × Option String). TracksLane lane y.0 room) x.needs_flush t t
  flush_all-TracksLane lane x (unflushable error) room t =
      if-keeps (λ (y : Runner r V S × Option String). TracksLane lane y.0 room) x.needs_flush
        {x = (x, some error)} {y = (x, none)} t t

  pub poll_socket-TracksLane :
      (lane : Lane) (x : Runner r V S) (a : Answers V S) (room : ℕ)
      → TracksLane lane x room
      → TracksLane lane (poll_socket x a).0 room
  unfolding poll_socket poll_sources handed
  poll_socket-TracksLane lane x a room t =
      let t' = write-TracksLane lane x a.offers room t in
      elim (Option-cases (write x a.offers).1) [
        | inr (error, e) ↦ rw (e, poll_socket) t'
        | inl e ↦
            let written = (write x a.offers).0 in
            let t'' = flush_all-TracksLane lane written a.flush room t' in
            elim (Option-cases (flush_all written a.flush).1) [
              | inr (error, e') ↦ rw (e, e', poll_socket) t''
              | inl e' ↦ rw (e, e', poll_socket) t''
            ]
      ]
