-- ===== src/Realtime/Connection/Tracking.antt =====
-- The runner keeps track of the frames it hands to the socket, in each of its two tables of calls.
pub mod Inputs
pub mod Replies
pub mod Outputs
pub mod Endings
pub mod Turns
pub mod Cycles
use rocketsocket.Base.{
  ℕ, zero, suc, ◌+◌, ◌-◌, ◌*◌, ◌/◌, ◌%◌, ◌^◌, ◌≤◌, ◌<◌, String, ◌≡◌, refl, sym, ap, ◌∙◌, ◌≢◌, ◌↔◌,
  ◌⊎◌, inl, inr, Bool, true, false, not, ◌&&◌, ◌||◌, Option, none, some, List, [], ◌∷◌, ◌++◌, arith,
  ltb, leb, nat_eq, if◌then◌else◌, Eq, ◌==◌, ℕ_eq, String_eq, Bool-cases, if-keeps, Result-cases,
  elem-append, elem-retain, and_then, Option-cases, is_some, is_some_and, Result, ok, err, map_err,
  length, All, retain, elem, option_eq, option_eq_iff, Option_eq,
}
use rocketsocket.Protocol.{ClientMessage}
use rocketsocket.Realtime.Backoff.{Rng}
use rocketsocket.Realtime.Correlate.{Correlator}
use rocketsocket.Realtime.Correlate.Invariant.{IsIssuedId}
use rocketsocket.Realtime.Correlate.Wire.{Tracks, Tracks-relax, requeue-Tracks, All-append}
use rocketsocket.Realtime.Correlate.Wire.Marks.{mark_each}
use rocketsocket.Realtime.Connection.{Mark, method, sub, Outbound, Runner}
use rocketsocket.Realtime.Connection.State.{push_app, push_priority, mark_all}
use rocketsocket.Realtime.Connection.Polls.{handed, mark_list}

-- The two tables of pending calls.
pub data Lane : Type 0 where
  method_lane sub_lane : Lane

abbrev pub pick : {S : Type 0} → Lane → Correlator S × Correlator S → Correlator S
pick method_lane tables = tables.0
pick sub_lane tables = tables.1

abbrev pub select : Lane → Mark → List String
select method_lane (method id) = id ∷ []
select method_lane (sub id) = []
select sub_lane (method id) = []
select sub_lane (sub id) = id ∷ []

-- The ids of the calls of a table among the marks.
abbrev pub ids : Lane → List Mark → List String
ids lane [] = []
ids lane (mark ∷ marks) = select lane mark ++ ids lane marks

abbrev pub frame_ids : {V : Type 0} → Lane → List (Outbound V) → List String
frame_ids lane [] = []
frame_ids lane (o ∷ frames) = ids lane (mark_list o.mark) ++ frame_ids lane frames

append_assoc : (xs ys zs : List String) → (xs ++ ys) ++ zs ≡ xs ++ (ys ++ zs)
append_assoc [] ys zs = refl
append_assoc (x ∷ xs) ys zs = ap (λ rest. x ∷ rest) (append_assoc xs ys zs)

append_nil : (xs : List String) → xs ++ [] ≡ xs
append_nil [] = refl
append_nil (x ∷ xs) = ap (λ rest. x ∷ rest) (append_nil xs)

pub ids-append :
    (lane : Lane) (xs ys : List Mark) → ids lane (xs ++ ys) ≡ ids lane xs ++ ids lane ys
ids-append lane [] ys = refl
ids-append lane (x ∷ xs) ys =
    ap (λ rest. select lane x ++ rest) (ids-append lane xs ys)
    ∙ sym (append_assoc (select lane x) (ids lane xs) (ids lane ys))

module _ {V : Type 0} where
  pub frame_ids-snoc :
      (lane : Lane) (frames : List (Outbound V)) (o : Outbound V)
      → frame_ids lane (frames ++ (o ∷ [])) ≡ frame_ids lane frames ++ ids lane (mark_list o.mark)
  frame_ids-snoc lane [] o = append_nil (ids lane (mark_list o.mark))
  frame_ids-snoc lane (f ∷ frames) o =
      ap (λ rest. ids lane (mark_list f.mark) ++ rest) (frame_ids-snoc lane frames o)
      ∙ sym (
          append_assoc (ids lane (mark_list f.mark)) (frame_ids lane frames)
            (ids lane (mark_list o.mark)))

pub pick-mark_all :
    {S : Type 0} (lane : Lane) (marks : List Mark) (tables : Correlator S × Correlator S)
    → pick lane (mark_all marks tables) ≡ mark_each (pick lane tables) (ids lane marks)
unfolding mark_all
pick-mark_all method_lane [] tables = refl
pick-mark_all sub_lane [] tables = refl
pick-mark_all method_lane (method id ∷ marks) tables = pick-mark_all method_lane marks _
pick-mark_all method_lane (sub id ∷ marks) tables = pick-mark_all method_lane marks _
pick-mark_all sub_lane (method id ∷ marks) tables = pick-mark_all sub_lane marks _
pick-mark_all sub_lane (sub id ∷ marks) tables = pick-mark_all sub_lane marks _

module _ {r : Rng} {V S : Type 0} where
  abbrev pub table : Lane → Runner r V S → Correlator S
  table lane x = pick lane (x.methods, x.subs)

  -- In the table of the lane, a call is marked as sent, or is about to be, exactly if the socket
  -- accepted its frame.
  abbrev pub TracksLane : Lane → Runner r V S → ℕ → Type 0
  TracksLane lane x room =
      Tracks (table lane x) (frame_ids lane (handed x)) (ids lane x.unflushed)
        (frame_ids lane x.priority) (frame_ids lane x.app) room

  abbrev pub IsIssuedIn : Lane → Runner r V S → String → Type 0
  IsIssuedIn lane x = IsIssuedId (table lane x).prefix (table lane x).next_id

  pub relax_lane :
      (lane : Lane) (x : Runner r V S) (room room' : ℕ)
      → room ≤ room'
      → TracksLane lane x room'
      → TracksLane lane x room
  relax_lane lane x room room' h t = Tracks-relax _ _ _ _ _ room room' h t

  pub weaken_lane :
      (lane : Lane) (x : Runner r V S) (room : ℕ)
      → TracksLane lane x (suc room)
      → TracksLane lane x room
  weaken_lane lane x room t = relax_lane lane x room (suc room) (omega arith) t

  pub push_app-TracksLane :
      (lane : Lane) (x : Runner r V S) (frame : ClientMessage V) (mark : Option Mark) (room : ℕ)
      → All (IsIssuedIn lane x) (ids lane (mark_list mark))
      → TracksLane lane x room
      → TracksLane lane (push_app x frame mark) room
  unfolding push_app handed
  push_app-TracksLane lane x frame mark room h t =
      rw frame_ids-snoc
        (requeue-Tracks _ _ _ _ _ room _ _ t.priority_issued (All-append _ _ _ t.app_issued h) t)

  pub push_priority-TracksLane :
      (lane : Lane) (x : Runner r V S) (frame : ClientMessage V) (mark : Option Mark) (room : ℕ)
      → All (IsIssuedIn lane x) (ids lane (mark_list mark))
      → TracksLane lane x room
      → TracksLane lane (push_priority x frame mark) room
  unfolding push_priority handed
  push_priority-TracksLane lane x frame mark room h t =
      rw frame_ids-snoc
        (requeue-Tracks _ _ _ _ _ room _ _ (All-append _ _ _ t.priority_issued h) t.app_issued t)
