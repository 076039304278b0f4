-- ===== src/Bot/Roles/Eviction.antt =====
-- The bound on the rooms that the directory remembers.
use rocketsocket.Base.{
  ℕ, zero, suc, ◌≤◌, ◌<◌, String, ◌≡◌, inl, inr, true, [], ◌∷◌, arith, ltb, leb, ℕ_eq, String_eq,
  Bool-cases, if-keeps, length, Option_eq,
}
use rocketsocket.Map.{Map, get, remove, contains}
use rocketsocket.Map.Laws.{IsFunctional, remove-IsFunctional, length-remove}
use rocketsocket.Bot.Roles.{RoomSlot, coldest_of, coldest, evict}

-- The coldest room is one of the map.
contains-coldest_of :
    (best : String × RoomSlot) (rest : Map String RoomSlot)
    → contains (best ∷ rest) (coldest_of best rest) ≡ true
unfolding coldest_of get
contains-coldest_of best [] = ground (arith, String_eq.eq_iff best.0 best.0)
contains-coldest_of best (e ∷ rest) = elim (Bool-cases (ltb e.1.touched best.1.touched)) [
  | inl older ↦ rw older (ground (arith, contains-coldest_of e rest))
  | inr kept ↦ rw kept (ground (arith, contains-coldest_of best rest))
]

-- Enough turns bring the map below the ceiling, and no turn is needed where it is.
pub evict_enough :
    (fuel max_rooms : ℕ) (rooms : Map String RoomSlot)
    → 0 < max_rooms
    → IsFunctional rooms
    → length rooms ≤ fuel
    → IsFunctional (evict fuel max_rooms rooms) × (length (evict fuel max_rooms rooms) < max_rooms)
unfolding evict coldest
evict_enough zero max_rooms rooms h f enough = (f, omega (arith, enough))
evict_enough (suc fuel) max_rooms [] h f enough =
    if-keeps (λ (m : Map String RoomSlot). IsFunctional m × (length m < max_rooms))
      (leb max_rooms 0) {x = []} {y = []} (tt, h) (tt, h)
evict_enough (suc fuel) max_rooms (e ∷ rest) h f enough =
    elim (Bool-cases (leb max_rooms (length (e ∷ rest)))) [
      | inr below ↦ rw below (f, ground arith)
      | inl full ↦
          let id = coldest_of e rest in
          let fewer : suc (length (remove (e ∷ rest) id)) ≡ length (e ∷ rest) =
            ground (arith, length-remove (e ∷ rest) id f, contains-coldest_of e rest) in
          rw full (
            evict_enough fuel max_rooms (remove (e ∷ rest) id) h
              (remove-IsFunctional (e ∷ rest) id f) (omega (arith, fewer, enough)))
    ]
