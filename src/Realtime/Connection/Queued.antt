-- ===== src/Realtime/Connection/Queued.antt =====
-- A call that is made while the connection is down.
use rocketsocket.Base.{String, ◌≡◌, false, some, List, [], ℕ_eq, String_eq, Option_eq}
use rocketsocket.Map.{get}
use rocketsocket.Realtime.Backoff.{Rng}
use rocketsocket.Realtime.Correlate.{Pending}
use rocketsocket.Realtime.Connection.{Env, Runner}

module _ {r : Rng} {V S : Type 0} (env : Env V S) where
  -- The entry that `register` makes.
  abbrev entry : Runner r V S → S → Pending S
  entry x reply = record { epoch = x.methods.epoch; sent = false; reply = reply }

  -- A call is in the table, and no frame is unflushed.
  abbrev Queued : Runner r V S → String → Pending S → Type 0
  Queued y id p = (get y.methods.pending id ≡ some p) × (y.unflushed ≡ [])
