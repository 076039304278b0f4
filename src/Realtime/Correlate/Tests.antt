-- ===== src/Realtime/Correlate/Tests.antt =====
-- A table with one call that was sent, whose caller still waits on channel 7.
use mathlib.Core.List.{Mem}
use rocketsocket.Base.{
  All, ℕ, ◌≤◌, String, ◌≡◌, refl, ◌≢◌, Bool, true, some, List, [], ◌∷◌, arith, nat_eq, ℕ_eq,
  String_eq, Result, ok, length, Option_eq,
}
use rocketsocket.Map.{get}
use rocketsocket.Protocol.{DdpError}
use rocketsocket.Realtime.Correlate.{
  Correlator, Pending, unknown, stale_epoch, new, resolve, disconnect,
}
use rocketsocket.Realtime.Correlate.Invariant.{IsValid}
use rocketsocket.Realtime.Correlate.Settling.{disconnect_settles, verdict}
use rocketsocket.Realtime.Correlate.History.{
  Call, registers, marks, resolves, cancels, disconnects, run, Balanced, run-Balanced,
}
use rocketsocket.Realtime.Correlate.Epochs.{resolutions, never_stale}
use rocketsocket.Base.Texts.{to_decimal}

abbrev sent_call : Pending ℕ
sent_call = record { epoch = 0; sent = true; reply = 7 }

abbrev one_call : Correlator ℕ
one_call = record { epoch = 0; next_id = 1; prefix = "c"; pending = ("c0", sent_call) ∷ [] }

abbrev waits : ℕ → Bool
waits s = nat_eq s 7

one_call-IsValid : IsValid one_call
unfolding to_decimal get
one_call-IsValid = record {
  issued = ((0, omega arith, refl), tt);
  current = (refl, tt);
  functional = (refl, tt);
}

found : get one_call.pending "c0" ≡ some sent_call
unfolding get
found = refl

abbrev answer : Result String (DdpError String)
answer = ok "yes"

-- What a client does: it sends a second call, loses the connection, and makes a third.
abbrev calls : List (Call ℕ String)
calls =
    registers 8 ∷ marks "c1" ∷ resolves "c0" answer ∷ disconnects ∷ registers 9 ∷ cancels "c2" ∷ []

run-Balanced_example : Balanced one_call (run waits one_call calls)
run-Balanced_example = run-Balanced waits calls one_call one_call-IsValid (omega arith)

disconnect_settles_example :
    let (after, count, sent) = disconnect {V = String} waits one_call in
    Mem (verdict waits "c0" sent_call) sent
    × (length sent ≤ count)
    × (resolve waits after "c0" answer ≡ (after, unknown, []))
disconnect_settles_example = disconnect_settles waits one_call "c0" sent_call answer found refl

never_stale_example :
    All
      (λ answer. answer ≢ stale_epoch)
      (resolutions waits (new "c") (registers 7 ∷ disconnects ∷ resolves "c0" answer ∷ []))
never_stale_example = never_stale waits "c" (registers 7 ∷ disconnects ∷ resolves "c0" answer ∷ [])
