-- ===== src/Bot/Roles/Tests.antt =====
-- A directory that remembers the administrators, and a room.
use rocketsocket.Base.{◌≡◌, refl, none, some, [], ◌∷◌, arith, ℕ_eq, String_eq, ok, elem, Option_eq}
use rocketsocket.Map.{Map, get, insert, empty}
use rocketsocket.Bot.Filter.{admin_or_room_admin}
use rocketsocket.Bot.Roles.{
  RoleDirectory, Lookup, Inquiry, default_config, new, cached, room_slot, store_answer, verdict,
  invalidate_global, invalidate_room,
}
use rocketsocket.Bot.Roles.Slots.{IsValid, here, next, looks, drops_global, Reach-IsValid}
use rocketsocket.Bot.Roles.Staleness.{Late, store_all, invalidate_room_asks}
use rocketsocket.Bot.Roles.History
use rocketsocket.Bot.Roles.History.{Told, Course, Reach, start, begins_room, stores, first}
use rocketsocket.Bot.Roles.Provenance.{Entitled, verdict-Entitled}

-- The room is in slot 1, and the administrators, u1, in slot 0 since the time 100.
abbrev known : RoleDirectory
known = record {
  config = record { ttl = 300; failure_ttl = 30; timeout = 5; max_rooms = 1 };
  slots = (0, record { holders = some ("u1" ∷ []); fetched_at = 100 }) ∷ [];
  next = 2;
  global = 0;
  rooms = ("r1", record { slot = 1; touched = 150 }) ∷ [];
}

known-IsValid : IsValid known
unfolding get
known-IsValid = record {
  made = (omega arith, tt);
  functional = (refl, tt);
  bounded = λ h. omega arith;
}

-- An inquiry that the server answers with an owner, u2, and one that it does not answer.
abbrev answered : Inquiry
answered = record {
  asked = 200;
  started = 201;
  answer = some (ok (record { id = "u2"; roles = "owner" ∷ [] } ∷ []));
}

abbrev unanswered : Inquiry
unanswered = record { asked = 200; started = 201; answer = none }

-- The room r2 takes the place of r1, and its owner passes.
passes : (verdict known admin_or_room_admin "u2" "r2" unanswered answered).1 ≡ none
unfolding verdict get insert rocketsocket.Map.remove elem
passes = refl

Reach-IsValid_example : IsValid (invalidate_global (room_slot (new default_config) "r1" 5).0)
Reach-IsValid_example = Reach-IsValid default_config (next (next here (looks "r1" 5)) drops_global)

-- A lookup of r1 that is still to store its answer.
abbrev late : Late
late = record {
  slot = 1;
  lookup = Lookup.room "r1";
  started = 190;
  answer = some (ok (record { id = "u3"; roles = "moderator" ∷ [] } ∷ []));
}

invalidate_room_asks_example :
    let (looked, slot) = room_slot (store_all (invalidate_room known "r1") (late ∷ [])) "r1" 210 in
    cached looked slot 211 ≡ none
invalidate_room_asks_example =
    invalidate_room_asks known "r1" (late ∷ []) 210 211 known-IsValid (omega arith, tt)

-- What the server answered to a lookup of r1: u2 owns it.
abbrev owned : Told
owned = record {
  lookup = Lookup.room "r1";
  started = 6;
  answer = some (ok (record { id = "u2"; roles = "owner" ∷ [] } ∷ []));
}

-- The directory that has looked up r1, and has the answer.
abbrev informed : Course
informed =
    let looked = room_slot (new default_config) "r1" 5 in
    record {
      directory = (store_answer looked.0 looked.1 owned.lookup owned.started owned.answer).0;
      begun = (looked.1, Lookup.room "r1") ∷ [];
      log = owned ∷ [];
    }

informed_reached : Reach (start default_config) informed
informed_reached =
    History.next (History.next History.here (begins_room "r1" 5))
      (stores (room_slot (new default_config) "r1" 5).1 owned first)

-- Her next message needs no answer.
remembered :
    (verdict informed.directory admin_or_room_admin "u2" "r1" unanswered unanswered).1 ≡ none
unfolding verdict get insert rocketsocket.Map.remove elem new
remembered = refl

verdict-Entitled_example :
    Entitled informed.directory.config.ttl informed.log admin_or_room_admin "u2" "r1" unanswered
      unanswered
verdict-Entitled_example =
    verdict-Entitled default_config admin_or_room_admin "u2" "r1" unanswered unanswered
      informed_reached remembered
