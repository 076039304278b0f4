-- ===== src/Bot/Framework/Tests.antt =====
-- Two handlers: one for owners, and one that does not ask.
use rocketsocket.Base.{
  String, ◌≡◌, refl, none, some, [], ◌∷◌, ◌++◌, All, ℕ_eq, String_eq, ok, elem, Option_eq,
}
use rocketsocket.Map.{get, insert}
use rocketsocket.Bot.Filter.{Message, default_filters, room_admin, local_verdict}
use rocketsocket.Bot.Roles.{RoleDirectory, Holder, Inquiry, default_config, new}
use rocketsocket.Bot.Framework.{stream, my_message, Handler, Framework, World, dispatch, message_of}
use rocketsocket.Bot.Roles.History.{here, start}
use rocketsocket.Bot.Framework.Guards.{Offered, resolved}
use rocketsocket.Bot.Framework.Entitlement.{MayCall, asked, dispatch-MayCall}

abbrev owners : Handler
owners = record { name = "purge"; filters = record default_filters { authority = room_admin } }

abbrev open_to_all : Handler
open_to_all = record { name = "hello"; filters = default_filters }

abbrev framework : Framework
framework = record {
  handlers = owners ∷ open_to_all ∷ [];
  me = none;
  roles = record { config = default_config; slots = []; next = 1; global = 0; rooms = [] };
}

-- The server says that alice owns the room, and answers no other lookup.
abbrev world : World
world = record {
  user_id = some "bot";
  inquiries = λ h. (
    record { asked = 5; started = 6; answer = none },
    record {
      asked = 5;
      started = 6;
      answer = some (ok (record { id = "alice"; roles = "owner" ∷ [] } ∷ []));
    },
  );
}

abbrev said_by : String → Message
said_by author = record { author = author; msg = "hi"; t = none; edited_at = none; mentions = none }

on_alice : message_of (stream (my_message (said_by "alice") "r1")) ≡ some (said_by "alice", "r1")
unfolding message_of
on_alice = refl

roles_are_new : framework.roles ≡ (start default_config).directory
unfolding new
roles_are_new = refl

dispatch-MayCall_example :
    (let called = (dispatch framework world (stream (my_message (said_by "alice") "r1"))).1 in
      Offered world
        (resolved framework world)
        (said_by "alice")
        "r1"
        framework.roles
        framework.handlers
        called
      × All
          (MayCall world
            (resolved framework world)
            (said_by "alice")
            "r1"
            (start default_config).directory.config
            (asked world "r1" framework.handlers ++ []))
          called)
dispatch-MayCall_example =
    dispatch-MayCall default_config framework world (stream (my_message (said_by "alice") "r1"))
      (said_by "alice") "r1" here roles_are_new on_alice

owner_reaches_both :
    (dispatch framework world (stream (my_message (said_by "alice") "r1"))).1
    ≡ owners ∷ open_to_all ∷ []
unfolding dispatch local_verdict get insert elem rocketsocket.Bot.Roles.verdict
owner_reaches_both = refl

other_reaches_one :
    (dispatch framework world (stream (my_message (said_by "bob") "r1"))).1 ≡ open_to_all ∷ []
unfolding dispatch local_verdict get insert elem rocketsocket.Bot.Roles.verdict
other_reaches_one = refl

bot_reaches_none : (dispatch framework world (stream (my_message (said_by "bot") "r1"))).1 ≡ []
unfolding dispatch local_verdict get insert elem rocketsocket.Bot.Roles.verdict
bot_reaches_none = refl
