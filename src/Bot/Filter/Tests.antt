-- ===== src/Bot/Filter/Tests.antt =====
-- The default filters on a message of somebody else, and on the bot's own.
use rocketsocket.Base.{◌≡◌, refl, ◌↔◌, true, none, some, [], ◌∷◌, ℕ_eq, String_eq, elem, Option_eq}
use rocketsocket.Bot.Filter.{
  Filters, Message, default_filters, local_verdict, is_own, lacks_prefix, is_elsewhere,
  lacks_mention, own_event,
}
use rocketsocket.Bot.Filter.Verdict.{Passes, local_verdict_iff}

abbrev hello : Message
hello = record {
  author = "u1";
  msg = "!ping";
  t = none;
  edited_at = none;
  mentions = some ("bot" ∷ []);
}

-- Hears only commands that mention the bot.
abbrev commands : Filters
commands = record default_filters { prefix = some "!"; mentions_me = true }

hello_passes : local_verdict commands hello "GENERAL" (some "bot") ≡ none
unfolding local_verdict is_own lacks_prefix is_elsewhere lacks_mention elem
hello_passes = refl

own_rejected : local_verdict commands hello "GENERAL" (some "u1") ≡ some own_event
unfolding local_verdict is_own
own_rejected = refl

local_verdict_iff_example :
    (local_verdict commands hello "GENERAL" (some "bot") ≡ none)
    ↔ Passes commands hello "GENERAL" (some "bot")
local_verdict_iff_example = local_verdict_iff commands hello "GENERAL" (some "bot")
