-- ===== src/Bot/Framework.antt =====
-- crates/rocketsocket/src/framework.rs: the dispatch of events to handlers. What a handler's body
-- does is not part of the model: its error only goes to the log.
pub mod Guards
pub mod Entitlement
mod Tests
use rocketsocket.Base.{
  ℕ, zero, suc, ◌+◌, ◌-◌, ◌*◌, ◌/◌, ◌%◌, ◌^◌, ◌≤◌, ◌<◌, String, ◌≡◌, refl, sym, ap, ◌∙◌, ◌≢◌, ◌↔◌,
  ◌⊎◌, inl, inr, Bool, true, false, not, ◌&&◌, ◌||◌, Option, none, some, List, [], ◌∷◌, ◌++◌, arith,
  ltb, leb, nat_eq, if◌then◌else◌, Eq, ◌==◌, ℕ_eq, String_eq, Bool-cases, if-keeps, Result-cases,
  elem-append, elem-retain, and_then, Option-cases, is_some, is_some_and, Result, ok, err, map_err,
  length, All, retain, elem, option_eq, option_eq_iff, Option_eq,
}
use rocketsocket.Bot.Filter.{Filters, Filtered, Message, Authority, local_verdict}
use rocketsocket.Bot.Roles.{
  RoleDirectory, RoleChange, Inquiry, apply_role_change, invalidate_all, verdict,
}

-- The stream events that dispatch tells apart. A message of `__my_messages__` names its own room.
pub data StreamEvent : Type 0 where
  my_message : (message : Message) (rid : String) → StreamEvent
  room_message : (message : Message) (room : String) → StreamEvent
  roles_changed : RoleChange → StreamEvent
  other : StreamEvent

pub data ClientEvent : Type 0 where
  stream : StreamEvent → ClientEvent
  resubscribed : (epoch restored : ℕ) → ClientEvent
  connection : ClientEvent

pub record Handler : Type 0 where
  pub name : String
  pub filters : Filters

-- `me` is the `OnceCell`, empty or set.
pub record Framework : Type 0 where
  pub handlers : List Handler
  pub me : Option (Option String)
  pub roles : RoleDirectory

-- What a dispatch takes from elsewhere: the id of the bot, once it is authenticated, and the
-- inquiries of a handler about the roles, for the workspace and for the room.
pub record World : Type 0 where
  pub user_id : Option String
  pub inquiries : Handler → Inquiry × Inquiry

unfoldable pub observe : Framework → ClientEvent → Framework
observe f (stream (roles_changed change)) = record f { roles = apply_role_change f.roles change }
observe f (resubscribed epoch restored) = record f { roles = invalidate_all f.roles }
observe f _ = f

-- `get_or_init` of the bot's own id.
unfoldable pub own_id : Framework → World → Framework × Option String
own_id f world = elim f.me [
  | none ↦ (record f { me = some world.user_id }, world.user_id)
  | some me ↦ (f, me)
]

-- The message of an event, and its room.
unfoldable pub message_of : ClientEvent → Option (Message × String)
message_of (stream (my_message message rid)) = some (message, rid)
message_of (stream (room_message message room)) = some (message, room)
message_of _ = none

unfoldable pub authority_verdict :
    Framework → Handler → World → Message → String → Framework × Option Filtered
authority_verdict f h world message room =
    let (q, q') = world.inquiries h in
    let (roles, reason) = verdict f.roles h.filters.authority message.author room q q' in
    (record f { roles = roles }, reason)

-- The filters of a handler on a message.
unfoldable pub filtered_message :
    Framework → Handler → World → Message → String → Framework × Option Filtered
unfolding own_id authority_verdict
filtered_message f h world message room =
    let (f', me) = own_id f world in
    elim (local_verdict h.filters message room me) [
      | some reason ↦ (f', some reason)
      | none ↦ authority_verdict f' h world message room
    ]

unfoldable pub filtered : Framework → Handler → World → ClientEvent → Framework × Option Filtered
unfolding message_of filtered_message
filtered f h world event = elim (message_of event) [
  | none ↦ (f, none)
  | some (message, room) ↦ filtered_message f h world message room
]

-- The loop over the handlers, and those that it calls.
unfoldable pub offer_each :
    Framework → List Handler → World → ClientEvent → Framework × List Handler
unfolding filtered
offer_each f [] world event = (f, [])
offer_each f (h ∷ rest) world event =
    let (f', reason) = filtered f h world event in
    let (f'', called) = offer_each f' rest world event in
    (f'', if is_some reason then called else h ∷ called)

unfoldable pub dispatch : Framework → World → ClientEvent → Framework × List Handler
unfolding observe offer_each
dispatch f world event =
    let observed = observe f event in offer_each observed observed.handlers world event
