-- ===== src/Bot/Framework/Entitlement.antt =====
-- Which handlers an event reaches, where the directory has come about by lookups of the server.
use mathlib.Core.Path.{subst}
use rocketsocket.Base.{
  String, ◌≡◌, refl, sym, Option, some, List, [], ◌∷◌, ◌++◌, ℕ_eq, String_eq, All, Option_eq,
}
use rocketsocket.Bot.Filter.{Message}
use rocketsocket.Bot.Filter.Verdict.{Passes}
use rocketsocket.Bot.Roles.{RoleCacheConfig, RoleDirectory, Lookup}
use rocketsocket.Bot.Roles.History.{Told, Course, Reach, start, In, first, later}
use rocketsocket.Bot.Roles.Soundness.{Reach-SoundCourse}
use rocketsocket.Bot.Roles.Grants.{Grounds, verdict_iff}
use rocketsocket.Bot.Roles.Provenance.{Entitled, verdict_entitles}
use rocketsocket.Bot.Framework.{Framework, World, Handler, ClientEvent, message_of, dispatch}
use rocketsocket.Bot.Roles.Upkeep.{Holds, verdict-Holds, Entitled-mono}
use rocketsocket.Bot.Framework.Guards.{
  Offered, all_offered, calls, refuses, filters_out, resolved, consulted, dispatch-Offered,
}

-- What the server answers to the inquiries of the handlers.
abbrev pub asked : World → String → List Handler → List Told
asked world room [] = []
asked world room (h ∷ rest) =
    let (q, q') = world.inquiries h in
    record { lookup = Lookup.global; started = q.started; answer = q.answer }
    ∷ record { lookup = Lookup.room room; started = q'.started; answer = q'.answer }
    ∷ asked world room rest

In-append_left : {A : Type 0} {x : A} (xs ys : List A) → In x xs → In x (xs ++ ys)
In-append_left _ ys first = first
In-append_left _ ys (later m) = later (In-append_left _ ys m)

In-append_right : {A : Type 0} {x : A} (xs ys : List A) → In x ys → In x (xs ++ ys)
In-append_right [] ys m = m
In-append_right (x ∷ xs) ys m = later (In-append_right xs ys m)

-- Two answers that are part of all, before a log that is.
joined :
    {a b : Told} {log rest total : List Told}
    → ((t : Told) → In t log → In t total)
    → ((t : Told) → In t (b ∷ a ∷ rest) → In t total)
    → (t : Told) → In t (a ∷ b ∷ log)
    → In t total
joined sub answers t first = answers t (later first)
joined sub answers t (later first) = answers t first
joined sub answers t (later (later m)) = sub t m

module _ (world : World) (me : Option String) (message : Message) (room : String)
    (config : RoleCacheConfig) (total : List Told) where
  -- The handler's filters pass the message, and the server lists the author with a role that the
  -- handler requires.
  abbrev pub MayCall : Handler → Type 0
  MayCall h =
      Passes h.filters message room me
      × Entitled config.ttl total h.filters.authority message.author room (world.inquiries h).0
          (world.inquiries h).1

  -- The log with the answers to a handler's inquiries.
  abbrev both : Handler → List Told → List Told
  both h log =
      let (q, q') = world.inquiries h in
      record { lookup = Lookup.room room; started = q'.started; answer = q'.answer }
      ∷ record { lookup = Lookup.global; started = q.started; answer = q.answer }
      ∷ log

  after :
      (log : List Told) (d : RoleDirectory) (h : Handler)
      → Holds config log d
      → Holds config (both h log) (consulted world me message room d h)
  after log d h held =
      verdict-Holds config log d message.author room (world.inquiries h).0 (world.inquiries h).1
        h.filters.authority held

  may :
      (log : List Told) (d : RoleDirectory) (h : Handler)
      → Holds config log d
      → ((t : Told) → In t log → In t total)
      → Grounds d h.filters.authority message.author room
          (world.inquiries h).0
          (world.inquiries h).1
      → Entitled config.ttl total h.filters.authority message.author room
          (world.inquiries h).0
          (world.inquiries h).1
  may log d h held sub grounds =
      let (q, q') = world.inquiries h in
      let required = h.filters.authority in
      let passes = (verdict_iff d required message.author room q q').1 grounds in
      let entitled =
        verdict_entitles held.owner d log held.sound required message.author room q q' passes in
      Entitled-mono config.ttl log total sub required message.author room q q' (
        subst (λ (c : RoleCacheConfig). Entitled c.ttl log required message.author room q q')
          held.config_is entitled)

  offered-MayCall :
      {d : RoleDirectory} {handlers called : List Handler} (log : List Told)
      → Offered world me message room d handlers called
      → Holds config log d
      → ((t : Told) → In t log → In t total)
      → ((t : Told) → In t (asked world room handlers) → In t total)
      → All MayCall called
  offered-MayCall log all_offered h sub answers = tt
  offered-MayCall {d} log (calls {h = handler} locally grounds rest) h sub answers = (
    (locally, may log d handler h sub grounds),
    offered-MayCall (both handler log) rest (after log d handler h) (joined sub answers)
        (λ t m. answers t (later (later m))),
  )
  offered-MayCall {d} log (refuses {h = handler} locally grounds rest) h sub answers =
      offered-MayCall (both handler log) rest (after log d handler h) (joined sub answers)
        (λ t m. answers t (later (later m)))
  offered-MayCall {d} log (filters_out locally rest) h sub answers =
      offered-MayCall log rest h sub (λ t m. answers t (later (later m)))

-- Where the directory has come about by any lookups, answers and invalidations of a new one, in any
-- order: a message is offered to the handlers in order. Those are called whose filters pass it, for
-- the bot's own id as it is resolved at the first message, and whose role is attested in the
-- directory as their turn finds it; where no id is resolved, the filter of own messages passes all.
-- For each of them the server lists the author with a role that
-- the handler requires, in an answer to a lookup of just that: in what it answers to the handler now,
-- or in an answer that is younger than `ttl`, from the history or to an inquiry of these handlers.
pub dispatch-MayCall :
    (config : RoleCacheConfig) {h : Course} (f : Framework) (world : World) (event : ClientEvent)
    (message : Message) (room : String)
    → Reach (start config) h
    → f.roles ≡ h.directory
    → message_of event ≡ some (message, room)
    → let called = (dispatch f world event).1 in
      Offered world (resolved f world) message room f.roles f.handlers called
      × All
          (MayCall world
            (resolved f world)
            message
            room
            h.directory.config
            (asked world room f.handlers ++ h.log))
          called
dispatch-MayCall config {h} f world event message room reached roles is_message =
    let c = Reach-SoundCourse config reached in
    let offered = dispatch-Offered f world event message room is_message in
    let held : Holds h.directory.config h.log h.directory = record {
      owner = c.owner;
      sound = c.sound;
      config_is = refl;
    } in
    (
      offered,
      offered-MayCall world (resolved f world) message room h.directory.config
          (asked world room f.handlers ++ h.log) h.log offered
          (subst (Holds h.directory.config h.log) (sym roles) held)
          (λ t m. In-append_right (asked world room f.handlers) h.log m)
          (λ t m. In-append_left (asked world room f.handlers) h.log m),
    )
