-- ===== src/Server/Broadcast.antt =====
-- The event loop of `Server` in suplalite/server/__init__.py: what is added to the server's events comes
-- to the program's own handlers of the server's events, and then to every client and every device that
-- has a queue. The handlers are an argument: they are registered by the program that runs the server.
use suplalite.Common.{ℕ, suc, List, [], ◌∷◌, ◌++◌, ◌==◌, if◌then◌else◌}
use suplalite.Python.Result.{Result, ok, err}
use suplalite.Python.Dict.{Dict, put}
use suplalite.Server.Types.{ServerState, ClientState, DeviceState, eq_ℕ}
use suplalite.Server.State.{get_client_events}
use suplalite.Server.Devices.{get_device_events}
use suplalite.Server.World.{World, Action, Event, queue_of}

-- `for client in clients.values(): try: ... except KeyError: continue`
unfoldable pub client_queues : ServerState → Dict ℕ ClientState → List (Result ℕ)
unfolding get_client_events
client_queues s [] = []
client_queues s ((i, c) ∷ cs) = get_client_events s c.id ∷ client_queues s cs

unfoldable pub device_queues : ServerState → Dict ℕ DeviceState → List (Result ℕ)
unfolding get_device_events
device_queues s [] = []
device_queues s ((i, d) ∷ ds) = get_device_events s d.id ∷ device_queues s ds

-- `await events.add(event_id, payload)`, for each queue that is found
unfoldable pub add_to_each : List (Result ℕ) → Event → Dict ℕ (List Event) → Dict ℕ (List Event)
add_to_each [] e queues = queues
add_to_each (err x ∷ qs) e queues = add_to_each qs e queues
add_to_each (ok q ∷ qs) e queues =
    add_to_each qs e (put eq_ℕ queues q (queue_of queues q ++ e ∷ []))

unfoldable pub broadcast : Event → World → World
unfolding client_queues device_queues add_to_each
broadcast e w =
    let s = w.state in
    record w {
      queues = add_to_each (client_queues s s.clients ++ device_queues s s.devices) e w.queues;
    }

-- `get_event_handlers(EventContext.SERVER, event_id)`, each with the payload
abbrev pub Handlers : Type 0
Handlers = Event → List (Action (Unit {0}))

-- The loop over the handlers: one that raises is logged, what it has done stays done, and the next one
-- runs.
unfoldable pub handle_each : List (Action (Unit {0})) → World → World
handle_each [] w = w
handle_each (handler ∷ handlers) w = handle_each handlers (handler w).1

-- One round of `_event_loop`, which waits while there is no event
unfoldable pub event_round : Handlers → World → World
unfolding broadcast handle_each
event_round handlers w = elim w.events [
  | [] ↦ w
  | e ∷ es ↦ broadcast e (handle_each (handlers e) (record w { events = es }))
]

-- How often a queue is named
abbrev pub times : ℕ → List (Result ℕ) → ℕ
times q [] = 0
times q (err x ∷ qs) = times q qs
times q (ok p ∷ qs) = if p == q then suc (times q qs) else times q qs
