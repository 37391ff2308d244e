-- ===== src/Server/World.antt =====
-- What the handlers of suplalite/server/handlers.py work on: the server's state, the queues of events
-- of suplalite/server/events.py, and the connections with their contexts, of
-- suplalite/server/context.py.
--
-- A connection is told apart by a number, and its queue has the same number. Times and addresses do
-- not appear.
use suplalite.Common.{ℕ, Bool, true, false, Option, none, some, List, [], ◌∷◌, ◌++◌}
use suplalite.Python.Result.{Error, Result, ok, err, attribute_error, key_error}
use suplalite.Python.Bytes.{Bytes}
use suplalite.Python.Text.{Str}
use suplalite.Python.Dict.{Dict, lookup, put}
use suplalite.Encoding.Schema.{Class}
use suplalite.Encoding.Value.{Attrs}
use suplalite.Encoding.Fields.{fields}
use suplalite.Encoding.Encode.{encode}
use suplalite.Proto.Constants.{activity_timeout_default}
use suplalite.Server.Types.{ServerState, eq_ℕ}

-- `EventId` with the payload that goes with it. A message stays decoded.
pub data Event : Type 0 where
  client_connected client_disconnected device_connected device_disconnected : ℕ → Event
  send_locations send_channels send_channel_relations send_scenes : Event
  get_channel_state : (client_id channel_id : ℕ) → Event
  channel_state_result : Attrs → (channel_id : ℕ) → Event
  channel_register_value channel_value_changed channel_set_value : ℕ → Bytes → Event
  device_config : Attrs → (client_id channel_number : ℕ) → Event
  device_config_result : Attrs → (channel_id : ℕ) → Event
  request response : (conn call_id : ℕ) → Option Attrs → Event

-- The class of a context: `ConnectionContext`, `ClientContext` or `DeviceContext`.
pub data Role : Type 0 where
  anonymous : Role
  client device : (guid : Bytes) (id : ℕ) → Role

-- `replacement` is the name and the class of the context that is to take this one's place; the other
-- attributes of a new context are those of `ConnectionContext.__init__`.
pub record Context : Type 0 where
  pub name : Str
  pub role : Role
  pub activity_timeout : ℕ
  pub error : Bool
  pub replacement : Option (Str × Role)

-- `ConnectionContext.__init__`, and the constructors of the two classes below it
abbrev pub new_context : Str → Role → Context
new_context name' role' = record {
  name = name';
  role = role';
  activity_timeout = activity_timeout_default;
  error = false;
  replacement = none;
}

-- The class that a context has once it has been replaced.
abbrev pub role_after : Option (Str × Role) → Role → Role
role_after none role' = role'
role_after (some (name', role')) _ = role'

abbrev pub next_role : Context → Role
next_role c = role_after c.replacement c.role

-- `Connection`
pub record Conn : Type 0 where
  pub context : Context
  pub superseded : Bool
  pub proto_version : ℕ

-- A packet that a connection has sent: the connection, the call and the data.
abbrev pub Sent : Type 0
Sent = ℕ × ℕ × Bytes

-- `ending` has the teardowns that wait for the lock of the state, with the class of the context that they
-- have read.
pub record World : Type 0 where
  pub state : ServerState
  pub events : List Event
  pub queues : Dict ℕ (List Event)
  pub conns : Dict ℕ Conn
  pub ending : Dict ℕ Role
  pub sent : List Sent

-- A coroutine: what it has done stays done when it raises.
abbrev pub Action : Type 0 → Type 0
Action A = World → Result A × World

abbrev pub return : {A : Type 0} → A → Action A
return x w = (ok x, w)

abbrev pub raise : {A : Type 0} → Error → Action A
raise e w = (err e, w)

abbrev pub after : {A B : Type 0} → Result A × World → (A → Action B) → Result B × World
after (ok x, w) k = k x w
after (err e, w) k = (err e, w)

infixl 5 ◌>>◌ ◌>>=◌
abbrev pub ◌>>=◌ : {A B : Type 0} → Action A → (A → Action B) → Action B
◌>>=◌ first next w = after (first w) next

abbrev pub ◌>>◌ : {A B : Type 0} → Action A → Action B → Action B
first >> next = first >>= λ done. next

-- A call of a method of the state
abbrev pub on_state : {A : Type 0} → (ServerState → Result A × ServerState) → Action A
on_state f w = let (r, s) = f w.state in (r, record w { state = s })

abbrev pub read : {A : Type 0} → (ServerState → Result A) → Action A
read f w = (f w.state, w)

abbrev pub of_result : {A : Type 0} → Result A → Action A
of_result r w = (r, w)

-- `context.server.events.add(event)`
abbrev pub add_event : Event → Action (Unit {0})
add_event e w = (ok tt, record w { events = w.events ++ e ∷ [] })

abbrev pub queue_of : Dict ℕ (List Event) → ℕ → List Event
queue_of queues q = elim (lookup eq_ℕ queues q) [ none ↦ [] | some es ↦ es ]

-- `events.add(event)` on the queue of a connection
abbrev pub add_to_queue : ℕ → Event → Action (Unit {0})
add_to_queue q e w =
    (ok tt, record w { queues = put eq_ℕ w.queues q (queue_of w.queues q ++ e ∷ []) })

abbrev pub conn_of : ℕ → Action Conn
conn_of k w = elim (lookup eq_ℕ w.conns k) [ none ↦ (err key_error, w) | some c ↦ (ok c, w) ]

abbrev pub change_conn : ℕ → (Conn → Conn) → Action (Unit {0})
change_conn k f w = elim (lookup eq_ℕ w.conns k) [
  | none ↦ (err key_error, w)
  | some c ↦ (ok tt, record w { conns = put eq_ℕ w.conns k (f c) })
]

abbrev pub change_context : ℕ → (Context → Context) → Action (Unit {0})
change_context k f = change_conn k (λ c. record c { context = f c.context })

-- `context.client_id` and `context.device_id`, which the other classes do not have
abbrev pub role_client : Role → Result ℕ
role_client (client g i) = ok i
role_client _ = err attribute_error

abbrev pub role_device : Role → Result ℕ
role_device (device g i) = ok i
role_device _ = err attribute_error

abbrev pub client_id : ℕ → Action ℕ
client_id k = do c ← conn_of k; of_result (role_client c.context.role)

abbrev pub device_id : ℕ → Action ℕ
device_id k = do c ← conn_of k; of_result (role_device c.context.role)

-- `Connection.send`, on a connection that takes what it is given
unfoldable pub send_message : ℕ → (call_id : ℕ) → Class → Attrs → Action (Unit {0})
send_message k call_id cls msg w = elim (encode (fields cls) msg) [
  | err e ↦ (err e, w)
  | ok bs ↦ (ok tt, record w { sent = w.sent ++ (k, call_id, bs) ∷ [] })
]

-- `Connection.supersede`: the tasks are cancelled, and the connection's teardown follows. A connection
-- that has ended stays as it is.
abbrev pub superseded_conns : Dict ℕ Conn → ℕ → Dict ℕ Conn
superseded_conns conns k = elim (lookup eq_ℕ conns k) [
  | none ↦ conns
  | some c ↦ put eq_ℕ conns k (record c { superseded = true })
]

abbrev pub supersede : ℕ → Action (Unit {0})
supersede k w = (ok tt, record w { conns = superseded_conns w.conns k })

-- `if old_conn is not None: old_conn.supersede()`
abbrev pub supersede_old : Option ℕ → Action (Unit {0})
supersede_old none = return tt
supersede_old (some k) = supersede k

-- `try: ... except KeyError: ...` around a lookup
abbrev pub except_key_error : {A B : Type 0} → Result A → Action B → (A → Action B) → Action B
except_key_error (ok a) missing next = next a
except_key_error (err key_error) missing next = missing
except_key_error (err e) missing next = raise e
