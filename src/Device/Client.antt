-- ===== src/Device/Client.antt =====
-- `Device` of suplalite/device/__init__.py.
--
-- Times, spans and deadlines are whole numbers of microseconds; `now` is what a step reads of the
-- clock. The stream takes every packet that is sent, so a packet is its call and its data. The tasks,
-- and what arrives, are asyncio's: they are sequences of steps.
use suplalite.Common.{
  ℕ, zero, suc, ◌*◌, ◌-◌, Bool, true, false, Option, none, List, [], ◌∷◌, ◌++◌, ltb, if◌then◌else◌,
}
use suplalite.Common.Int.{ℤ, pos}
use suplalite.Python.Result.{Result, Error, ok, err, assertion_error, device_error}
use suplalite.Python.Bytes.{Bytes}
use suplalite.Python.Text.{Str}
use suplalite.Encoding.Schema.{Class}
use suplalite.Encoding.Value.{Value, Attrs, nil, attr}
use suplalite.Encoding.Fields.{fields}
use suplalite.Encoding.Encode.{encode}
use suplalite.Proto.Constants.{activity_timeout_min}
use suplalite.Proto.Clients.{tds_device_channel_value_c}
use suplalite.Device.Channels.{Floats, Channel, channel_type, func, action_trigger_caps, flags}
use suplalite.Device.Channels

abbrev pub seconds : ℕ → ℕ
seconds n = n * 1000000

-- `BASE_PROTO_VERSION` and `REGISTER_TIMEOUT`
abbrev pub base_proto_version : ℕ
base_proto_version = 12

abbrev pub register_timeout : ℕ
register_timeout = seconds 10

pub data DeviceState : Type 0 where
  connecting registering connected : DeviceState

-- The arguments of the constructor that the messages carry
pub record Config : Type 0 where
  pub host : Str
  pub email : Str
  pub name : Str
  pub version : Str
  pub authkey : Bytes
  pub guid : Bytes

-- `started` is `_packets is not None`; `is_set` is the event `connected`; `register_deadline` is the
-- variable of `_task_loop`.
pub record Device : Type 0 where
  pub config : Config
  pub start_time : ℕ
  pub proto_version : ℕ
  pub channels : List Channel
  pub state : DeviceState
  pub is_set : Bool
  pub ping_timeout : ℤ
  pub last_send : ℕ
  pub started : Bool
  pub register_deadline : Option ℕ
  pub sent : List (ℕ × Bytes)

abbrev pub new_device : Config → (proto_version now : ℕ) → Device
new_device config' version' now = record {
  config = config';
  start_time = now;
  proto_version = version';
  channels = [];
  state = connecting;
  is_set = false;
  ping_timeout = pos (seconds (activity_timeout_min - 5));
  last_send = now;
  started = false;
  register_deadline = none;
  sent = [];
}

abbrev pub max : ℕ → ℕ → ℕ
max a b = if ltb a b then b else a

-- `add`: the channel's number is its position.
unfoldable pub add : Device → Channel → Result Device
add d c =
    if d.started
    then err device_error
    else ok (record d {
      channels = d.channels ++ c ∷ [];
      proto_version = max d.proto_version (Channels.proto_version c);
    })

-- `start`, when the connection is made
abbrev pub start : Device → Device
start d = record d { started = true }

-- A coroutine of the device: what it has done stays done when it raises.
abbrev pub Action : Type 0 → Type 0
Action A = Device → Result A × Device

abbrev pub Done : Type 0
Done = Action (Unit {0})

abbrev pub finish : Done
finish d = (ok tt, d)

abbrev pub raise : {A : Type 0} → Error → Action A
raise e d = (err e, d)

abbrev pub next : {A B : Type 0} → Result A × Device → (A → Action B) → Result B × Device
next (ok x, d) k = k x d
next (err e, d) k = (err e, d)

-- `_send`, of an encoded message
abbrev pub send_encoded : (now call_id : ℕ) → Result Bytes → Done
send_encoded now call_id (err e) d = (err e, d)
send_encoded now call_id (ok bs) d =
    if d.started
    then (ok tt, record d { sent = d.sent ++ (call_id, bs) ∷ []; last_send = now })
    else (err assertion_error, d)

abbrev pub send : (now call_id : ℕ) → Class → Attrs → Done
send now call_id cls msg = send_encoded now call_id (encode (fields cls) msg)

abbrev pub is_connected : DeviceState → Bool
is_connected connected = true
is_connected _ = false

abbrev pub changed_attrs : (channel_number : ℕ) → Bytes → Attrs
changed_attrs number value = attr "channel_number" (Value.int (pos number)) (
    attr "offline" (Value.bool false)
      (attr "validity_time_sec" (Value.int (pos 0)) (attr "value" (Value.bytes value) nil)))

-- `set_value`
unfoldable pub set_value : (now channel_number : ℕ) → Bytes → Done
unfolding encode fields
set_value now number value d =
    if is_connected d.state
    then send now 103 tds_device_channel_value_c (changed_attrs number value) d
    else (ok tt, d)

-- `self._channels[number] = ...`, for a channel that changes in place
unfoldable pub replace_at : List Channel → ℕ → Channel → List Channel
replace_at [] n c = []
replace_at (x ∷ xs) zero c = c ∷ xs
replace_at (x ∷ xs) (suc n) c = x ∷ replace_at xs n c
