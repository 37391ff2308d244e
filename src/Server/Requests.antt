-- ===== src/Server/Requests.antt =====
-- Values and requests that pass between clients and devices, of suplalite/server/handlers.py.
use suplalite.Common.{ℕ, suc, not, Option, none, some, List, [], ◌∷◌, ◌==◌, if◌then◌else◌, length}
use suplalite.Common.Int.{ℤ, pos, leb_ℤ}
use suplalite.Python.Result.{Result, ok, err, value_error}
use suplalite.Python.Bytes.{Bytes, index}
use suplalite.Encoding.Value.{Value, Attrs, nil, attr}
use suplalite.Proto.Clients.{tsd_channel_new_value}
use suplalite.Proto.Actions.{tsd_channel_state_request}
use suplalite.Server.State.{get_client, get_client_events}
use suplalite.Server.Devices.{get_device, get_channel, get_device_events}
use suplalite.Server.LastValue.{set_channel_value}
use suplalite.Server.World.{
  Action, Event, channel_value_changed, get_channel_state, device_config, send_channels,
  send_channel_relations, send_scenes, return, ◌>>=◌, ◌>>◌, on_state, of_result, read, add_event,
  add_to_queue, client_id, device_id, send_message, except_key_error,
}
use suplalite.Server.Acting.{at_key}

-- `i in ids`, and `ids.index(i)`
unfoldable pub position : List ℕ → ℕ → Option ℕ
position [] i = none
position (j ∷ js) i =
    let rest = position js i in
    if j == i then some 0 else elim rest [ none ↦ none | some n ↦ some (suc n) ]

abbrev pub or_value_error : Option ℕ → Result ℕ
or_value_error none = err value_error
or_value_error (some n) = ok n

abbrev pub new_value_attrs : (channel_number : ℕ) → Bytes → Attrs
new_value_attrs number value = attr "sender_id" (Value.int (pos 0)) (
    attr "channel_number" (Value.int (pos number))
      (attr "duration_ms" (Value.int (pos 0)) (attr "value" (Value.bytes value) nil)))

abbrev pub unless_missing : Option ℕ → (ℕ → Action (Unit {0})) → Action (Unit {0})
unless_missing none next = return tt
unless_missing (some n) next = next n

-- `channel_set_value`, on the connection of a device
unfoldable pub channel_set_value : (conn channel_id : ℕ) → Bytes → Action (Unit {0})
unfolding position
channel_set_value k i value = do
  d ← device_id k
  device ← read (λ s. get_device s d)
  unless_missing (position device.channel_ids i)
      (λ number. send_message k 110 tsd_channel_new_value (new_value_attrs number value))

-- `_device_channel_value_changed`, for both calls
unfoldable pub device_channel_value_changed : (conn channel_number : ℕ) → Bytes → Action (Unit {0})
device_channel_value_changed k number value = do
  d ← device_id k
  device ← read (λ s. get_device s d)
  i ← of_result (index device.channel_ids (pos number))
  on_state (λ s. set_channel_value s i value)
  add_event (channel_value_changed i value)

-- `client_get_next`
unfoldable pub client_get_next : (conn : ℕ) → Action (Unit {0})
client_get_next k = do
  i ← client_id k
  client ← read (λ s. get_client s i)
  (if not client.sent_channels
      then add_to_queue k send_channels
      else if not client.sent_channel_relations
      then add_to_queue k send_channel_relations
      else if not client.sent_scenes
      then add_to_queue k send_scenes
      else return tt)

-- `client_get_channel_state`: the request goes to the queue of the channel's device.
unfoldable pub client_get_channel_state : (conn channel_id : ℕ) → Action (Unit {0})
client_get_channel_state k channel_id = do
  channel ← read (λ s. get_channel s channel_id)
  events ← read (λ s. get_device_events s channel.device_id)
  i ← client_id k
  add_to_queue events (get_channel_state i channel_id)

-- `device_get_channel_state`
unfoldable pub device_get_channel_state : (conn sender_id channel_id : ℕ) → Action (Unit {0})
unfolding position
device_get_channel_state k sender channel_id = do
  d ← device_id k
  device ← read (λ s. get_device s d)
  number ← of_result (or_value_error (position device.channel_ids channel_id))
  send_message k 500 tsd_channel_state_request (
      attr "sender_id" (Value.int (pos sender))
        (attr "channel_number" (Value.int (pos number)) nil))

-- `device_channel_state_result`, for the receiver and the channel number of the message
unfoldable pub device_channel_state_result :
    (conn : ℕ) (msg : Attrs) (receiver_id : ℤ) (channel_number : ℕ) → Action (Unit {0})
device_channel_state_result k msg receiver number w =
    except_key_error (at_key (get_client_events w.state) receiver) (return tt)
      (λ events. do
        d ← device_id k
        device ← read (λ s. get_device s d)
        i ← of_result (index device.channel_ids (pos number))
        add_to_queue events (Event.channel_state_result msg i))
      w

-- `client_calcfg_request`
unfoldable pub client_calcfg_request : (conn : ℕ) (msg : Attrs) (channel_id : ℤ) → Action (Unit {0})
unfolding position
client_calcfg_request k msg channel_id w =
    except_key_error (at_key (get_channel w.state) channel_id) (return tt)
      (λ channel. do
        device ← read (λ s. get_device s channel.device_id)
        number ← of_result (or_value_error (position device.channel_ids channel.id))
        events ← read (λ s. get_device_events s device.id)
        i ← client_id k
        add_to_queue events (device_config msg i number))
      w

-- `device_calcfg_result`, for the receiver and the channel number of the message, which is signed
unfoldable pub device_calcfg_result :
    (conn : ℕ) (msg : Attrs) (receiver_id channel_number : ℤ) → Action (Unit {0})
device_calcfg_result k msg receiver number w =
    except_key_error (at_key (get_client w.state) receiver) (return tt)
      (λ client. do
        d ← device_id k
        device ← read (λ s. get_device s d)
        (if leb_ℤ (pos (length device.channel_ids)) number
            then return tt
            else of_result (index device.channel_ids number) >>= λ i.
                read (λ s. at_key (get_client_events s) receiver) >>= λ events.
                add_to_queue events (Event.device_config_result msg i)))
      w
