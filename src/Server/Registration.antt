-- ===== src/Server/Registration.antt =====
-- The registration of devices and clients, of suplalite/server/handlers.py.
use suplalite.Common.{
  ℕ, ◌+◌, Bool, true, false, not, Option, none, some, List, [], ◌∷◌, ◌==◌, if◌then◌else◌, length,
}
use suplalite.Common.Int.{ℤ, pos, eqb_ℤ}
use suplalite.Python.Result.{Result, ok, err}
use suplalite.Python.Bytes.{Bytes, index}
use suplalite.Python.Dict.{Dict}
use suplalite.Proto.Constants.{activity_timeout_default, proto_version, proto_version_min}
use suplalite.Server.Types.{DeviceState, ChannelState}
use suplalite.Server.Devices.{
  get_device_id, get_device, get_device_channels, get_channel, device_connected,
}
use suplalite.Server.LastValue.{set_channel_value}
use suplalite.Server.World.{
  Action, Event, Role, return, after, ◌>>=◌, ◌>>◌, on_state, read, of_result, add_event, conn_of,
  change_context, supersede_old, except_key_error,
}

-- The fields that are read of `TDS_DeviceChannel_C` and `TDS_RegisterDevice_E`
pub record ChannelMsg : Type 0 where
  pub number : ℕ
  pub type : ℕ
  pub default_func : ℕ
  pub flags : ℕ
  pub value : Bytes

pub record RegisterDevice : Type 0 where
  pub guid : Bytes
  pub manufacturer_id : ℤ
  pub product_id : ℤ
  pub channels : List ChannelMsg

-- The result code, and the fields of `TSD_RegisterDeviceResult` behind it
pub record RegisterDeviceResult : Type 0 where
  pub accepted : Bool
  pub activity_timeout : ℕ
  pub version : ℕ
  pub version_min : ℕ

-- What the texts of the errors say
pub data Mismatch : Type 0 where
  manufacturer_id product_id channel_count channel_number channel_type channel_func channel_flags :
      Mismatch

-- `_check_device_identity`
unfoldable pub check_device_identity : DeviceState → RegisterDevice → Option Mismatch
check_device_identity device msg =
    if not (eqb_ℤ (pos device.manufacturer_id) msg.manufacturer_id)
    then some Mismatch.manufacturer_id
    else if not (eqb_ℤ (pos device.product_id) msg.product_id)
    then some Mismatch.product_id
    else none

-- The body of the loop of `_check_channels`
unfoldable pub check_channel : ChannelState → ℕ → ChannelMsg → Option Mismatch
check_channel channel number' msg =
    if not (number' == msg.number)
    then some channel_number
    else if not (channel.type == msg.type)
    then some channel_type
    else if not (channel.func == msg.default_func)
    then some channel_func
    else if not (channel.flags == msg.flags)
    then some channel_flags
    else none

-- The loop, over `enumerate(zip(channels, msg_channels))`
unfoldable pub check_each :
    Dict ℕ ChannelState → List ChannelMsg → (ℕ → Result ChannelState) → ℕ → Result (Option Mismatch)
unfolding check_channel
check_each [] msgs get n = ok none
check_each (c ∷ cs) [] get n = ok none
check_each ((i, c) ∷ cs) (m ∷ ms) get n =
    let rest = check_each cs ms get (n + 1) in
    elim (get i) [
      | err e ↦ err e
      | ok channel ↦ elim (check_channel channel n m) [ some e ↦ ok (some e) | none ↦ rest ]
    ]

-- `_check_channels`
unfoldable pub check_channels :
    Dict ℕ ChannelState → List ChannelMsg → (ℕ → Result ChannelState) → Result (Option Mismatch)
unfolding check_each
check_channels channels msgs get =
    if not (length msgs == length channels)
    then ok (some channel_count)
    else check_each channels msgs get 0

-- `_register_device_failure`
abbrev pub register_device_failure : ℕ → Action RegisterDeviceResult
register_device_failure k = do
  change_context k (λ c. record c { error = true })
  return (record {
    accepted = false;
    activity_timeout = activity_timeout_default;
    version = proto_version;
    version_min = proto_version_min;
  })

-- The loop of `_complete_registration`
unfoldable pub register_values : DeviceState → ℕ → List ChannelMsg → Action (Unit {0})
register_values device n [] w = (ok tt, w)
register_values device n (m ∷ ms) w =
    after (of_result (index device.channel_ids (pos n)) w) (λ channel_id.
      on_state (λ s. set_channel_value s channel_id m.value)
      >> add_event (Event.channel_register_value channel_id m.value)
      >> register_values device (n + 1) ms)

-- `_complete_registration`
unfoldable pub complete_registration :
    ℕ → ℕ → DeviceState → RegisterDevice → Action RegisterDeviceResult
unfolding register_values
complete_registration k device_id device msg = do
  change_context k (λ c. record c {
    name = device.name;
    replacement = some (device.name, Role.device msg.guid device_id);
  })
  register_values device 0 msg.channels
  add_event (Event.device_connected device_id)
  c ← conn_of k
  return (record {
    accepted = true;
    activity_timeout = c.context.activity_timeout;
    version = proto_version;
    version_min = proto_version_min;
  })

-- Behind the checks of `register_device`
unfoldable pub connect_device : ℕ → ℕ → DeviceState → RegisterDevice → Action RegisterDeviceResult
unfolding complete_registration
connect_device k device_id device msg = do
  c ← conn_of k
  old_conn ← on_state (λ s. device_connected s device_id c.proto_version k k)
  supersede_old old_conn
  complete_registration k device_id device msg

-- `if error is not None: ... return _register_device_failure(context)`
abbrev pub or_failure :
    ℕ → Option Mismatch → Action RegisterDeviceResult → Action RegisterDeviceResult
or_failure k (some e) next = register_device_failure k
or_failure k none next = next

unfoldable pub register_device : ℕ → RegisterDevice → Action RegisterDeviceResult
unfolding check_device_identity check_channels connect_device
register_device k msg w =
    except_key_error (get_device_id w.state msg.guid) (register_device_failure k)
      (λ device_id. read (λ s. get_device s device_id) >>= λ device.
        or_failure k (check_device_identity device msg) (
          of_result (
            check_channels (get_device_channels w.state.channels device_id) msg.channels
              (get_channel w.state))
          >>= λ error. or_failure k error (connect_device k device_id device msg)))
      w
