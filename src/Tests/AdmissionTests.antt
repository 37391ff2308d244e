-- ===== src/Tests/AdmissionTests.antt =====
-- A device that registers.
use suplalite.Common.{ℕ, ◌≡◌, ◌≢◌, refl, true, false, some, none, [], ◌∷◌, ◌↔◌}
use suplalite.Common.Int.{pos}
use suplalite.Python.Result.{ok}
use suplalite.Python.Bytes.{Bytes, index}
use suplalite.Python.Text.{Str}
use suplalite.Python.Dict.{Dict, lookup, put}
use suplalite.Server.Types.{ServerState, DeviceState, ChannelState, empty_state, eq_ℕ}
use suplalite.Server.Devices.{get_device_id, get_device, get_channel, get_device_channels}
use suplalite.Server.World.{World}
use suplalite.Server.Registration.{
  ChannelMsg, RegisterDevice, register_device, check_channels, check_device_identity,
}
use suplalite.Server.Connections.{new_conn}
use suplalite.Server.Service.{started_world}
use suplalite.Server.Matching.{told, expected, check_channels-told, Gets}
use suplalite.Server.Admission.{register_device-told, refusal, Taken}
use suplalite.Server.Registered.{AllSettable, acceptance}
use suplalite.Server.LastValue.{should_set_last}

abbrev phone : Bytes
phone = 1 ∷ 2 ∷ 3 ∷ []

abbrev peer : Str
peer = 9 ∷ []

-- A device with one relay
abbrev relay : ChannelState
relay = record {
  name = [];
  id = 1;
  device_id = 1;
  caption = [];
  type = 2900;
  func = 130;
  flags = 65536;
  alt_icon = 0;
  user_icon = 0;
  config = none;
  value = 1 ∷ 0 ∷ 0 ∷ 0 ∷ 0 ∷ 0 ∷ 0 ∷ 0 ∷ [];
  last_value = none;
}

abbrev relay_device : DeviceState
relay_device = record {
  name = [];
  id = 1;
  guid = phone;
  online = false;
  manufacturer_id = 0;
  product_id = 0;
  proto_version = 23;
  channel_ids = 1 ∷ [];
}

abbrev relay_state : ServerState
relay_state = record empty_state {
  devices = (1, relay_device) ∷ [];
  device_guid_to_id = (phone, 1) ∷ [];
  channels = (1, relay) ∷ [];
}

abbrev relay_msg : ChannelMsg
relay_msg = record {
  number = 0;
  type = 2900;
  default_func = 130;
  flags = 65536;
  value = relay.value;
}

abbrev register_msg : RegisterDevice
register_msg = record {
  guid = phone;
  manufacturer_id = pos 0;
  product_id = pos 0;
  channels = relay_msg ∷ [];
}

abbrev relay_world : World
relay_world = record (started_world relay_state) { conns = (1, new_conn peer) ∷ [] }

relay_world-conn : lookup eq_ℕ relay_world.conns 1 ≡ some (new_conn peer)
unfolding lookup
relay_world-conn = refl

relay_world-id : get_device_id relay_state phone ≡ ok 1
unfolding lookup get_device_id
relay_world-id = refl

relay_world-device : get_device relay_state 1 ≡ ok relay_device
unfolding lookup get_device
relay_world-device = refl

identity-agrees : check_device_identity relay_device register_msg ≡ none
unfolding check_device_identity
identity-agrees = refl

abbrev relay_channels : Dict ℕ ChannelState
relay_channels = get_device_channels relay_state.channels 1

relay_world-Gets : Gets (get_channel relay_state) relay_channels
unfolding get_device_channels get_channel lookup
relay_world-Gets = (refl, tt)

no_slot : lookup eq_ℕ relay_world.state.device_connections 1 ≢ some 1
unfolding lookup
no_slot e = cc

relay-AllSettable : AllSettable relay_state.channels relay_device 0 register_msg.channels
unfolding lookup should_set_last index
relay-AllSettable = ((1, relay, false, refl, refl, refl), tt)

register_device-told_example :
    (told register_msg.channels ≡ expected 0 relay_channels
      → ((register_device 1 register_msg relay_world).0 ≡ ok (acceptance (new_conn peer)))
        × Taken 1 register_msg relay_world
            (new_conn peer)
            1
            relay_device
            (register_device 1 register_msg relay_world).1)
    × (told register_msg.channels ≢ expected 0 relay_channels
        → register_device 1 register_msg relay_world ≡ (
          ok refusal,
          record relay_world {
            conns = put eq_ℕ relay_world.conns 1 (record (new_conn peer) {
              context = record (new_conn peer).context { error = true };
            });
          },
        ))
register_device-told_example =
    register_device-told 1 register_msg relay_world (new_conn peer) 1 relay_device relay_world-conn
      relay_world-id relay_world-device identity-agrees relay_world-Gets no_slot relay-AllSettable

check_channels-told_example :
    (check_channels relay_channels (relay_msg ∷ []) (get_channel relay_state) ≡ ok none)
    ↔ (told (relay_msg ∷ []) ≡ expected 0 relay_channels)
check_channels-told_example =
    check_channels-told relay_channels (relay_msg ∷ []) (get_channel relay_state) relay_world-Gets
