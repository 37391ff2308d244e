-- ===== src/Tests/ServerTests.antt =====
-- A client that comes and goes, a dimmer, and a pack of channels.
use suplalite.Common.{
  ℕ, ◌≡◌, refl, Bool, true, false, none, some, [], ◌∷◌, arith, replicate, length,
}
use suplalite.Python.Result.{ok}
use suplalite.Python.Bytes.{Bytes, index}
use suplalite.Utils.{batched}
use suplalite.Python.Dict.{lookup, put}
use suplalite.Server.Types.{DeviceState, ServerState, ChannelState, empty_state, eq_ℕ}
use suplalite.Server.State.{
  add_client, client_connected, client_disconnected, get_client, new_client,
}
use suplalite.Server.Clients.{IsConsistent, empty_state-IsConsistent}
use suplalite.Server.Reachable.{
  Reachable, start, next, add, connect, disconnect, Reachable-IsConsistent,
}
use suplalite.Server.Sessions.{
  add_client-add_client, add_client-distinct, get_client-client_connected,
}
use suplalite.Server.LastValue.{set_channel_value}
use suplalite.Server.Icons.{Hashing, optional_icons}
use suplalite.Server.Devices.{
  get_channel, get_device, add_device, add_channel, NewChannel, channel_of,
}
use suplalite.Server.Setup.{get_channel-add_channel}
use suplalite.Server.Dimmers.{get_channel-set_channel_value}
use suplalite.Server.Packs.{build_pack_message, pack_at, build_pack_message-pack_at}

abbrev phone : Bytes
phone = 1 ∷ 2 ∷ 3 ∷ []

abbrev tablet : Bytes
tablet = 4 ∷ 5 ∷ 6 ∷ []

abbrev one_client : ServerState
one_client = (add_client empty_state phone).1

one_client-lookup : lookup eq_ℕ one_client.clients 1 ≡ some (new_client 1 phone)
unfolding add_client lookup put
one_client-lookup = refl

abbrev online : ServerState
online = (client_connected one_client 1 7 8).1

abbrev offline : ServerState
offline = (client_disconnected online 1).1

offline-Reachable : Reachable offline
offline-Reachable =
    next (next (next start (add phone)) (connect 1 7 8 (new_client 1 phone, one_client-lookup)))
      (disconnect 1)

Reachable-IsConsistent_example : IsConsistent offline
Reachable-IsConsistent_example = Reachable-IsConsistent offline offline-Reachable

add_client-add_client_example :
    add_client one_client phone ≡ ((add_client empty_state phone).0, one_client)
add_client-add_client_example = add_client-add_client empty_state phone

same_number : (add_client empty_state phone).0 ≡ (add_client one_client phone).0
unfolding add_client lookup put
same_number = refl

add_client-distinct_example : phone ≡ phone
add_client-distinct_example =
    add_client-distinct empty_state phone phone empty_state-IsConsistent same_number

one_client-get_client : get_client one_client 1 ≡ ok (new_client 1 phone)
unfolding get_client add_client lookup put
one_client-get_client = refl

get_client-client_connected_example :
    ((client_connected one_client 1 7 8).0 ≡ ok (lookup eq_ℕ one_client.client_connections 1))
    × (get_client online 1 ≡ ok (record (new_client 1 phone) { online = true }))
get_client-client_connected_example =
    get_client-client_connected one_client 1 7 8 (new_client 1 phone) one_client-get_client

abbrev lamp : ChannelState
lamp = record {
  name = [];
  id = 1;
  device_id = 1;
  caption = [];
  type = 4000;
  func = 180;
  flags = 0;
  alt_icon = 0;
  user_icon = 0;
  config = none;
  value = replicate 8 0;
  last_value = none;
}

abbrev one_lamp : ServerState
one_lamp = record empty_state { channels = (1, lamp) ∷ [] }

one_lamp-get_channel : get_channel one_lamp 1 ≡ ok lamp
unfolding get_channel lookup
one_lamp-get_channel = refl

abbrev half : Bytes
half = 50 ∷ 0 ∷ 0 ∷ 0 ∷ 0 ∷ 0 ∷ 0 ∷ 0 ∷ []

get_channel-set_channel_value_example :
    ((set_channel_value one_lamp 1 half).0 ≡ ok tt)
    × (get_channel (set_channel_value one_lamp 1 half).1 1
        ≡ ok (record lamp { value = half; last_value = some half }))
    × (get_channel (set_channel_value one_lamp 1 half).1 2 ≡ get_channel one_lamp 2)
get_channel-set_channel_value_example =
    get_channel-set_channel_value one_lamp 1 2 lamp 50 0 0 0 0 0 0 0 one_lamp-get_channel
      (λ e. ground (arith, e))

abbrev item : ℕ → ℕ × Bool
item n = (n, false)

abbrev mark : ℕ × Bool → ℕ × Bool
mark (n, eol) = (n, true)

build_pack_message-pack_at_example :
    build_pack_message item mark (replicate 45 3) 2 ≡ ok (pack_at item mark (replicate 45 3) 2)
build_pack_message-pack_at_example =
    build_pack_message-pack_at item mark (replicate 45 3) 2 (omega arith)

last_pack : build_pack_message item mark (7 ∷ 8 ∷ []) 0 ≡ ok (0, (7, false) ∷ (8, true) ∷ [])
unfolding build_pack_message batched index
last_pack = refl

abbrev no_hash : Hashing
no_hash = record { base64 = λ icon. icon; number_of = λ key. length key }

abbrev box : DeviceState
box = record {
  name = [];
  id = 1;
  guid = phone;
  online = false;
  manufacturer_id = 0;
  product_id = 0;
  proto_version = 23;
  channel_ids = [];
}

abbrev one_box : ServerState
one_box = record empty_state { devices = (1, box) ∷ [] }

one_box-add_device :
    add_device empty_state [] phone 0 0
    ≡ (ok 1, record one_box { device_guid_to_id = (phone, 1) ∷ [] })
unfolding add_device put
one_box-add_device = refl

one_box-get_device : get_device one_box 1 ≡ ok box
unfolding get_device lookup
one_box-get_device = refl

abbrev new_lamp : NewChannel
new_lamp = record {
  device_id = 1;
  name = [];
  caption = [];
  type = 4000;
  func = 180;
  flags = 0;
  alt_icon = 0;
  config = none;
  icons = some (phone ∷ tablet ∷ []);
}

get_channel-add_channel_example :
    ((add_channel no_hash one_box new_lamp).0 ≡ ok 1)
    × (get_channel (add_channel no_hash one_box new_lamp).1 1
        ≡ ok (channel_of new_lamp 1 (optional_icons no_hash one_box new_lamp.icons).0))
    × (get_device (add_channel no_hash one_box new_lamp).1 1
        ≡ ok (record box { channel_ids = 1 ∷ [] }))
    × (get_channel (add_channel no_hash one_box new_lamp).1 2 ≡ get_channel one_box 2)
get_channel-add_channel_example =
    get_channel-add_channel no_hash one_box new_lamp box 2 refl one_box-get_device
      (λ e. ground (arith, e))
