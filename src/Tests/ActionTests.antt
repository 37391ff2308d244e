-- ===== src/Tests/ActionTests.antt =====
-- A relay and a dimmer that are switched, and a device that is asked.
use suplalite.Common.{inr, arith, ◌≡◌, refl, Bool, true, false, some, none, [], ◌∷◌, ◌++◌}
use suplalite.Common.Int.{pos, negsuc}
use suplalite.Python.Result.{Result, ok, err, key_error, runtime_error}
use suplalite.Python.Bytes.{Bytes}
use suplalite.Python.Word.{pack}
use suplalite.Python.Dict.{lookup}
use suplalite.Encoding.Value.{nil}
use suplalite.Encoding.Encode.{encode}
use suplalite.Encoding.Fields.{fields}
use suplalite.Proto.Clients.{tsd_channel_new_value}
use suplalite.Server.Types.{
  ServerState, ClientState, DeviceState, ChannelState, SceneState, empty_state, eq_ℕ,
}
use suplalite.Server.State.{get_client, get_client_events, new_client}
use suplalite.Server.Devices.{get_channel, get_device, get_channel_by_name}
use suplalite.Server.Icons.{get_scene}
use suplalite.Server.LastValue.{set_channel_value}
use suplalite.Server.World.{
  World, Conn, channel_set_value, channel_value_changed, device, on_state, add_event, add_to_queue,
  ◌>>◌, send_locations, device_config_result,
}
use suplalite.Server.Connections.{new_conn}
use suplalite.Server.Service.{started_world}
use suplalite.Server.Actions.{toggle, turn_on, turn_off, execute}
use suplalite.Server.Acting.{client_execute_action}
use suplalite.Server.Switching.{
  client_execute_action-toggle, client_execute_action-dimmer, client_execute_action-refused,
  client_execute_action-scene,
}
use suplalite.Server.Switches.{relay_bytes, bytes_of}
use suplalite.Server.Broadcast.{Handlers, handle_each}
use suplalite.Server.Requests.{
  position, device_channel_value_changed, device_calcfg_result, new_value_attrs,
}
use suplalite.Server.Requests
use suplalite.Server.Numbers.{
  device_channel_value_changed-channel_set_value, device_calcfg_result-negative,
}

abbrev relay : ChannelState
relay = record {
  name = [];
  id = 1;
  device_id = 1;
  caption = [];
  type = 2900;
  func = 130;
  flags = 65536;
  alt_icon = 0;
  user_icon = 0;
  config = none;
  value = bytes_of 1 0 0 0 0 0 0 0;
  last_value = none;
}

abbrev lamp : ChannelState
lamp = record relay {
  id = 2;
  type = 4000;
  func = 180;
  last_value = some (bytes_of 60 0 0 0 0 0 0 0);
}

abbrev house : DeviceState
house = record {
  name = [];
  id = 1;
  guid = 7 ∷ [];
  online = true;
  manufacturer_id = 0;
  product_id = 0;
  proto_version = 23;
  channel_ids = 1 ∷ 2 ∷ [];
}

abbrev garden : SceneState
garden = record {
  name = [];
  id = 4;
  caption = [];
  alt_icon = 0;
  user_icon = 0;
  channels = record { name = 3 ∷ []; action = 60; params = none } ∷ [];
}

abbrev phone : ClientState
phone = new_client 5 (8 ∷ [])

abbrev house_state : ServerState
house_state = record empty_state {
  clients = (5, phone) ∷ [];
  client_events = (5, 30) ∷ [];
  devices = (1, house) ∷ [];
  device_events = (1, 20) ∷ [];
  channels = (1, relay) ∷ (2, lamp) ∷ [];
  scenes = (4, garden) ∷ [];
}

abbrev house_conn : Conn
house_conn = record (new_conn []) {
  context = record (new_conn []).context { role = device (7 ∷ []) 1 };
}

abbrev house_world : World
house_world = record (started_world house_state) {
  conns = (20, house_conn) ∷ [];
  events = send_locations ∷ [];
}

relay-found : get_channel house_state 1 ≡ ok relay
unfolding get_channel lookup
relay-found = refl

lamp-found : get_channel house_state 2 ≡ ok lamp
unfolding get_channel lookup
lamp-found = refl

abbrev toggled : Result Bool × World
toggled = client_execute_action 1 (pos 1) toggle [] house_world

abbrev toggled_twice : Result Bool × World
toggled_twice = client_execute_action 1 (pos 1) toggle [] toggled.1

client_execute_action-toggle_example :
    (toggled.0 ≡ ok true)
    × (toggled_twice.0 ≡ ok true)
    × (k : ChannelState) × (get_channel toggled_twice.1.state 1 ≡ ok k)
    × (k.value ≡ relay_bytes true)
    × (toggled_twice.1.events
        ≡ (house_world.events ++ channel_set_value 1 (relay_bytes false) ∷ [])
          ++ channel_set_value 1 (relay_bytes true) ∷ [])
client_execute_action-toggle_example =
    client_execute_action-toggle house_world 1 relay [] [] 1 0 0 0 0 0 0 0 relay-found refl refl
      refl

abbrev dark : Result Bool × World
dark = client_execute_action 1 (pos 2) turn_off [] house_world

abbrev lit_again : Result Bool × World
lit_again = client_execute_action 1 (pos 2) turn_on [] dark.1

client_execute_action-dimmer_example :
    (dark.0 ≡ ok true)
    × (get_channel dark.1.state 2 ≡ ok (record lamp { value = bytes_of 0 0 0 0 0 0 0 0 }))
    × (lit_again.0 ≡ ok true)
    × (get_channel lit_again.1.state 2 ≡ ok (record lamp { value = bytes_of 60 0 0 0 0 0 0 0 }))
client_execute_action-dimmer_example =
    client_execute_action-dimmer house_world 2 lamp [] [] 60 0 0 0 0 0 0 0 lamp-found refl refl refl

client_execute_action-refused_example :
    client_execute_action 1 (pos 2) toggle [] house_world ≡ (ok false, house_world)
client_execute_action-refused_example =
    client_execute_action-refused house_world 2 toggle []
      (inr (lamp, lamp-found, (omega arith, (omega arith, (omega arith, tt)))))

garden-found : get_scene house_state 4 ≡ ok garden
unfolding get_scene lookup
garden-found = refl

no_name : get_channel_by_name house_state.channels (3 ∷ []) ≡ err key_error
unfolding get_channel_by_name
no_name = refl

client_execute_action-scene_example :
    client_execute_action 3 (pos 4) execute [] house_world ≡ (err key_error, house_world)
client_execute_action-scene_example =
    client_execute_action-scene house_world 4 [] garden
      (record { name = 3 ∷ []; action = 60; params = none }) [] garden-found refl no_name

-- The program's handlers of the event: one that switches the lamp off and then raises, and one that adds
-- an event.
abbrev house_handlers : Handlers
house_handlers e =
    (λ w. (err runtime_error, (client_execute_action 1 (pos 2) turn_off [] w).1))
    ∷ add_event (channel_value_changed 2 [])
    ∷ []

abbrev house_handled : World
house_handled = handle_each (house_handlers send_locations) (record house_world { events = [] })

house_conn-there : lookup eq_ℕ house_world.conns 20 ≡ some house_conn
unfolding lookup
house_conn-there = refl

house-found : get_device house_state 1 ≡ ok house
unfolding get_device lookup
house-found = refl

second-position : position house.channel_ids 2 ≡ some 1
unfolding position
second-position = refl

abbrev new_value_bytes : Bytes
new_value_bytes = 0 ∷ 0 ∷ 0 ∷ 0 ∷ 1 ∷ 0 ∷ 0 ∷ 0 ∷ 0 ∷ bytes_of 5 0 0 0 0 0 0 0

new_value-encode :
    encode (fields tsd_channel_new_value) (new_value_attrs 1 (bytes_of 5 0 0 0 0 0 0 0))
    ≡ ok new_value_bytes
unfolding encode fields pack
new_value-encode = refl

device_channel_value_changed-channel_set_value_example :
    (Requests.channel_set_value 20 2 (bytes_of 5 0 0 0 0 0 0 0) house_world
      ≡ (ok tt, record house_world { sent = (20, 110, new_value_bytes) ∷ [] }))
    × (device_channel_value_changed 20 1 (bytes_of 6 0 0 0 0 0 0 0) house_world
        ≡ (on_state (λ s. set_channel_value s 2 (bytes_of 6 0 0 0 0 0 0 0))
              >> add_event (channel_value_changed 2 (bytes_of 6 0 0 0 0 0 0 0)))
            house_world)
device_channel_value_changed-channel_set_value_example =
    device_channel_value_changed-channel_set_value house_world 20 house_conn (7 ∷ []) 1 house 2 1
      (bytes_of 5 0 0 0 0 0 0 0) (bytes_of 6 0 0 0 0 0 0 0) new_value_bytes house_conn-there refl
      house-found second-position new_value-encode

phone-found : get_client house_state 5 ≡ ok phone
unfolding get_client lookup
phone-found = refl

phone-queue : get_client_events house_state 5 ≡ ok 30
unfolding get_client_events lookup
phone-queue = refl

device_calcfg_result-negative_example :
    device_calcfg_result 20 nil (pos 5) (negsuc 0) house_world
    ≡ add_to_queue 30 (device_config_result nil 2) house_world
device_calcfg_result-negative_example =
    device_calcfg_result-negative house_world 20 house_conn (7 ∷ []) 1 house phone nil 5 30 0 2
      house_conn-there refl house-found phone-found phone-queue refl refl
