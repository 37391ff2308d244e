-- ===== src/Server/Devices.antt =====
-- The devices, channels, scenes and icons of suplalite/server/state.py.
use suplalite.Common.{
  ℕ, ◌+◌, true, false, Option, none, some, List, [], ◌∷◌, ◌++◌, ◌==◌, if◌then◌else◌, length,
  replicate,
}
use suplalite.Python.Result.{Result, ok, err, key_error, assertion_error}
use suplalite.Python.Bytes.{Bytes}
use suplalite.Python.Text.{Str}
use suplalite.Python.Dict.{Dict, lookup, put, without, or_key_error}
use suplalite.Proto.Constants.{proto_version}
use suplalite.Server.Icons.{Hashing, add_icons, optional_icons}
use suplalite.Server.Types.{
  DeviceState, ChannelState, ChannelConfig, ServerState, Connection, EventQueue, Method, eq_ℕ,
  eq_guid,
}

unfoldable pub get_device_id : ServerState → Bytes → Result ℕ
get_device_id s guid' = or_key_error (lookup eq_guid s.device_guid_to_id guid')

unfoldable pub add_device : ServerState → Str → Bytes → (manufacturer_id product_id : ℕ) → Method ℕ
add_device s name' guid' manufacturer product =
    if s.started
    then (err assertion_error, s)
    else let i = length s.devices + 1 in
      let device : DeviceState = record {
        name = name';
        id = i;
        guid = guid';
        online = false;
        manufacturer_id = manufacturer;
        product_id = product;
        proto_version = proto_version;
        channel_ids = [];
      } in
      (
        ok i,
        record s {
          devices = put eq_ℕ s.devices i device;
          device_guid_to_id = put eq_guid s.device_guid_to_id guid' i;
        },
      )

-- The arguments of `add_channel`
pub record NewChannel : Type 0 where
  pub device_id : ℕ
  pub name : Str
  pub caption : Str
  pub type : ℕ
  pub func : ℕ
  pub flags : ℕ
  pub alt_icon : ℕ
  pub config : Option ChannelConfig
  pub icons : Option (List Bytes)

abbrev pub channel_of : NewChannel → (channel_id user_icon : ℕ) → ChannelState
channel_of n channel user = record {
  name = n.name;
  id = channel;
  device_id = n.device_id;
  caption = n.caption;
  type = n.type;
  func = n.func;
  flags = n.flags;
  alt_icon = n.alt_icon;
  user_icon = user;
  config = n.config;
  value = replicate 8 0;
  last_value = none;
}

-- `add_channel`: a device that does not exist raises when the channel is already there.
unfoldable pub add_channel : Hashing → ServerState → NewChannel → Method ℕ
unfolding add_icons
add_channel hashing s n =
    if s.started
    then (err assertion_error, s)
    else let i = length s.channels + 1 in
      let (user, s') = optional_icons hashing s n.icons in
      let s'' = record s' { channels = put eq_ℕ s'.channels i (channel_of n i user) } in
      elim (lookup eq_ℕ s.devices n.device_id) [
        | none ↦ (err key_error, s'')
        | some d ↦ (
          ok i,
          record s'' {
            devices =
                put eq_ℕ s.devices n.device_id (record d { channel_ids = d.channel_ids ++ i ∷ [] });
          },
        )
      ]

unfoldable pub get_device : ServerState → ℕ → Result DeviceState
get_device s i = or_key_error (lookup eq_ℕ s.devices i)

unfoldable pub get_channel : ServerState → ℕ → Result ChannelState
get_channel s i = or_key_error (lookup eq_ℕ s.channels i)

-- `get_device_channels`
unfoldable pub get_device_channels : Dict ℕ ChannelState → (device_id : ℕ) → Dict ℕ ChannelState
get_device_channels [] device = []
get_device_channels ((i, c) ∷ cs) device =
    let rest = get_device_channels cs device in
    if c.device_id == device then (c.id, c) ∷ rest else rest

-- `get_channel_by_name`
unfoldable pub get_channel_by_name : Dict ℕ ChannelState → Str → Result ChannelState
get_channel_by_name [] name' = err key_error
get_channel_by_name ((i, c) ∷ cs) name' =
    let rest = get_channel_by_name cs name' in if eq_guid c.name name' then ok c else rest

unfoldable pub device_connected :
    ServerState
    → (device_id proto_version : ℕ) → EventQueue
    → Connection
    → Method (Option Connection)
device_connected s i version events conn =
    let s' = record s {
      device_connections = put eq_ℕ s.device_connections i conn;
      device_events = put eq_ℕ s.device_events i events;
    } in
    elim (lookup eq_ℕ s.devices i) [
      | none ↦ (err key_error, s')
      | some d ↦ (
        ok (lookup eq_ℕ s.device_connections i),
        record s' {
          devices = put eq_ℕ s.devices i (record d { online = true; proto_version = version });
        },
      )
    ]

unfoldable pub device_disconnected : ServerState → ℕ → Method (Unit {0})
device_disconnected s i = elim (lookup eq_ℕ s.device_connections i) [
  | none ↦ (err key_error, s)
  | some conn ↦
      let s' = record s { device_connections = without eq_ℕ s.device_connections i } in
      elim (lookup eq_ℕ s.device_events i) [
        | none ↦ (err key_error, s')
        | some events ↦
            let s'' = record s' { device_events = without eq_ℕ s.device_events i } in
            elim (lookup eq_ℕ s.devices i) [
              | none ↦ (err key_error, s'')
              | some d ↦ (
                ok tt,
                record s'' { devices = put eq_ℕ s.devices i (record d { online = false }) },
              )
            ]
      ]
]

unfoldable pub get_device_events : ServerState → ℕ → Result EventQueue
get_device_events s i = or_key_error (lookup eq_ℕ s.device_events i)
