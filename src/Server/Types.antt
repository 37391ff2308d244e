-- ===== src/Server/Types.antt =====
-- The data of suplalite/server/state.py.
--
-- Connections and event queues are objects of other modules, told apart by a number. `str(guid)`
-- gives different strings for different guids, and a map from such strings is a map from guids.
use suplalite.Common.{ℕ, Bool, true, false, Option, List, [], ◌==◌}
use suplalite.Common.Int.{ℤ}
use suplalite.Python.Result.{Result}
use suplalite.Python.Bytes.{Bytes, ◌==b◌}
use suplalite.Python.Text.{Str}
use suplalite.Python.Dict.{Dict}

abbrev pub Connection : Type 0
Connection = ℕ

abbrev pub EventQueue : Type 0
EventQueue = ℕ

pub record ClientState : Type 0 where
  pub id : ℕ
  pub guid : Bytes
  pub online : Bool
  pub authorized : Bool
  pub sent_channels : Bool
  pub next_channel_batch : ℕ
  pub sent_channel_relations : Bool
  pub sent_scenes : Bool
  pub next_scene_batch : ℕ

pub record DeviceState : Type 0 where
  pub name : Str
  pub id : ℕ
  pub guid : Bytes
  pub online : Bool
  pub manufacturer_id : ℕ
  pub product_id : ℕ
  pub proto_version : ℕ
  pub channel_ids : List ℕ

pub record GeneralPurposeMeasurement : Type 0 where
  pub value_divider : ℤ
  pub value_multiplier : ℤ
  pub value_added : ℤ
  pub value_precision : ℤ
  pub unit_before_value : Str
  pub unit_after_value : Str
  pub no_space_before_value : Bool
  pub no_space_after_value : Bool

-- `ChannelConfig` and its subclass
pub data ChannelConfig : Type 0 where
  plain : ChannelConfig
  general_purpose_measurement : GeneralPurposeMeasurement → ChannelConfig

pub record ChannelState : Type 0 where
  pub name : Str
  pub id : ℕ
  pub device_id : ℕ
  pub caption : Str
  pub type : ℕ
  pub func : ℕ
  pub flags : ℕ
  pub alt_icon : ℕ
  pub user_icon : ℕ
  pub config : Option ChannelConfig
  pub value : Bytes
  pub last_value : Option Bytes

pub record SceneChannelState : Type 0 where
  pub name : Str
  pub action : ℕ
  pub params : Option Bytes

pub record SceneState : Type 0 where
  pub name : Str
  pub id : ℕ
  pub caption : Str
  pub alt_icon : ℕ
  pub user_icon : ℕ
  pub channels : List SceneChannelState

pub record Icon : Type 0 where
  pub id : ℕ
  pub data' : List Str

pub record ServerState : Type 0 where
  pub started : Bool
  pub next_client_id : ℕ
  pub client_guid_to_id : Dict Bytes ℕ
  pub clients : Dict ℕ ClientState
  pub client_connections : Dict ℕ Connection
  pub client_events : Dict ℕ EventQueue
  pub device_guid_to_id : Dict Bytes ℕ
  pub devices : Dict ℕ DeviceState
  pub channels : Dict ℕ ChannelState
  pub device_connections : Dict ℕ Connection
  pub device_events : Dict ℕ EventQueue
  pub icons : Dict Str Icon
  pub icons_by_id : Dict ℕ Icon
  pub scenes : Dict ℕ SceneState

abbrev pub eq_ℕ : ℕ → ℕ → Bool
eq_ℕ a b = a == b

abbrev pub eq_guid : Bytes → Bytes → Bool
eq_guid a b = a ==b b

-- A method's result and the state after it.
abbrev pub Method : Type 0 → Type 0
Method A = Result A × ServerState

-- `ServerState()`
abbrev pub empty_state : ServerState
empty_state = record {
  started = false;
  next_client_id = 1;
  client_guid_to_id = [];
  clients = [];
  client_connections = [];
  client_events = [];
  device_guid_to_id = [];
  devices = [];
  channels = [];
  device_connections = [];
  device_events = [];
  icons = [];
  icons_by_id = [];
  scenes = [];
}

abbrev pub server_started : ServerState → ServerState
server_started s = record s { started = true }
