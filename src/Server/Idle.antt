-- ===== src/Server/Idle.antt =====
-- The state before the server starts: devices, channels and scenes, and nobody connected.
use suplalite.Common.{
  ℕ, ◌≡◌, refl, sym, ap, ◌∙◌, Bool, true, false, Option, none, some, List, [], inl, inr,
  Option-cases, if◌then◌else◌,
}
use suplalite.Python.Bytes.{Bytes}
use suplalite.Python.Text.{Str}
use suplalite.Python.Dict.{Dict, lookup, put, is_some, put-cases}
use suplalite.Server.Types.{
  ServerState, DeviceState, ChannelState, SceneState, SceneChannelState, Icon, Method, eq_ℕ,
  eq_guid, empty_state, server_started,
}
use suplalite.Server.Icons.{
  Hashing, add_icons, optional_icons, add_scene, join_commas, encoded_icons,
}
use suplalite.Server.Devices.{NewChannel, add_device, add_channel}
use suplalite.Server.Clients.{
  IsConsistent, eq_ℕ-IsEquality, none≢some, some_injective, empty_state-IsConsistent,
}
use suplalite.Server.Owned.{client_of, device_of, IsOwned}
use suplalite.Server.Ownership.{Owns}
use suplalite.Server.World.{Role}

-- The methods that a program calls before it starts the server
pub data SetUp : ServerState → Type 0 where
  empty : SetUp empty_state
  device_added :
      {s : ServerState}
      → SetUp s
      → (name : Str) (guid : Bytes) (manufacturer_id product_id : ℕ)
      → SetUp (add_device s name guid manufacturer_id product_id).1
  channel_added :
      {s : ServerState} → SetUp s → (h : Hashing) (n : NewChannel) → SetUp (add_channel h s n).1
  scene_added :
      {s : ServerState}
      → SetUp s
      → (h : Hashing) (name caption : Str) (channels : List SceneChannelState) (alt_icon : ℕ)
        (icons : Option (List Bytes))
      → SetUp (add_scene h s name caption channels alt_icon icons).1
  started : {s : ServerState} → SetUp s → SetUp (server_started s)

-- Nobody is connected.
record IsIdle (s : ServerState) : Type 0 where
  pub clients : IsConsistent s
  pub no_clients : s.client_connections ≡ []
  pub no_devices : s.device_connections ≡ []
  pub no_events : s.device_events ≡ []
  pub offline : (i : ℕ) (d : DeviceState) → lookup eq_ℕ s.devices i ≡ some d → d.online ≡ false

-- The rest of the state changes.
rest-IsIdle :
    (s : ServerState) (b : Bool) (channels : Dict ℕ ChannelState) (icons : Dict Str Icon)
    (by_id : Dict ℕ Icon) (scenes : Dict ℕ SceneState) (devices : Dict ℕ DeviceState)
    (guids : Dict Bytes ℕ)
    → IsIdle s
    → ((i : ℕ) (d : DeviceState) → lookup eq_ℕ devices i ≡ some d → d.online ≡ false)
    → IsIdle (record s {
      started = b;
      channels = channels;
      icons = icons;
      icons_by_id = by_id;
      scenes = scenes;
      devices = devices;
      device_guid_to_id = guids;
    })
rest-IsIdle s b channels icons by_id scenes devices guids idle off = record {
  clients = record {
    numbered = idle.clients.numbered;
    known = idle.clients.known;
    online = idle.clients.online;
    queues = idle.clients.queues;
    strangers = idle.clients.strangers;
  };
  no_clients = idle.no_clients;
  no_devices = idle.no_devices;
  no_events = idle.no_events;
  offline = off;
}

put-offline :
    (devices : Dict ℕ DeviceState) (i : ℕ) (d' : DeviceState)
    → ((j : ℕ) (d : DeviceState) → lookup eq_ℕ devices j ≡ some d → d.online ≡ false)
    → d'.online ≡ false
    → (j : ℕ) (d : DeviceState) → lookup eq_ℕ (put eq_ℕ devices i d') j ≡ some d
    → d.online ≡ false
put-offline devices i d' off off' j d e = elim (put-cases eq_ℕ eq_ℕ-IsEquality devices i d' j) [
  | inl (same, e1) ↦ ap (λ (x : DeviceState). x.online) (sym (some_injective (sym e1 ∙ e))) ∙ off'
  | inr (other, e1) ↦ off j d (sym e1 ∙ e)
]

-- Icons are added to the icons alone.
optional_icons-IsIdle :
    (h : Hashing) (s : ServerState) (icons : Option (List Bytes))
    → IsIdle s
    → IsIdle (optional_icons h s icons).1
unfolding add_icons
optional_icons-IsIdle h s none idle = idle
optional_icons-IsIdle h s (some icons) idle =
    elim (Option-cases (lookup eq_guid s.icons (join_commas (encoded_icons h.base64 icons)))) [
      | inl e ↦
          rw (e, add_icons)
            (rest-IsIdle s s.started s.channels _ _ s.scenes s.devices s.device_guid_to_id idle
              idle.offline)
      | inr (icon, e) ↦ rw (e, add_icons) idle
    ]

either-IsIdle :
    {A : Type 0} (b : Bool) (x y : Method A)
    → IsIdle x.1
    → IsIdle y.1
    → IsIdle (if b then x else y).1
either-IsIdle true x y idle idle' = idle
either-IsIdle false x y idle idle' = idle'

SetUp-IsIdle : (s : ServerState) → SetUp s → IsIdle s
unfolding add_device add_channel add_scene lookup
SetUp-IsIdle _ empty = record {
  clients = empty_state-IsConsistent;
  no_clients = refl;
  no_devices = refl;
  no_events = refl;
  offline = λ i d e. cc;
}
SetUp-IsIdle _ (device_added {s = s} set_up name guid m p) =
    let idle = SetUp-IsIdle s set_up in
    either-IsIdle s.started _ _ idle (
      rest-IsIdle s s.started s.channels s.icons s.icons_by_id s.scenes _ _ idle
        (put-offline s.devices _ _ idle.offline refl))
SetUp-IsIdle _ (channel_added {s = s} set_up h n) =
    let idle = SetUp-IsIdle s set_up in
    let s' = (optional_icons h s n.icons).1 in
    let idle' = optional_icons-IsIdle h s n.icons idle in
    either-IsIdle s.started _ _ idle (elim (Option-cases (lookup eq_ℕ s.devices n.device_id)) [
      | inl e ↦ rw e (
          rest-IsIdle s' s'.started _ s'.icons s'.icons_by_id s'.scenes s'.devices
            s'.device_guid_to_id idle' idle'.offline)
      | inr (d, e) ↦ rw e (
          rest-IsIdle s' s'.started _ s'.icons s'.icons_by_id s'.scenes _ s'.device_guid_to_id idle'
            (put-offline s.devices n.device_id _ idle.offline (idle.offline n.device_id d e)))
    ])
SetUp-IsIdle _ (scene_added {s = s} set_up h name caption channels alt icons) =
    let idle = SetUp-IsIdle s set_up in
    let s' = (optional_icons h s icons).1 in
    let idle' = optional_icons-IsIdle h s icons idle in
    either-IsIdle s.started _ _ idle (
      rest-IsIdle s' s'.started s'.channels s'.icons s'.icons_by_id _ s'.devices
        s'.device_guid_to_id idle' idle'.offline)
SetUp-IsIdle _ (started {s = s} set_up) =
    let idle = SetUp-IsIdle s set_up in
    rest-IsIdle s true s.channels s.icons s.icons_by_id s.scenes s.devices s.device_guid_to_id idle
      idle.offline

nobody : (kind : Role → Option ℕ) (table : Dict ℕ ℕ) → table ≡ [] → Owns kind [] table
unfolding lookup
nobody kind table e = record {
  held = λ i k e1. absurd (none≢some (ap (λ (t : Dict ℕ ℕ). lookup eq_ℕ t i) (sym e) ∙ e1));
}

nothing : (table : Dict ℕ ℕ) (i : ℕ) → table ≡ [] → lookup eq_ℕ table i ≡ none
unfolding lookup
nothing table i e = ap (λ (t : Dict ℕ ℕ). lookup eq_ℕ t i) e

pub SetUp-IsOwned : (s : ServerState) → SetUp s → IsOwned s []
unfolding lookup
SetUp-IsOwned s set_up =
    let idle = SetUp-IsIdle s set_up in
    record {
      clients = idle.clients;
      devices = record {
        online = λ i d e.
            idle.offline i d e ∙ sym (ap is_some (nothing s.device_connections i idle.no_devices));
        queues = λ i. ap is_some (
            nothing s.device_events i idle.no_events
            ∙ sym (nothing s.device_connections i idle.no_devices));
        strangers = λ i e. nothing s.device_connections i idle.no_devices;
      };
      client_slots = nobody client_of s.client_connections idle.no_clients;
      device_slots = nobody device_of s.device_connections idle.no_devices;
    }
