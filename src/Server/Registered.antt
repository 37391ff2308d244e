-- ===== src/Server/Registered.antt =====
-- What a device gets that registers, when its values can be set.
use suplalite.Common.{
  ℕ, ◌+◌, ◌≡◌, refl, sym, ap, ◌∙◌, true, false, Option, some, List, [], ◌∷◌, ◌++◌, inl, inr, Bool,
}
use suplalite.Common.Int.{pos}
use suplalite.Python.Result.{ok}
use suplalite.Python.Bytes.{index}
use suplalite.Python.Dict.{Dict, lookup, put, put-cases, lookup-put}
use suplalite.Proto.Constants.{proto_version, proto_version_min}
use suplalite.Server.Types.{ServerState, DeviceState, ChannelState, eq_ℕ}
use suplalite.Server.Devices.{device_connected}
use suplalite.Server.LastValue.{should_set_last, set_channel_value}
use suplalite.Server.World.{
  World, Role, Event, Conn, conn_of, change_conn, change_context, ◌>>◌, ◌>>=◌,
}
use suplalite.Server.Registration.{
  ChannelMsg, RegisterDevice, RegisterDeviceResult, register_values, complete_registration,
  connect_device,
}
use suplalite.Server.Ownership.{superseded_old}
use suplalite.Server.Clients.{eq_ℕ-IsEquality, some_injective}
use suplalite.Server.Handling.{renamed, supersede_old-conns}
use suplalite.Server.DeviceHandling.{register_values-Differs, pair_eq}

-- Each value belongs to a channel of the device that is there, and its channel's type decodes it where it
-- looks at it.
abbrev pub AllSettable : Dict ℕ ChannelState → DeviceState → ℕ → List ChannelMsg → Type 0
AllSettable channels d n [] = Unit
AllSettable channels d n (m ∷ ms) =
    ((i : ℕ) × (c : ChannelState) × (b : Bool) × (index d.channel_ids (pos n) ≡ ok i)
      × (lookup eq_ℕ channels i ≡ some c)
      × (should_set_last c.type m.value ≡ ok b))
    × AllSettable channels d (n + 1) ms

put-AllSettable :
    (channels : Dict ℕ ChannelState) (j : ℕ) (c c' : ChannelState) (d : DeviceState) (n : ℕ)
    (ms : List ChannelMsg)
    → lookup eq_ℕ channels j ≡ some c
    → c'.type ≡ c.type
    → AllSettable channels d n ms
    → AllSettable (put eq_ℕ channels j c') d n ms
put-AllSettable channels j c c' d n [] there same all = tt
put-AllSettable channels j c c' d n (m ∷ ms) there same ((i, c1, b, e1, e2, e3), all) =
    let rest = put-AllSettable channels j c c' d (n + 1) ms there same all in
    elim (put-cases eq_ℕ eq_ℕ-IsEquality channels j c' i) [
      | inl (here, e4) ↦
          let e5 : c ≡ c1 = some_injective (sym there ∙ ap (lookup eq_ℕ channels) here ∙ e2) in
          let e6 : c'.type ≡ c1.type = same ∙ ap (λ (x : ChannelState). x.type) e5 in
          ((i, c', b, e1, e4, ap (λ t. should_set_last t m.value) e6 ∙ e3), rest)
      | inr (other, e4) ↦ ((i, c1, b, e1, e4 ∙ e2, e3), rest)
    ]

set_channel_value-settable :
    (s : ServerState) (i : ℕ) (c : ChannelState) (b : Bool) (m : ChannelMsg)
    → lookup eq_ℕ s.channels i ≡ some c
    → should_set_last c.type m.value ≡ ok b
    → (c' : ChannelState) × (c'.type ≡ c.type)
      × (set_channel_value s i m.value ≡ (ok tt, record s { channels = put eq_ℕ s.channels i c' }))
unfolding set_channel_value
set_channel_value-settable s i c true m e1 e2 = (
  record c { value = m.value; last_value = some m.value },
  refl,
  rw (e1, e2, set_channel_value) refl,
)
set_channel_value-settable s i c false m e1 e2 =
    (record c { value = m.value }, refl, rw (e1, e2, set_channel_value) refl)

register_values-settable :
    (d : DeviceState) (n : ℕ) (ms : List ChannelMsg) (w : World)
    → AllSettable w.state.channels d n ms
    → (register_values d n ms w).0 ≡ ok tt
unfolding register_values
register_values-settable d n [] w all = refl
register_values-settable d n (m ∷ ms) w ((i, c, b, e1, e2, e3), all) =
    let (c', same, e4) = set_channel_value-settable w.state i c b m e2 e3 in
    let w1 = record w {
      state = record w.state { channels = put eq_ℕ w.state.channels i c' };
      events = w.events ++ Event.channel_register_value i m.value ∷ [];
    } in
    let all' = put-AllSettable w.state.channels i c c' d (n + 1) ms e2 same all in
    rw (e1, e4, register_values, ◌>>◌, ◌>>=◌) (register_values-settable d (n + 1) ms w1 all')

abbrev pub acceptance : Conn → RegisterDeviceResult
acceptance c = record {
  accepted = true;
  activity_timeout = c.context.activity_timeout;
  version = proto_version;
  version_min = proto_version_min;
}

module _ (k i : ℕ) (d : DeviceState) (msg : RegisterDevice) where
  complete_registration-settable :
      (w : World) (c : Conn)
      → lookup eq_ℕ w.conns k ≡ some c
      → AllSettable w.state.channels d 0 msg.channels
      → (complete_registration k i d msg w).0 ≡ ok (acceptance c)
  unfolding complete_registration
  complete_registration-settable w c there all =
      let again =
        lookup-put eq_ℕ eq_ℕ-IsEquality w.conns k (renamed c d.name (Role.device msg.guid i)) in
      let w1 = record w {
        conns = put eq_ℕ w.conns k (renamed c d.name (Role.device msg.guid i));
      } in
      let (cs, es, e1) = register_values-Differs d 0 msg.channels w1 in
      let e =
        pair_eq (register_values d 0 msg.channels w1)
          (register_values-settable d 0 msg.channels w1 all) e1 in
      rw (there, e, again, change_context, change_conn, conn_of, complete_registration, ◌>>◌, ◌>>=◌)
        refl

  pub connect_device-settable :
      (w : World) (c : Conn) (old : Option ℕ) (s : ServerState)
      → lookup eq_ℕ w.conns k ≡ some c
      → device_connected w.state i c.proto_version k k ≡ (ok old, s)
      → lookup eq_ℕ (superseded_old w.conns old) k ≡ some c
      → AllSettable s.channels d 0 msg.channels
      → (connect_device k i d msg w).0 ≡ ok (acceptance c)
  unfolding connect_device
  connect_device-settable w c old s there connected again all =
      let w1 = record w { state = s; conns = superseded_old w.conns old } in
      rw (there, connected, supersede_old-conns old, connect_device, conn_of, ◌>>◌, ◌>>=◌)
        (complete_registration-settable w1 c again all)
