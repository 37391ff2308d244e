-- ===== src/Server/Admission.antt =====
-- What a device is told that registers.
use suplalite.Common.{
  sym, ℕ, ◌≡◌, ◌≢◌, refl, ap, ◌∙◌, true, false, none, some, Option-cases, inl, inr,
}
use suplalite.Python.Result.{ok, err, key_error}
use suplalite.Python.Dict.{lookup, put, lookup-put, or_key_error}
use suplalite.Proto.Constants.{activity_timeout_default, proto_version, proto_version_min}
use suplalite.Server.Types.{ServerState, DeviceState, eq_ℕ}
use suplalite.Server.Devices.{
  get_device_id, get_device, get_device_channels, get_channel, device_connected,
}
use suplalite.Server.World.{World, Role, Conn, ◌>>◌, ◌>>=◌, change_context, change_conn}
use suplalite.Server.Registration.{
  RegisterDevice, check_device_identity, register_device, connect_device, RegisterDeviceResult,
}
use suplalite.Server.Ownership.{superseded_old, lookup-superseded_other}
use suplalite.Server.Clients.{eq_ℕ-IsEquality}
use suplalite.Server.Handling.{renamed}
use suplalite.Server.DeviceHandling.{connect_device-effect}
use suplalite.Server.Registered.{AllSettable, acceptance, connect_device-settable}
use suplalite.Server.Sessions.{ok_injective}
use suplalite.Server.Matching.{Gets, check_channels-returns, check_channels-told, expected, told}

-- The answer to a device that is refused
abbrev pub refusal : RegisterDeviceResult
refusal = record {
  accepted = false;
  activity_timeout = activity_timeout_default;
  version = proto_version;
  version_min = proto_version_min;
}

matching :
    (k : ℕ) (msg : RegisterDevice) (w : World) (c : Conn) (i : ℕ) (d : DeviceState)
    → lookup eq_ℕ w.conns k ≡ some c
    → get_device_id w.state msg.guid ≡ ok i
    → get_device w.state i ≡ ok d
    → check_device_identity d msg ≡ none
    → Gets (get_channel w.state) (get_device_channels w.state.channels i)
    → (told msg.channels ≡ expected 0 (get_device_channels w.state.channels i)
        → register_device k msg w ≡ connect_device k i d msg w)
      × (told msg.channels ≢ expected 0 (get_device_channels w.state.channels i)
          → register_device k msg w ≡ (
            ok refusal,
            record w {
              conns = put eq_ℕ w.conns k (record c { context = record c.context { error = true } });
            },
          ))
unfolding register_device
matching k msg w c i d there e1 e2 e3 gets =
    let chs = get_device_channels w.state.channels i in
    let (to, from) = check_channels-told chs msg.channels (get_channel w.state) gets in
    (
      λ same. (let e4 = from same in rw (e1, e2, e3, e4, register_device, ◌>>=◌, ◌>>◌) refl),
      λ apart.
          (let (m, e4) = check_channels-returns (get_channel w.state) chs msg.channels gets in
            elim (Option-cases m) [
              | inl e5 ↦ absurd (apart (to (e4 ∙ ap ok e5)))
              | inr (m', e5) ↦
                  rw
                    (
                      e1, e2, e3, e4, e5, there, register_device, change_context, change_conn,
                      ◌>>=◌, ◌>>◌,
                    )
                    refl
            ]),
    )

get_device-lookup :
    (s : ServerState) (i : ℕ) (d : DeviceState)
    → get_device s i ≡ ok d
    → lookup eq_ℕ s.devices i ≡ some d
unfolding get_device
get_device-lookup s i d e = elim (Option-cases (lookup eq_ℕ s.devices i)) [
  | inl e1 ↦ let e2 : err key_error ≡ ok d = ap or_key_error (sym e1) ∙ e in cc
  | inr (d', e1) ↦ e1 ∙ ap some (ok_injective (ap or_key_error (sym e1) ∙ e))
]

device_connected-there :
    (s : ServerState) (i v q k : ℕ) (d : DeviceState)
    → lookup eq_ℕ s.devices i ≡ some d
    → device_connected s i v q k ≡ (
      ok (lookup eq_ℕ s.device_connections i),
      record s {
        device_connections = put eq_ℕ s.device_connections i k;
        device_events = put eq_ℕ s.device_events i q;
        devices = put eq_ℕ s.devices i (record d { online = true; proto_version = v });
      },
    )
unfolding device_connected
device_connected-there s i v q k d e = rw (e, device_connected) refl

-- What a device that is taken leaves: it is online, with this connection, which will have the role of the
-- device, while the connection that it had has been superseded.
abbrev pub Taken : ℕ → RegisterDevice → World → Conn → ℕ → DeviceState → World → Type 0
Taken k msg w c i d w' =
    (lookup eq_ℕ w'.state.device_connections i ≡ some k)
    × (lookup eq_ℕ w'.state.devices i
        ≡ some (record d { online = true; proto_version = c.proto_version }))
    × (w'.conns
        ≡ put eq_ℕ (superseded_old w.conns (lookup eq_ℕ w.state.device_connections i)) k
            (renamed c d.name (Role.device msg.guid i)))

connect_device-Taken :
    (k : ℕ) (msg : RegisterDevice) (w : World) (c : Conn) (i : ℕ) (d : DeviceState)
    → lookup eq_ℕ w.conns k ≡ some c
    → lookup eq_ℕ w.state.devices i ≡ some d
    → lookup eq_ℕ w.state.device_connections i ≢ some k
    → AllSettable w.state.channels d 0 msg.channels
    → ((connect_device k i d msg w).0 ≡ ok (acceptance c))
      × Taken k msg w c i d (connect_device k i d msg w).1
connect_device-Taken k msg w c i d there known other settable =
    let old = lookup eq_ℕ w.state.device_connections i in
    let d' = record d { online = true; proto_version = c.proto_version } in
    let s = record w.state {
      device_connections = put eq_ℕ w.state.device_connections i k;
      device_events = put eq_ℕ w.state.device_events i k;
      devices = put eq_ℕ w.state.devices i d';
    } in
    let connected = device_connected-there w.state i c.proto_version k k d known in
    let again = lookup-superseded_other w.conns old k other ∙ there in
    let (cs, e1, e2, _) = connect_device-effect k i d msg w c old s there connected again in
    (
      connect_device-settable k i d msg w c old s there connected again settable,
      (
        ap (λ (x : ServerState). lookup eq_ℕ x.device_connections i) e1
            ∙ lookup-put eq_ℕ eq_ℕ-IsEquality w.state.device_connections i k,
        ap (λ (x : ServerState). lookup eq_ℕ x.devices i) e1
            ∙ lookup-put eq_ℕ eq_ℕ-IsEquality w.state.devices i d',
        e2,
      ),
    )

-- A device whose guid and identity the server knows, with values that can be set, registers on a
-- connection that is there and that is not the device's own. If the channels that it tells of match,
-- the result is TRUE with the timeout of the context, the device is online, with the connection's
-- protocol version, and has this connection, whose context is to be replaced by one of the device,
-- and the connection that it had is superseded. If they do not match, it is refused, the context is
-- marked with the error, and nothing else of the world changes.
pub register_device-told :
    (k : ℕ) (msg : RegisterDevice) (w : World) (c : Conn) (i : ℕ) (d : DeviceState)
    → lookup eq_ℕ w.conns k ≡ some c
    → get_device_id w.state msg.guid ≡ ok i
    → get_device w.state i ≡ ok d
    → check_device_identity d msg ≡ none
    → Gets (get_channel w.state) (get_device_channels w.state.channels i)
    → lookup eq_ℕ w.state.device_connections i ≢ some k
    → AllSettable w.state.channels d 0 msg.channels
    → (told msg.channels ≡ expected 0 (get_device_channels w.state.channels i)
        → ((register_device k msg w).0 ≡ ok (acceptance c))
          × Taken k msg w c i d (register_device k msg w).1)
      × (told msg.channels ≢ expected 0 (get_device_channels w.state.channels i)
          → register_device k msg w ≡ (
            ok refusal,
            record w {
              conns = put eq_ℕ w.conns k (record c { context = record c.context { error = true } });
            },
          ))
register_device-told k msg w c i d there e1 e2 e3 gets other settable =
    let (taken, refused) = matching k msg w c i d there e1 e2 e3 gets in
    let known = get_device-lookup w.state i d e2 in
    (
      λ same. rw (taken same) (connect_device-Taken k msg w c i d there known other settable),
      refused,
    )
