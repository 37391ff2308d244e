-- ===== src/Server/Lifecycle.antt =====
-- The calls that open and register connections keep the slots owned.
use suplalite.Common.{ℕ, ◌≡◌, refl, sym, ◌∙◌, true, none, some, inl, inr, ◌⊎◌, Option-cases}
use suplalite.Python.Result.{ok}
use suplalite.Packets.Outcomes.{Result-cases}
use suplalite.Python.Bytes.{Bytes}
use suplalite.Python.Text.{Str}
use suplalite.Python.Dict.{or_key_error, lookup, put}
use suplalite.Proto.Constants.{activity_timeout_min, activity_timeout_max}
use suplalite.Server.Types.{DeviceState, eq_ℕ, eq_guid}
use suplalite.Server.State.{add_client, client_connected}
use suplalite.Server.Devices.{
  get_device_id, get_device, get_device_channels, get_channel, device_connected,
}
use suplalite.Server.World.{World, Conn, ◌>>◌, ◌>>=◌, change_context, change_conn, except_key_error}
use suplalite.Server.Registration.{
  RegisterDevice, register_device, connect_device, check_device_identity, check_channels,
}
use suplalite.Server.ClientRegistration.{register_client}
use suplalite.Server.Connections.{new_conn, open_connection, set_activity_timeout, clamp_timeout}
use suplalite.Server.Clients.{none≢some}
use suplalite.Server.Handling.{register_client-effect}
use suplalite.Server.DeviceHandling.{connect_device-effect}
use suplalite.Server.Owned.{IsOwned}
use suplalite.Server.Connecting.{
  client_takes-IsOwned, device_takes-IsOwned, client_takes-old, device_takes-old,
}
use suplalite.Server.Slots.{IsFree}
use suplalite.Server.Keeping.{idle-IsOwned, kept-IsOwned}

pub open_connection-IsOwned :
    (w : World) (k : ℕ) (peer : Str)
    → IsOwned w.state w.conns
    → lookup eq_ℕ w.conns k ≡ none
    → let w' = open_connection k peer w in IsOwned w'.state w'.conns
unfolding open_connection
open_connection-IsOwned w k peer owned fresh =
    idle-IsOwned w.state w.conns k (new_conn peer) owned (λ c e. absurd (none≢some (sym fresh ∙ e)))
      refl

pub set_activity_timeout-there :
    (w : World) (k : ℕ) (c : Conn) (n : ℕ)
    → lookup eq_ℕ w.conns k ≡ some c
    → let c' = record c { context = record c.context { activity_timeout = clamp_timeout n } } in
      set_activity_timeout k n w ≡ (
        ok (clamp_timeout n, activity_timeout_min, activity_timeout_max),
        record w { conns = put eq_ℕ w.conns k c' },
      )
unfolding set_activity_timeout
set_activity_timeout-there w k c n there =
    rw (there, set_activity_timeout, change_context, change_conn, ◌>>◌, ◌>>=◌) refl

pub set_activity_timeout-IsOwned :
    (w : World) (k : ℕ) (c : Conn) (n : ℕ)
    → IsOwned w.state w.conns
    → lookup eq_ℕ w.conns k ≡ some c
    → let w' = (set_activity_timeout k n w).1 in IsOwned w'.state w'.conns
set_activity_timeout-IsOwned w k c n owned there =
    let c' = record c { context = record c.context { activity_timeout = clamp_timeout n } } in
    rw (set_activity_timeout-there w k c n there)
      (kept-IsOwned w.state w.conns k c c' owned there refl refl)

pub register_client-IsOwned :
    (w : World) (k : ℕ) (c : Conn) (g : Bytes) (name' : Str)
    → IsOwned w.state w.conns
    → IsFree w.conns k c
    → let w' = (register_client k g name' w).1 in IsOwned w'.state w'.conns
register_client-IsOwned w k c g name' owned free =
    let i = (add_client w.state g).0 in
    let old = lookup eq_ℕ w.state.client_connections i in
    let s = (client_connected (add_client w.state g).1 i k k).1 in
    let (connected, there) = client_takes-old w.state w.conns owned k c free g in
    let (e1, e2, _, _) = register_client-effect k g name' w old s c connected there in
    rw (e1, e2) (client_takes-IsOwned w.state w.conns owned k c free g name')

-- What a device that registers gets: nothing, or an error, or a connection.
pub register_device-cases :
    (k : ℕ) (msg : RegisterDevice) (w : World) (c : Conn)
    → lookup eq_ℕ w.conns k ≡ some c
    → let failed = record c { context = record c.context { error = true } } in
      ((register_device k msg w).1 ≡ w)
      ⊎ (((register_device k msg w).1 ≡ record w { conns = put eq_ℕ w.conns k failed })
          ⊎ ((i : ℕ) × (d : DeviceState) × (lookup eq_ℕ w.state.devices i ≡ some d)
              × (register_device k msg w ≡ connect_device k i d msg w)))
unfolding register_device get_device get_device_id
register_device-cases k msg w c there =
    elim (Option-cases (lookup eq_guid w.state.device_guid_to_id msg.guid)) [
      | inl e1 ↦ inr (
          inl (
            rw (e1, there, register_device, get_device_id, change_context, change_conn, ◌>>=◌, ◌>>◌)
              refl))
      | inr (i, e1) ↦ elim (Option-cases (lookup eq_ℕ w.state.devices i)) [
        | inl e2 ↦ inl (
            rw
              (
                e1, e2, get_device_id, register_device, get_device, or_key_error, except_key_error,
                ◌>>=◌,
              )
              refl)
        | inr (d, e2) ↦ elim (Option-cases (check_device_identity d msg)) [
          | inr (m, e3) ↦ inr (
              inl (
                rw
                  (
                    e1, e2, e3, there, get_device_id, register_device, get_device, change_context,
                    change_conn, ◌>>=◌, ◌>>◌,
                  )
                  refl))
          | inl e3 ↦
              elim (Result-cases (
                check_channels (get_device_channels w.state.channels i) msg.channels
                  (get_channel w.state))) [
                    | inl (e, e4) ↦ inl (
                        rw (e1, e2, e3, e4, get_device_id, register_device, get_device, ◌>>=◌) refl)
                    | inr (m, e4) ↦ elim (Option-cases m) [
                      | inl e5 ↦ inr (
                          inr (
                            i,
                            d,
                            e2,
                            rw
                                (
                                  e1, e2, e3, e4, e5, get_device_id, register_device, get_device,
                                  ◌>>=◌,
                                )
                                refl,
                          ))
                      | inr (m', e5) ↦ inr (
                          inl (
                            rw
                              (
                                e1, e2, e3, e4, e5, get_device_id, there, register_device,
                                get_device, change_context, change_conn, ◌>>=◌, ◌>>◌,
                              )
                              refl))
                    ]
                  ]
        ]
      ]
    ]

pub register_device-IsOwned :
    (w : World) (k : ℕ) (c : Conn) (msg : RegisterDevice)
    → IsOwned w.state w.conns
    → IsFree w.conns k c
    → let w' = (register_device k msg w).1 in IsOwned w'.state w'.conns
register_device-IsOwned w k c msg owned free = elim (register_device-cases k msg w c free.there) [
  | inl e ↦ rw e owned
  | inr (inl e) ↦ rw e (
      kept-IsOwned w.state w.conns k c (record c { context = record c.context { error = true } })
        owned free.there refl refl)
  | inr (inr (i, d, e, e')) ↦
      let old = lookup eq_ℕ w.state.device_connections i in
      let s = (device_connected w.state i c.proto_version k k).1 in
      let (connected, there) =
        device_takes-old w.state w.conns owned k c free i c.proto_version d e in
      let (cs, e1, e2, _) = connect_device-effect k i d msg w c old s free.there connected there in
      rw (e', e1, e2)
        (device_takes-IsOwned w.state w.conns owned k c free i c.proto_version d msg.guid d.name cs
          e)
]
