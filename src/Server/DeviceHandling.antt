-- ===== src/Server/DeviceHandling.antt =====
-- What the registration of a device does to the connections and to the tables of the state.
use suplalite.Common.{
  ℕ, ◌≡◌, refl, Option, some, inl, inr, Option-cases, Bool-cases, List, [], ◌∷◌, ◌++◌, ◌+◌,
}
use suplalite.Python.Result.{ok}
use suplalite.Packets.Outcomes.{Result-cases}
use suplalite.Python.Bytes.{Bytes, index}
use suplalite.Python.Dict.{Dict, lookup, put, lookup-put}
use suplalite.Common.Int.{pos}
use suplalite.Server.Registration.{
  ChannelMsg, RegisterDevice, register_values, complete_registration, connect_device,
}
use suplalite.Server.Types.{ServerState, DeviceState, ChannelState, eq_ℕ}
use suplalite.Server.LastValue.{should_set_last, set_channel_value}
use suplalite.Server.World.{
  World, Event, channel_register_value, Role, Conn, change_conn, change_context, conn_of, ◌>>◌,
  ◌>>=◌,
}
use suplalite.Server.Ownership.{superseded_old}
use suplalite.Server.Clients.{eq_ℕ-IsEquality}
use suplalite.Server.Handling.{renamed, supersede_old-conns}
use suplalite.Server.Devices.{device_connected}

-- Values are set in the channels alone.
set_channel_value-channels :
    (s : ServerState) (i : ℕ) (v : Bytes)
    → (cs : Dict ℕ ChannelState) × ((set_channel_value s i v).1 ≡ record s { channels = cs })
unfolding set_channel_value
set_channel_value-channels s i v = elim (Option-cases (lookup eq_ℕ s.channels i)) [
  | inl e ↦ (s.channels, rw (e, set_channel_value) refl)
  | inr (c, e) ↦ elim (Result-cases (should_set_last c.type v)) [
    | inr (b, e') ↦ elim (Bool-cases b) [
      | inl yes' ↦ (
        put eq_ℕ s.channels i (record c { value = v; last_value = some v }),
        rw (e, e', yes', set_channel_value) refl,
      )
      | inr no' ↦
          (put eq_ℕ s.channels i (record c { value = v }), rw (e, e', no', set_channel_value) refl)
    ]
    | inl (x, e') ↦
        (put eq_ℕ s.channels i (record c { value = v }), rw (e, e', set_channel_value) refl)
  ]
]

-- What may change while the values are set.
abbrev pub Differs : World → World → Type 0
Differs w w' =
    (cs : Dict ℕ ChannelState) × (es : List Event) × (w'
      ≡ record w { state = record w.state { channels = cs }; events = es })

pub register_values-Differs :
    (d : DeviceState) (n : ℕ) (ms : List ChannelMsg) (w : World)
    → Differs w (register_values d n ms w).1
unfolding register_values
register_values-Differs d n [] w = (w.state.channels, w.events, refl)
register_values-Differs d n (m ∷ ms) w = elim (Result-cases (index d.channel_ids (pos n))) [
  | inl (x, e) ↦ (w.state.channels, w.events, rw (e, register_values) refl)
  | inr (i, e) ↦
      let (cs, e1) = set_channel_value-channels w.state i m.value in
      elim (Result-cases (set_channel_value w.state i m.value).0) [
        | inl (x, e2) ↦ (cs, w.events, rw (e, e2, e1, register_values, ◌>>◌, ◌>>=◌) refl)
        | inr (u, e2) ↦
            let w1 = record w {
              state = record w.state { channels = cs };
              events = w.events ++ channel_register_value i m.value ∷ [];
            } in
            let (cs', es, e3) = register_values-Differs d (n + 1) ms w1 in
            (cs', es, rw (e, e2, e1, register_values, ◌>>◌, ◌>>=◌) e3)
      ]
]

pub pair_eq : {A B : Type 0} (p : A × B) {a : A} {b : B} → p.0 ≡ a → p.1 ≡ b → p ≡ (a, b)
pair_eq p e1 e2 i = (e1 i, e2 i)

module _ (k i : ℕ) (d : DeviceState) (msg : RegisterDevice) where
  abbrev role : Role
  role = Role.device msg.guid i

  complete_registration-effect :
      (w : World) (c : Conn)
      → lookup eq_ℕ w.conns k ≡ some c
      → (cs : Dict ℕ ChannelState) × ((complete_registration k i d msg w).1.state
          ≡ record w.state { channels = cs })
        × ((complete_registration k i d msg w).1.conns ≡ put eq_ℕ w.conns k (renamed c d.name role))
        × ((complete_registration k i d msg w).1.ending ≡ w.ending)
  unfolding complete_registration
  complete_registration-effect w c there =
      let again = lookup-put eq_ℕ eq_ℕ-IsEquality w.conns k (renamed c d.name role) in
      let w1 = record w { conns = put eq_ℕ w.conns k (renamed c d.name role) } in
      let (cs, es, e1) = register_values-Differs d 0 msg.channels w1 in
      elim (Result-cases (register_values d 0 msg.channels w1).0) [
        | inl (x, e2) ↦
            let e = pair_eq (register_values d 0 msg.channels w1) e2 e1 in
            (
              cs,
              rw (there, e, change_context, change_conn, complete_registration, ◌>>◌, ◌>>=◌) refl,
              rw (there, e, change_context, change_conn, complete_registration, ◌>>◌, ◌>>=◌) refl,
              rw (there, e, change_context, change_conn, complete_registration, ◌>>◌, ◌>>=◌) refl,
            )
        | inr (u, e2) ↦
            let e = pair_eq (register_values d 0 msg.channels w1) e2 e1 in
            (
              cs,
              rw
                  (
                    there, e, again, change_context, change_conn, conn_of, complete_registration,
                    ◌>>◌, ◌>>=◌,
                  )
                  refl,
              rw
                  (
                    there, e, again, change_context, change_conn, conn_of, complete_registration,
                    ◌>>◌, ◌>>=◌,
                  )
                  refl,
              rw
                  (
                    there, e, again, change_context, change_conn, conn_of, complete_registration,
                    ◌>>◌, ◌>>=◌,
                  )
                  refl,
            )
      ]

  pub connect_device-effect :
      (w : World) (c : Conn) (old : Option ℕ) (s : ServerState)
      → lookup eq_ℕ w.conns k ≡ some c
      → device_connected w.state i c.proto_version k k ≡ (ok old, s)
      → lookup eq_ℕ (superseded_old w.conns old) k ≡ some c
      → (cs : Dict ℕ ChannelState) × ((connect_device k i d msg w).1.state
          ≡ record s { channels = cs })
        × ((connect_device k i d msg w).1.conns
            ≡ put eq_ℕ (superseded_old w.conns old) k (renamed c d.name role))
        × ((connect_device k i d msg w).1.ending ≡ w.ending)
  unfolding connect_device
  connect_device-effect w c old s there connected again =
      let w1 = record w { state = s; conns = superseded_old w.conns old } in
      let (cs, e1, e2, e3) = complete_registration-effect w1 c again in
      (
        cs,
        rw (there, connected, supersede_old-conns old, connect_device, conn_of, ◌>>◌, ◌>>=◌) e1,
        rw (there, connected, supersede_old-conns old, connect_device, conn_of, ◌>>◌, ◌>>=◌) e2,
        rw (there, connected, supersede_old-conns old, connect_device, conn_of, ◌>>◌, ◌>>=◌) e3,
      )
