-- ===== src/Server/Numbers.antt =====
-- The numbers of channels on their devices.
use suplalite.Common.{
  arith, ℕ, suc, ◌+◌, ◌≡◌, refl, sym, ap, ◌∙◌, true, false, some, List, [], ◌∷◌, ◌++◌, ◌==◌, length,
  ltb, get_elem?, Option-cases, ◌-◌, Bool-cases, inl, inr, ==_iff,
}
use suplalite.Common.Int.{pos, negsuc, leb_ℤ}
use suplalite.Python.Result.{ok}
use suplalite.Python.Bytes.{Bytes, index}
use suplalite.Encoding.Value.{Attrs}
use suplalite.Encoding.Encode.{encode}
use suplalite.Encoding.Fields.{fields}
use suplalite.Proto.Clients.{tsd_channel_new_value}
use suplalite.Server.Types.{ClientState, DeviceState}
use suplalite.Server.State.{get_client, get_client_events}
use suplalite.Server.Devices.{get_device}
use suplalite.Server.LastValue.{set_channel_value}
use suplalite.Server.World.{
  World, Event, channel_value_changed, ◌>>=◌, ◌>>◌, on_state, add_event, add_to_queue, send_message,
  except_key_error,
}
use suplalite.Server.Types.{eq_ℕ}
use suplalite.Server.Clients.{none≢some, some_injective}
use suplalite.Python.Dict.{lookup}
use suplalite.Server.World.{device, Conn, conn_of}
use suplalite.Server.Requests.{
  position, channel_set_value, device_channel_value_changed, device_calcfg_result, new_value_attrs,
}

position-get_elem? : (js : List ℕ) (i n : ℕ) → position js i ≡ some n → get_elem? js n ≡ some i
unfolding position
position-get_elem? [] i n e = absurd (none≢some e)
position-get_elem? (j ∷ js) i n e = elim (Bool-cases (j == i)) [
  | inl here ↦
      let first : 0 ≡ n = some_injective (sym (rw (here, position) refl) ∙ e) in
      rw (← first) (ap some ((==_iff j i).0 here))
  | inr apart ↦ elim (Option-cases (position js i)) [
    | inl e' ↦ absurd (none≢some (sym (rw (apart, e', position) refl) ∙ e))
    | inr (m, e') ↦
        let later : suc m ≡ n = some_injective (sym (rw (apart, e', position) refl) ∙ e) in
        rw (← later) (position-get_elem? js i m e')
  ]
]

index-position : (js : List ℕ) (i n : ℕ) → position js i ≡ some n → index js (pos n) ≡ ok i
unfolding index
index-position js i n e = rw (position-get_elem? js i n e, index) refl

-- On the connection of a device that has the channel: a value that is set goes out with a number, and a
-- value that the device reports with that number is set for that channel, and told to the clients.
pub device_channel_value_changed-channel_set_value :
    (w : World) (k : ℕ) (c : Conn) (g : Bytes) (d : ℕ) (dev : DeviceState) (i n : ℕ)
    (value value' bs : Bytes)
    → lookup eq_ℕ w.conns k ≡ some c
    → c.context.role ≡ device g d
    → get_device w.state d ≡ ok dev
    → position dev.channel_ids i ≡ some n
    → encode (fields tsd_channel_new_value) (new_value_attrs n value) ≡ ok bs
    → (channel_set_value k i value w ≡ (ok tt, record w { sent = w.sent ++ (k, 110, bs) ∷ [] }))
      × (device_channel_value_changed k n value' w
          ≡ (on_state (λ s. set_channel_value s i value')
                >> add_event (channel_value_changed i value'))
              w)
unfolding channel_set_value device_channel_value_changed send_message
device_channel_value_changed-channel_set_value w k c g d dev i n value value' bs there role found
      at_n encoded =
    (
      rw (there, role, found, at_n, encoded, channel_set_value, send_message, conn_of, ◌>>=◌, ◌>>◌)
          refl,
      rw
          (
            there,
            role,
            found,
            index-position dev.channel_ids i n at_n,
            device_channel_value_changed,
            conn_of,
            ◌>>=◌,
          )
          refl,
    )

-- On the connection of a device: the result of a configuration for a client that is there, with a negative channel
-- number of which the device has as many channels, goes to that client for the channel
-- counted from the end.
pub device_calcfg_result-negative :
    (w : World) (k : ℕ) (c : Conn) (g : Bytes) (d : ℕ) (dev : DeviceState) (client : ClientState)
    (msg : Attrs) (receiver q m i : ℕ)
    → lookup eq_ℕ w.conns k ≡ some c
    → c.context.role ≡ device g d
    → get_device w.state d ≡ ok dev
    → get_client w.state receiver ≡ ok client
    → get_client_events w.state receiver ≡ ok q
    → ltb m (length dev.channel_ids) ≡ true
    → get_elem? dev.channel_ids (length dev.channel_ids - (m + 1)) ≡ some i
    → device_calcfg_result k msg (pos receiver) (negsuc m) w
      ≡ add_to_queue q (Event.device_config_result msg i) w
unfolding device_calcfg_result index
device_calcfg_result-negative w k c g d dev client msg receiver q m i there role found known events
      small at_m =
    let below : leb_ℤ (pos (length dev.channel_ids)) (negsuc m) ≡ false = ground arith in
    rw
      (
        known, there, role, found, below, small, at_m, events, device_calcfg_result, conn_of, index,
        except_key_error, ◌>>=◌, ◌>>◌,
      )
      refl
