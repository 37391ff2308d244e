-- ===== src/Device/Rounds.antt =====
-- The rounds of the task loop of `Device` in suplalite/device/__init__.py.
use suplalite.Common.{
  ℕ, ◌+◌, ◌/◌, ◌%◌, Option, none, some, List, [], ◌∷◌, ◌==◌, ltb, not, ◌&&◌, if◌then◌else◌, length,
}
use suplalite.Common.Int.{pos, sub_ℕ, leb_ℤ}
use suplalite.Python.Result.{Result, ok, err, assertion_error, device_error, ◌>>=◌}
use suplalite.Encoding.Value.{Value, Items, Attrs, nil, attr, empty, cons}
use suplalite.Encoding.Fields.{fields}
use suplalite.Encoding.Encode.{encode}
use suplalite.Proto.Devices.{tds_register_device_e}
use suplalite.Proto.Clients.{tdcs_ping_server}
use suplalite.Device.Channels.{Floats, Channel, channel_type, func, action_trigger_caps, flags}
use suplalite.Device.Channels.Codec.{encoded_value}
use suplalite.Device.Client.{
  Config, DeviceState, Done, is_connected, next, register_timeout, send, connecting, registering,
  connected,
}

module _ (floats : Floats) where
  -- The `TDS_DeviceChannel_C` of each channel
  unfoldable pub channel_items : ℕ → List Channel → Result Items
  unfolding encoded_value channel_type func action_trigger_caps
  channel_items n [] = ok empty
  channel_items n (c ∷ cs) = do
    value ← encoded_value floats c
    rest ← channel_items (n + 1) cs
    ok (
        cons
          (Value.message (
            attr "number" (Value.int (pos n)) (
              attr "type" (Value.enum (pos (channel_type c))) (
                attr "action_trigger_caps" (Value.enum (pos (action_trigger_caps c))) (
                  attr "default_func" (Value.enum (pos (func c))) (
                    attr "flags" (Value.enum (pos (flags c)))
                      (attr "value" (Value.bytes value) nil)))))))
          rest)

  abbrev pub register_attrs : Config → Items → Attrs
  register_attrs c items = attr "email" (Value.str c.email) (
      attr "authkey" (Value.bytes c.authkey) (
        attr "guid" (Value.bytes c.guid) (
          attr "name" (Value.str c.name) (
            attr "soft_ver" (Value.str c.version) (
              attr "server_name" (Value.str c.host) (
                attr "flags" (Value.enum (pos 0)) (
                  attr "manufacturer_id" (Value.int (pos 0)) (
                    attr "product_id" (Value.int (pos 0))
                      (attr "channels" (Value.list items) nil)))))))))

  -- `_register`
  unfoldable pub register : (now : ℕ) → Done
  unfolding channel_items encode fields
  register now d =
      if length d.channels == 0
      then (err device_error, d)
      else next (channel_items 0 d.channels, d)
          (λ items. send now 69 tds_register_device_e (register_attrs d.config items))

  abbrev pub ping_attrs : (now : ℕ) → Attrs
  ping_attrs now =
      attr "now"
        (Value.message (
          attr "tv_sec" (Value.int (pos (now / 1000000)))
            (attr "tv_usec" (Value.int (pos (now % 1000000))) nil)))
        nil

  -- `_send_ping`
  unfoldable pub send_ping : (now : ℕ) → Done
  unfolding encode fields
  send_ping now = send now 40 tdcs_ping_server (ping_attrs now)

  -- The three tests of a round of `_task_loop`, the first two in the state that they test
  unfoldable pub register_in : DeviceState → (now : ℕ) → Done
  unfolding register
  register_in connecting now d = next (register now d) (λ done d'.
      (ok tt, record d' { state = registering; register_deadline = some (now + register_timeout) }))
  register_in registering now d = (ok tt, d)
  register_in connected now d = (ok tt, d)

  abbrev pub past : (now : ℕ) → Option ℕ → Result (Unit {0})
  past now none = err assertion_error
  past now (some deadline) = if ltb deadline now then err device_error else ok tt

  unfoldable pub check_deadline_in : DeviceState → (now : ℕ) → Done
  check_deadline_in connecting now d = (ok tt, d)
  check_deadline_in registering now d = (past now d.register_deadline, d)
  check_deadline_in connected now d = (ok tt, d)

  unfoldable pub ping_if_due : (now : ℕ) → Done
  unfolding send_ping
  ping_if_due now d =
      if is_connected d.state && not (leb_ℤ (sub_ℕ now d.last_send) d.ping_timeout)
      then send_ping now d
      else (ok tt, d)

  unfoldable pub task_round : (now : ℕ) → Done
  unfolding register_in check_deadline_in ping_if_due
  task_round now d =
      next (register_in d.state now d)
        (λ done d'. next (check_deadline_in d'.state now d') (λ done'. ping_if_due now))
