-- ===== src/Device/Messages.antt =====
-- The messages that `Device` of suplalite/device/__init__.py handles.
use suplalite.Common.{
  String, ℕ, ◌+◌, ◌-◌, ◌/◌, true, false, List, [], ◌∷◌, ◌==◌, ltb, not, if◌then◌else◌, length,
}
use suplalite.Common.Int.{ℤ, pos, negsuc, sub_ℕ, eqb_ℤ}
use suplalite.Python.Result.{Result, ok, err, assert, device_error, ◌>>=◌, ◌>>◌}
use suplalite.Python.Bytes.{Bytes, index}
use suplalite.Encoding.Schema.{Class}
use suplalite.Encoding.Value.{Value, Attrs, nil, attr, getattr, as_enum, as_bytes}
use suplalite.Encoding.Fields.{fields}
use suplalite.Encoding.Encode.{encode}
use suplalite.Encoding.Decode.{decode}
use suplalite.Proto.Clients.{
  tsd_register_device_result, tsdc_ping_server_result, tsd_channel_new_value,
  tds_channel_new_value_result,
}
use suplalite.Proto.Actions.{tsd_channel_state_request, tds_channel_state}
use suplalite.Device.Channels.{Floats, Channel}
use suplalite.Device.Channels.Codec.{encoded_value, set_encoded_value}
use suplalite.ChannelValues.{get_int}
use suplalite.Device.Client.{connected, Done, next, send, set_value, replace_at, seconds, finish}

-- The number of an unsigned field
abbrev pub natural : ℤ → ℕ
natural (pos n) = n
natural (negsuc n) = 0

-- `msg, size = decode(cls, data); assert len(data) == size`
abbrev pub decoded_whole : Class → Bytes → Result Attrs
decoded_whole cls bs = do
  (msg, size) ← decode (fields cls) bs
  assert (eqb_ℤ (pos (length bs)) size)
  ok msg

abbrev pub get_enum : Attrs → String → Result ℤ
get_enum msg name = do v ← getattr msg name; as_enum v

abbrev pub get_bytes : Attrs → String → Result Bytes
get_bytes msg name = do v ← getattr msg name; as_bytes v

module _ (floats : Floats) where
  -- `_handle_register_result`, with the fields that it reads
  unfoldable pub handle_register_result : (result_code : ℤ) (activity_timeout : ℕ) → Done
  handle_register_result code timeout d =
      if eqb_ℤ code (pos 3)
      then (
        ok tt,
        record d {
          ping_timeout = sub_ℕ (seconds timeout) (seconds 5);
          state = connected;
          is_set = true;
        },
      )
      else (err device_error, d)

  abbrev pub state_attrs : (uptime : ℕ) (sender_id channel_number : ℤ) → Attrs
  state_attrs uptime sender number =
      let zero' = Value.int (pos 0) in
      let up = Value.int (pos uptime) in
      (attr "receiver_id" (Value.int sender) (
        attr "channel_number" (Value.int number) (
          attr "fields" (Value.enum (pos (0x80 + 0x100))) (
            attr "default_icon_field" zero' (
              attr "ipv4" zero' (
                attr "mac" (Value.bytes (0 ∷ 0 ∷ 0 ∷ 0 ∷ 0 ∷ 0 ∷ [])) (
                  attr "battery_level" zero' (
                    attr "battery_powered" (Value.bool false) (
                      attr "wifi_rssi" zero' (
                        attr "wifi_signal_strength" zero' (
                          attr "bridge_node_online" (Value.bool false) (
                            attr "bridge_node_signal_strength" zero' (
                              attr "uptime" up (
                                attr "connected_uptime" up (
                                  attr "battery_health" zero' (
                                    attr "last_connection_reset_cause" zero' (
                                      attr "light_source_lifespan" zero' (
                                        attr "light_source_operating_time" zero'
                                          nil))))))))))))))))))

  -- `_handle_channel_state_request`
  unfoldable pub handle_channel_state_request : (now : ℕ) (sender_id channel_number : ℤ) → Done
  unfolding encode fields
  handle_channel_state_request now sender number d =
      send now 510 tds_channel_state (state_attrs ((now - d.start_time) / 1000000) sender number) d

  -- The updates of a channel: it changes, and reports its value.
  unfoldable pub update_each : (now channel_number : ℕ) → List Channel → Done
  unfolding encoded_value set_value replace_at
  update_each now number [] d = (ok tt, d)
  update_each now number (c ∷ cs) d =
      next (encoded_value floats c, record d { channels = replace_at d.channels number c })
        (λ value d'. next (set_value now number value d') (λ done. update_each now number cs))

  abbrev pub new_value_result : (sender_id : ℤ) (channel_number : ℕ) → Attrs
  new_value_result sender number =
      attr "channel_number" (Value.int (pos number))
        (attr "sender_id" (Value.int sender) (attr "success" (Value.bool true) nil))

  -- `_handle_channel_new_value`
  unfoldable pub handle_channel_new_value :
      (now : ℕ) (sender_id : ℤ) (channel_number : ℕ) (value : Bytes) → Done
  unfolding update_each set_encoded_value
  handle_channel_new_value now sender number value d =
      if not (ltb number (length d.channels))
      then (ok tt, d)
      else next (index d.channels (pos number) >>= λ c. set_encoded_value floats c value, d)
          (λ cs d'.
            next (update_each now number cs d')
              (λ done. send now 120 tds_channel_new_value_result (new_value_result sender number)))

  -- `handlers[packet.call_id]` of `_handle_message`: what is read of the message, and its handler
  unfoldable pub register_result_fields : Attrs → Result (ℤ × ℕ)
  unfolding getattr
  register_result_fields msg = do
    code ← get_enum msg "result_code"
    timeout ← get_int msg "activity_timeout"
    ok (code, natural timeout)

  unfoldable pub on_register_result : Attrs → Done
  unfolding handle_register_result register_result_fields
  on_register_result msg d =
      next (register_result_fields msg, d) (λ p. handle_register_result p.0 p.1)

  unfoldable pub state_request_fields : Attrs → Result (ℤ × ℤ)
  unfolding getattr
  state_request_fields msg = do
    sender ← get_int msg "sender_id"
    number ← get_int msg "channel_number"
    ok (sender, number)

  unfoldable pub on_channel_state_request : (now : ℕ) → Attrs → Done
  unfolding handle_channel_state_request state_request_fields
  on_channel_state_request now msg d =
      next (state_request_fields msg, d) (λ p. handle_channel_state_request now p.0 p.1)

  unfoldable pub new_value_fields : Attrs → Result (ℤ × ℕ × Bytes)
  unfolding getattr
  new_value_fields msg = do
    sender ← get_int msg "sender_id"
    number ← get_int msg "channel_number"
    value ← get_bytes msg "value"
    ok (sender, natural number, value)

  unfoldable pub on_channel_new_value : (now : ℕ) → Attrs → Done
  unfolding handle_channel_new_value new_value_fields
  on_channel_new_value now msg d =
      next (new_value_fields msg, d) (λ p. handle_channel_new_value now p.0 p.1 p.2)

  -- `_handle_message`
  unfoldable pub handle_message : (now call_id : ℕ) → Bytes → Done
  unfolding decode fields on_register_result on_channel_state_request on_channel_new_value
  handle_message now call_id payload d =
      if call_id == 70
      then next (decoded_whole tsd_register_device_result payload, d) on_register_result
      else if call_id == 500
      then next (decoded_whole tsd_channel_state_request payload, d) (on_channel_state_request now)
      else if call_id == 50
      then next (decoded_whole tsdc_ping_server_result payload, d) (λ msg. finish)
      else if call_id == 110
      then next (decoded_whole tsd_channel_new_value payload, d) (on_channel_new_value now)
      else (err device_error, d)
