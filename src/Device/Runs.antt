-- ===== src/Device/Runs.antt =====
-- A device from its start on: rounds of its task loop, messages, and changes of its channels, in any
-- order, until a task of the device raises.
use suplalite.Common.{ℕ, ◌-◌, ◌/◌, refl, List, [], ◌∷◌, ◌==◌, not, ltb, length}
use suplalite.Common.Int.{ℤ, pos, eqb_ℤ}
use suplalite.Python.Result.{Result, ok, err, ◌>>=◌}
use suplalite.Encoding.Fields.{fields}
use suplalite.Encoding.Encode.{encode}
use suplalite.Python.Bytes.{Bytes, index}
use suplalite.Device.Channels.{Floats, Channel}
use suplalite.Device.Channels.Codec.{encoded_value, set_encoded_value}
use suplalite.Device.Client.{finish, Device, Done, set_value, replace_at}
use suplalite.Device.Rounds.{task_round}
use suplalite.Device.Messages.{
  handle_register_result, handle_channel_state_request, update_each, handle_channel_new_value,
  on_register_result, on_channel_state_request, on_channel_new_value, handle_message,
}
use suplalite.Encoding.Value.{Attrs}
use suplalite.Device.Messages.{
  decoded_whole, new_value_result, state_attrs, register_result_fields, state_request_fields,
  new_value_fields,
}
use suplalite.Device.Lifetime.{
  IsSound, if-IsSound, next-IsSound, set_value-IsSound, send_encoded-IsSound, task_round-IsSound,
}
use suplalite.Proto.Clients.{
  tsd_register_device_result, tsdc_ping_server_result, tsd_channel_new_value,
  tds_channel_new_value_result,
}
use suplalite.Proto.Actions.{tsd_channel_state_request, tds_channel_state}

pub data Input : Type 0 where
  round : (now : ℕ) → Input
  message : (now call_id : ℕ) (payload : Bytes) → Input
  value_set : (now channel_number : ℕ) (channel : Channel) → Input

module _ (floats : Floats) where
  -- The channel's `do_set_value` and `set_value` replace its value and report it.
  abbrev pub step : Input → Done
  step (round now) = task_round floats now
  step (message now call_id payload) = handle_message floats now call_id payload
  step (value_set now number c) = update_each floats now number (c ∷ [])

  -- When a task of the device raises, the device ends. A change of a channel is the program's own call:
  -- what it raises goes to the caller.
  abbrev pub go_on : Input → Result (Unit {0}) → Device → Device → Device
  go_on (value_set now number c) r after' d = after'
  go_on (round now) (ok done) after' d = after'
  go_on (round now) (err e) after' d = d
  go_on (message now call_id payload) (ok done) after' d = after'
  go_on (message now call_id payload) (err e) after' d = d

  unfoldable pub run : List Input → Device → Device
  unfolding task_round handle_message update_each
  run [] d = d
  run (i ∷ is) d = let (r, d') = step i d in let rest = run is d' in go_on i r rest d'

  handle_register_result-IsSound :
      (code : ℤ) (timeout : ℕ) (d : Device)
      → IsSound d
      → IsSound (handle_register_result floats code timeout d).1
  unfolding handle_register_result
  handle_register_result-IsSound code timeout d sound =
      if-IsSound (eqb_ℤ code (pos 3)) _ _
        (λ e. record { agrees = refl; deadline = λ e'. cc; silent = λ e'. cc }) (λ e. sound)

  channels-IsSound :
      (d : Device) (cs : List Channel) → IsSound d → IsSound (record d { channels = cs })
  channels-IsSound d cs sound = record {
    agrees = sound.agrees;
    deadline = sound.deadline;
    silent = sound.silent;
  }

  update_each-IsSound :
      (now number : ℕ) (cs : List Channel) (d : Device)
      → IsSound d
      → IsSound (update_each floats now number cs d).1
  unfolding update_each
  update_each-IsSound now number [] d sound = sound
  update_each-IsSound now number (c ∷ cs) d sound =
      let d1 = record d { channels = replace_at d.channels number c } in
      let sound1 = channels-IsSound d (replace_at d.channels number c) sound in
      next-IsSound (encoded_value floats c, d1) _ sound1
        (λ value.
          let sound2 = set_value-IsSound now number value d1 sound1 in
          next-IsSound (set_value now number value d1) _ sound2
            (λ done. update_each-IsSound now number cs (set_value now number value d1).1 sound2))

  handle_channel_new_value-IsSound :
      (now : ℕ) (sender : ℤ) (number : ℕ) (value : Bytes) (d : Device)
      → IsSound d
      → IsSound (handle_channel_new_value floats now sender number value d).1
  unfolding handle_channel_new_value
  handle_channel_new_value-IsSound now sender number value d sound =
      if-IsSound (not (ltb number (length d.channels))) _ _ (λ e. sound)
        (λ e.
          next-IsSound (index d.channels (pos number) >>= λ c. set_encoded_value floats c value, d)
            _ sound
            (λ cs.
              let sound1 = update_each-IsSound now number cs d sound in
              next-IsSound (update_each floats now number cs d) _ sound1 (λ done.
                send_encoded-IsSound now 120
                  (encode (fields tds_channel_new_value_result)
                    (new_value_result floats sender number))
                  (update_each floats now number cs d).1 sound1 (λ off. refl))))

  on_register_result-IsSound :
      (msg : Attrs) (d : Device) → IsSound d → IsSound (on_register_result floats msg d).1
  unfolding on_register_result
  on_register_result-IsSound msg d sound =
      next-IsSound (register_result_fields floats msg, d)
        (λ p. handle_register_result floats p.0 p.1) sound
        (λ p. handle_register_result-IsSound p.0 p.1 d sound)

  on_channel_state_request-IsSound :
      (now : ℕ) (msg : Attrs) (d : Device)
      → IsSound d
      → IsSound (on_channel_state_request floats now msg d).1
  unfolding on_channel_state_request handle_channel_state_request
  on_channel_state_request-IsSound now msg d sound =
      next-IsSound (state_request_fields floats msg, d)
        (λ p. handle_channel_state_request floats now p.0 p.1) sound
        (λ p.
          send_encoded-IsSound now 510
            (encode (fields tds_channel_state)
              (state_attrs floats ((now - d.start_time) / 1000000) p.0 p.1))
            d sound (λ off. refl))

  on_channel_new_value-IsSound :
      (now : ℕ) (msg : Attrs) (d : Device)
      → IsSound d
      → IsSound (on_channel_new_value floats now msg d).1
  unfolding on_channel_new_value
  on_channel_new_value-IsSound now msg d sound =
      next-IsSound (new_value_fields floats msg, d)
        (λ p. handle_channel_new_value floats now p.0 p.1 p.2) sound
        (λ p. handle_channel_new_value-IsSound now p.0 p.1 p.2 d sound)

  handle_message-IsSound :
      (now call_id : ℕ) (payload : Bytes) (d : Device)
      → IsSound d
      → IsSound (handle_message floats now call_id payload d).1
  unfolding handle_message
  handle_message-IsSound now call_id payload d sound =
      if-IsSound (call_id == 70) _ _
        (λ e.
          next-IsSound (decoded_whole tsd_register_device_result payload, d)
            (on_register_result floats) sound (λ msg. on_register_result-IsSound msg d sound))
        (λ e.
          if-IsSound (call_id == 500) _ _
            (λ e'.
              next-IsSound (decoded_whole tsd_channel_state_request payload, d)
                (on_channel_state_request floats now) sound
                (λ msg. on_channel_state_request-IsSound now msg d sound))
            (λ e'.
              if-IsSound (call_id == 50) _ _
                (λ e''.
                  next-IsSound (decoded_whole tsdc_ping_server_result payload, d) (λ msg. finish)
                    sound (λ msg. sound))
                (λ e''.
                  if-IsSound (call_id == 110) _ _
                    (λ e'''.
                      next-IsSound (decoded_whole tsd_channel_new_value payload, d)
                        (on_channel_new_value floats now) sound
                        (λ msg. on_channel_new_value-IsSound now msg d sound))
                    (λ e'''. sound))))

  step-IsSound : (i : Input) (d : Device) → IsSound d → IsSound (step i d).1
  step-IsSound (round now) d sound = task_round-IsSound floats now d sound
  step-IsSound (message now call_id payload) d sound =
      handle_message-IsSound now call_id payload d sound
  step-IsSound (value_set now number c) d sound = update_each-IsSound now number (c ∷ []) d sound

  go_on-IsSound :
      (i : Input) (r : Result (Unit {0})) (after' d : Device)
      → IsSound after'
      → IsSound d
      → IsSound (go_on i r after' d)
  go_on-IsSound (value_set now number c) r after' d sound sound' = sound
  go_on-IsSound (round now) (ok done) after' d sound sound' = sound
  go_on-IsSound (round now) (err e) after' d sound sound' = sound'
  go_on-IsSound (message now call_id payload) (ok done) after' d sound sound' = sound
  go_on-IsSound (message now call_id payload) (err e) after' d sound sound' = sound'

  -- Whatever a sound device goes through, it stays sound.
  pub run-IsSound : (is : List Input) (d : Device) → IsSound d → IsSound (run is d)
  unfolding run
  run-IsSound [] d sound = sound
  run-IsSound (i ∷ is) d sound =
      let sound' = step-IsSound i d sound in
      go_on-IsSound i (step i d).0 (run is (step i d).1) (step i d).1
        (run-IsSound is (step i d).1 sound') sound'
