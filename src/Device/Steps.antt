-- ===== src/Device/Steps.antt =====
-- What single steps of a device do.
use suplalite.Common.{
  ℕ, ◌+◌, ◌≤◌, ◌≡◌, refl, ap, ◌∙◌, Bool, true, false, some, [], ◌∷◌, ◌++◌, ltb, if◌then◌else◌,
  length, otherwise, not, ◌==◌, arith, get_elem?, get_elem?-lt, lt→ltb,
}
use suplalite.Common.Int.{ℤ, pos}
use suplalite.Python.Result.{ok, ◌>>=◌}
use suplalite.Python.Bytes.{Bytes, index}
use suplalite.Encoding.Value.{Items}
use suplalite.Proto.Devices.{tds_register_device_e}
use suplalite.Encoding.Fields.{fields}
use suplalite.Encoding.Encode.{encode}
use suplalite.Proto.Clients.{tds_channel_new_value_result, tds_device_channel_value_c}
use suplalite.Device.Channels.{Floats, Channel}
use suplalite.Device.Channels.Codec.{encoded_value, set_encoded_value}
use suplalite.Device.Client.{
  Device, connecting, registering, connected, next, set_value, changed_attrs, send,
  register_timeout, is_connected, replace_at, send_encoded,
}
use suplalite.Device.Rounds.{
  past, channel_items, register_attrs, register, register_in, check_deadline_in, ping_if_due,
  task_round,
}
use suplalite.Device.Messages.{update_each, handle_channel_new_value, new_value_result}

when {ℓ} : {A : Type ℓ} (b : Bool) (x y : A) → b ≡ true → (if b then x else y) ≡ x
when true x y e = refl
when false x y e = cc

in_time :
    (floats : Floats) (now : ℕ) (d : Device) (t : ℕ)
    → now ≤ t
    → next
        (past floats now (some t), record d { state = registering })
        (λ done'. ping_if_due floats now)
      ≡ (ok tt, record d { state = registering })
unfolding ping_if_due
in_time floats now d t h = let e : ltb t now ≡ false = ground arith in rw e refl

-- A device with channels, in the state CONNECTING: a round of the task loop whose registration is encoded
-- sends the registration alone, and the device is REGISTERING, with ten seconds from now to do so.
pub task_round-connecting :
    (floats : Floats) (now : ℕ) (d : Device) (items : Items) (bs : Bytes)
    → d.state ≡ connecting
    → d.started ≡ true
    → (length d.channels == 0) ≡ false
    → channel_items floats 0 d.channels ≡ ok items
    → encode (fields tds_register_device_e) (register_attrs floats d.config items) ≡ ok bs
    → task_round floats now d ≡ (
      ok tt,
      record d {
        sent = d.sent ++ (69, bs) ∷ [];
        last_send = now;
        state = registering;
        register_deadline = some (now + 10000000);
      },
    )
unfolding task_round register_in check_deadline_in register
task_round-connecting floats now d items bs st started some' listed encoded =
    let d1 = record d { sent = d.sent ++ (69, bs) ∷ []; last_send = now } in
    let registers : register floats now d ≡ (ok tt, d1) =
      otherwise (length d.channels == 0) _ _ some'
      ∙ ap
          (λ x.
            next (x, d)
              (λ (is : Items).
                send now 69 tds_register_device_e (register_attrs floats d.config is)))
          listed
      ∙ ap (λ x. send_encoded now 69 x d) encoded
      ∙ when d.started _ _ started in
    ap
      (λ x. next (register_in floats x now d) (λ done d'.
        next (check_deadline_in floats d'.state now d') (λ done'. ping_if_due floats now)))
      st
    ∙ ap
        (λ x.
          next
            (next x (λ done d'. (
              ok tt,
              record d' { state = registering; register_deadline = some (now + register_timeout) },
            )))
            (λ done d'.
              next (check_deadline_in floats d'.state now d') (λ done'. ping_if_due floats now)))
        registers
    ∙ in_time floats now
        (record d1 { state = registering; register_deadline = some (now + register_timeout) })
        (now + register_timeout) (omega arith)

-- In the state CONNECTED, a value for a channel that is there and that the channel takes in one update: the
-- channel changes, and two packets go out, the changed value and then the acknowledgement.
pub handle_channel_new_value-connected :
    (floats : Floats) (now : ℕ) (sender : ℤ) (number : ℕ) (value : Bytes) (d : Device)
    (c c' : Channel) (encoded changed result : Bytes)
    → d.state ≡ connected
    → d.started ≡ true
    → get_elem? d.channels number ≡ some c
    → set_encoded_value floats c value ≡ ok (c' ∷ [])
    → encoded_value floats c' ≡ ok encoded
    → encode (fields tds_device_channel_value_c) (changed_attrs number encoded) ≡ ok changed
    → encode (fields tds_channel_new_value_result) (new_value_result floats sender number)
      ≡ ok result
    → handle_channel_new_value floats now sender number value d ≡ (
      ok tt,
      record d {
        channels = replace_at d.channels number c';
        sent = (d.sent ++ (103, changed) ∷ []) ++ (120, result) ∷ [];
        last_send = now;
      },
    )
unfolding handle_channel_new_value update_each set_value index
handle_channel_new_value-connected floats now sender number value d c c' encoded changed result st
      started there takes reads writes acknowledges =
    let d1 = record d { channels = replace_at d.channels number c' } in
    let d2 = record d1 { sent = d.sent ++ (103, changed) ∷ []; last_send = now } in
    let small : not (ltb number (length d.channels)) ≡ false =
      ap not (lt→ltb number (length d.channels) (get_elem?-lt d.channels number c there)) in
    let found : index d.channels (pos number) ≡ ok c = rw (there, index) refl in
    let reports : set_value now number encoded d1 ≡ (ok tt, d2) =
      when (is_connected d.state) _ _ (ap is_connected st)
      ∙ ap (λ x. send_encoded now 103 x d1) writes
      ∙ when d.started _ _ started in
    let updates : update_each floats now number (c' ∷ []) d ≡ (ok tt, d2) =
      ap
        (λ x.
          next (x, d1)
            (λ v d'. next (set_value now number v d') (λ done. update_each floats now number [])))
        reads
      ∙ ap (λ x. next x (λ done. update_each floats now number [])) reports in
    let acknowledge = λ (done : Unit {0}).
      send now 120 tds_channel_new_value_result (new_value_result floats sender number) in
    otherwise _ _ _ small
    ∙ ap
        (λ x.
          next (x >>= λ y. set_encoded_value floats y value, d)
            (λ cs d'. next (update_each floats now number cs d') acknowledge))
        found
    ∙ ap (λ x. next (x, d) (λ cs d'. next (update_each floats now number cs d') acknowledge)) takes
    ∙ ap (λ x. next x acknowledge) updates
    ∙ ap (λ x. send_encoded now 120 x d2) acknowledges
    ∙ when d.started _ _ started
