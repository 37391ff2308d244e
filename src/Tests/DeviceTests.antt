-- ===== src/Tests/DeviceTests.antt =====
-- A device with a relay and a thermometer.
use suplalite.Common.{
  arith, ℕ, ◌==◌, if◌then◌else◌, ◌≤◌, ◌≡◌, refl, true, false, some, none, List, [], ◌∷◌, All,
}
use suplalite.Common.Int.{ℤ, pos, negsuc, ◌+ℤ◌}
use suplalite.Python.Result.{Result, ok, err, value_error}
use suplalite.Python.Bytes.{Bytes}
use suplalite.Python.Word.{pack, buffer, of_le, of_word}
use suplalite.Encoding.Value.{Items, getattr}
use suplalite.Encoding.Encode.{encode}
use suplalite.Encoding.Decode.{decode, decode_number}
use suplalite.Python.Text.{utf8}
use suplalite.Proto.Devices.{tds_register_device_e}
use suplalite.Proto.Clients.{tds_device_channel_value_c, tds_channel_new_value_result}
use suplalite.Encoding.Fields.{fields}
use suplalite.Device.Channels.{
  Floats, Channel, relay, temperature, temperature_and_humidity, channel_type, func,
  action_trigger_caps,
}
use suplalite.Device.Channels.Codec.{encoded_value, set_encoded_value}
use suplalite.Device.Channels
use suplalite.Device.Values.{set_encoded_value-encoded_value, fresh}
use suplalite.Device.Cold.{set_encoded_value-negative}
use suplalite.Device.Client.{
  Config, Device, registering, connected, new_device, start, add, replace_at, changed_attrs,
}
use suplalite.Device.Rounds.{task_round, channel_items, register_attrs}
use suplalite.Device.Messages.{handle_channel_new_value, new_value_result}
use suplalite.Device.Lifetime.{IsSound}
use suplalite.Device.Runs.{round, value_set, run}
use suplalite.Device.Steps.{task_round-connecting, handle_channel_new_value-connected}
use suplalite.Device.Start.{add_all, add_all-new_device, run-start}

-- Floats that are whole numbers of thousandths
abbrev whole : Floats
whole = record { thousandths = λ f. ok (pos f); of_thousandths = natural }
  where
    natural : ℤ → ℕ
    natural (pos n) = n
    natural (negsuc n) = 0

-- The bit pattern of -5.0
abbrev minus_five : ℕ
minus_five = 0xc014000000000000

abbrev frost : Floats
frost = record {
  thousandths = λ f. if f == minus_five then ok (negsuc 4999) else err value_error;
  of_thousandths = λ z. 0x4150624c92f1a9fc;
}

abbrev lamp : Channel
lamp = relay true none 140

abbrev config : Config
config = record {
  host = 104 ∷ [];
  email = [];
  name = [];
  version = [];
  authkey = replicate_zero;
  guid = replicate_zero;
}
  where
    replicate_zero : Bytes
    replicate_zero = 0 ∷ 0 ∷ 0 ∷ 0 ∷ 0 ∷ 0 ∷ 0 ∷ 0 ∷ 0 ∷ 0 ∷ 0 ∷ 0 ∷ 0 ∷ 0 ∷ 0 ∷ 0 ∷ []

abbrev channels : List Channel
channels = lamp ∷ temperature none ∷ []

abbrev ready : Device
ready = record (new_device config 12 0) { channels = channels }

ready-add_all : add_all (new_device config 12 0) channels ≡ ok ready
unfolding add_all add Channels.proto_version
ready-add_all = refl

set_encoded_value-encoded_value_example :
    (bs : Bytes) × (encoded_value whole lamp ≡ ok bs)
    × (set_encoded_value whole (fresh lamp) bs ≡ ok (lamp ∷ []))
set_encoded_value-encoded_value_example = set_encoded_value-encoded_value whole lamp refl

add_all-new_device_example :
    (h : ℕ) × (add_all (new_device config 12 0) channels
      ≡ ok (record (new_device config 12 0) { channels = channels; proto_version = h }))
    × (12 ≤ h)
    × All (λ c. Channels.proto_version c ≤ h) channels
    × ((m : ℕ) → 12 ≤ m → All (λ c. Channels.proto_version c ≤ m) channels → h ≤ m)
add_all-new_device_example = add_all-new_device config 12 0 channels

run-start_example : IsSound (run whole (round 5 ∷ value_set 6 0 lamp ∷ []) (start ready))
run-start_example =
    run-start whole config 12 0 channels ready (round 5 ∷ value_set 6 0 lamp ∷ []) ready-add_all

abbrev waiting : Device
waiting = record (start ready) { state = registering; register_deadline = some 100 }

abbrev value_of : Result Bytes → Bytes
value_of (ok bs) = bs
value_of (err e) = []

abbrev items_of : Result Items → Items
items_of (ok items) = items
items_of (err e) = Items.empty

abbrev started : Device
started = start (record ready { channels = lamp ∷ [] })

abbrev items : Items
items = items_of (channel_items whole 0 (lamp ∷ []))

abbrev register_bytes : Bytes
register_bytes =
    value_of (encode (fields tds_register_device_e) (register_attrs whole config items))

items-channel_items : channel_items whole 0 (lamp ∷ []) ≡ ok items
unfolding channel_items encoded_value fields encode pack
items-channel_items = refl

register-encode :
    encode (fields tds_register_device_e) (register_attrs whole config items) ≡ ok register_bytes
unfolding channel_items encoded_value fields encode pack utf8 channel_type func action_trigger_caps
register-encode = refl

task_round-connecting_example : task_round whole 3 started ≡ (
  ok tt,
  record started {
    sent = (69, register_bytes) ∷ [];
    last_send = 3;
    state = registering;
    register_deadline = some 10000003;
  },
)
task_round-connecting_example =
    task_round-connecting whole 3 started items register_bytes refl refl refl items-channel_items
      register-encode

abbrev online : Device
online = record started { state = connected; is_set = true }

abbrev off_bytes : Bytes
off_bytes = 0 ∷ 0 ∷ 0 ∷ 0 ∷ 0 ∷ 0 ∷ 0 ∷ 0 ∷ []

turns_off : set_encoded_value whole lamp off_bytes ≡ ok (relay false none 140 ∷ [])
unfolding set_encoded_value decode fields getattr decode_number buffer of_le of_word ◌+ℤ◌
turns_off = refl

off-encoded : encoded_value whole (relay false none 140) ≡ ok off_bytes
unfolding encoded_value fields encode pack
off-encoded = refl

changed-encode :
    encode (fields tds_device_channel_value_c) (changed_attrs 0 off_bytes)
    ≡ ok (0 ∷ 0 ∷ 0 ∷ 0 ∷ 0 ∷ 0 ∷ off_bytes)
unfolding fields encode pack
changed-encode = refl

result-encode :
    encode (fields tds_channel_new_value_result) (new_value_result whole (pos 9) 0)
    ≡ ok (0 ∷ 9 ∷ 0 ∷ 0 ∷ 0 ∷ 1 ∷ [])
unfolding fields encode pack
result-encode = refl

handle_channel_new_value-connected_example :
    handle_channel_new_value whole 8 (pos 9) 0 off_bytes online ≡ (
      ok tt,
      record online {
        channels = replace_at (lamp ∷ []) 0 (relay false none 140);
        sent = (103, 0 ∷ 0 ∷ 0 ∷ 0 ∷ 0 ∷ 0 ∷ off_bytes) ∷ (120, 0 ∷ 9 ∷ 0 ∷ 0 ∷ 0 ∷ 1 ∷ []) ∷ [];
        last_send = 8;
      },
    )
handle_channel_new_value-connected_example =
    handle_channel_new_value-connected whole 8 (pos 9) 0 off_bytes online lamp
      (relay false none 140) off_bytes (0 ∷ 0 ∷ 0 ∷ 0 ∷ 0 ∷ 0 ∷ off_bytes)
      (0 ∷ 9 ∷ 0 ∷ 0 ∷ 0 ∷ 1 ∷ []) refl refl refl turns_off off-encoded changed-encode result-encode

set_encoded_value-negative_example :
    (bs : Bytes) × (encoded_value frost (temperature_and_humidity (some minus_five) none) ≡ ok bs)
    × (set_encoded_value frost (temperature_and_humidity none none) bs
        ≡ ok (temperature_and_humidity (some (frost.of_thousandths (pos 4294962296))) none ∷ []))
set_encoded_value-negative_example =
    set_encoded_value-negative frost minus_five 4999 none refl (omega arith) (omega arith) tt
