-- ===== src/Server/Switches.antt =====
-- The values that actions give to relays and dimmers.
use suplalite.Common.{
  ℕ, ◌+◌, ◌≡◌, refl, ap, ◌∙◌, Bool, true, false, not, Option, some, [], ◌∷◌, ◌++◌, ◌==◌,
  if◌then◌else◌, arith,
}
use suplalite.Common.Int.{pos, ◌+ℤ◌}
use suplalite.Python.Result.{Result, ok, err, key_error, runtime_error}
use suplalite.Python.Result
use suplalite.Encoding.Encode.{encode}
use suplalite.Python.Bytes.{Bytes}
use suplalite.Python.Word.{buffer, of_le, of_word, pack}
use suplalite.Encoding.Decode.{decode, decode_number}
use suplalite.Encoding.Value.{getattr}
use suplalite.Encoding.Fields.{fields}
use suplalite.Server.Types.{ChannelState}
use suplalite.Server.Devices.{get_channel}
use suplalite.Server.LastValue.{set_channel_value}
use suplalite.Server.Dimmers.{lit, updated, get_channel-set_channel_value, same_number}
use suplalite.Server.World.{World, channel_set_value, ◌>>=◌, ◌>>◌}
use suplalite.Server.Actions.{
  turn_on, turn_off, toggle, execute_relay_action, execute_dimmer_action, action_value, encode_on,
  decode_on, encode_brightness, last_value_or,
}
use suplalite.Server.Acting.{execute_channel_action, change_value, act, client_execute_action}

-- The eight bytes of a channel value
abbrev pub bytes_of : (b c d e f g h i : ℕ) → Bytes
bytes_of b c d e f g h i = b ∷ c ∷ d ∷ e ∷ f ∷ g ∷ h ∷ i ∷ []

pub decode_on_lem : (b c d e f g h i : ℕ) → decode_on (bytes_of b c d e f g h i) ≡ ok (not (b == 0))
unfolding decode fields getattr decode_number buffer of_le of_word ◌+ℤ◌
decode_on_lem b c d e f g h i = rw (same_number b) refl

abbrev pub relay_bytes : Bool → Bytes
relay_bytes on = bytes_of (if on then 1 else 0) 0 0 0 0 0 0 0

pub encode_on_lem : (on : Bool) → encode_on on ≡ ok (relay_bytes on)
unfolding encode fields pack
encode_on_lem true = refl
encode_on_lem false = refl

pub not-not : (x : Bool) → not (not x) ≡ x
not-not true = refl
not-not false = refl

pub toggle_lem :
    (k : ChannelState) (b c d e f g h i : ℕ)
    → k.value ≡ bytes_of b c d e f g h i
    → execute_relay_action k toggle ≡ ok (relay_bytes (b == 0))
unfolding execute_relay_action
toggle_lem k b c d e f g h i v =
    ap (λ x. Result.◌>>=◌ (decode_on x) (λ on. encode_on (not on))) v
    ∙ ap (λ x. Result.◌>>=◌ x (λ on. encode_on (not on))) (decode_on_lem b c d e f g h i)
    ∙ encode_on_lem (not (not (b == 0)))
    ∙ ap (λ x. ok (relay_bytes x)) (not-not (b == 0))

-- An action on a channel that finds a value of eight bytes
pub client_execute_action-found :
    (w : World) (i : ℕ) (k : ChannelState) (a : ℕ) (p : Bytes) (b c d e f g h j : ℕ)
    → get_channel w.state i ≡ ok k
    → k.id ≡ i
    → action_value k a (some p) ≡ ok (bytes_of b c d e f g h j)
    → let value = bytes_of b c d e f g h j in
      let s = (set_channel_value w.state i value).1 in
      (client_execute_action 1 (pos i) a p w
        ≡ (ok true, record w { state = s; events = w.events ++ channel_set_value i value ∷ [] }))
      × (get_channel s i ≡ ok (updated k value (lit k.type b c)))
unfolding client_execute_action act execute_channel_action change_value
client_execute_action-found w i k a p b c d e f g h j there own found =
    let value = bytes_of b c d e f g h j in
    let (done, now, _) =
      get_channel-set_channel_value w.state i (i + 1) k b c d e f g h j there
        (λ e'. omega (arith, e')) in
    (
      rw
          (
            there, found, own, done, client_execute_action, act, execute_channel_action,
            change_value, ◌>>=◌, ◌>>◌,
          )
          refl,
      now,
    )

-- The toggle of a relay, by its channel's type
pub relay-action :
    (k : ChannelState) (a : ℕ) (p : Option Bytes)
    → k.type ≡ 2900
    → action_value k a p ≡ execute_relay_action k a
unfolding action_value
relay-action k a p e = rw (e, action_value) refl

pub dimmer-action :
    (k : ChannelState) (a : ℕ) (p : Option Bytes)
    → k.type ≡ 4000
    → action_value k a p ≡ execute_dimmer_action k a p
unfolding action_value
dimmer-action k a p e = rw (e, action_value) refl

pub dimmer_off :
    (k : ChannelState) (p : Option Bytes)
    → execute_dimmer_action k turn_off p ≡ ok (bytes_of 0 0 0 0 0 0 0 0)
unfolding execute_dimmer_action encode fields pack
dimmer_off k p = refl

pub dimmer_on :
    (k : ChannelState) (p : Option Bytes) (b c d e f g h i : ℕ)
    → k.last_value ≡ some (bytes_of b c d e f g h i)
    → execute_dimmer_action k turn_on p ≡ ok (bytes_of b c d e f g h i)
unfolding execute_dimmer_action
dimmer_on k p b c d e f g h i last = ap (λ x. last_value_or x (encode_brightness (pos 100))) last

pub updated-fields :
    (k : ChannelState) (v : Bytes) (keep : Bool)
    → ((updated k v keep).id ≡ k.id)
      × ((updated k v keep).type ≡ k.type)
      × ((updated k v keep).value ≡ v)
updated-fields k v true = (refl, refl, refl)
updated-fields k v false = (refl, refl, refl)
