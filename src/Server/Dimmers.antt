-- ===== src/Server/Dimmers.antt =====
-- What `set_channel_value` keeps as the last value of a channel.
use suplalite.Common.{
  ℕ, ◌+◌, ◌*◌, ◌≡◌, ◌≢◌, ap, ◌∙◌, Bool, true, false, ◌||◌, some, [], ◌∷◌, inl, inr, arith, ltb,
  ◌==◌, if◌then◌else◌, Option-cases, not,
}
use suplalite.Common.Int.{pos, leb_ℤ, ◌+ℤ◌}
use suplalite.Python.Result.{ok}
use suplalite.Python.Bytes.{Bytes}
use suplalite.Python.Word.{buffer, of_le, of_word}
use suplalite.Python.Dict.{lookup, put, lookup-put, lookup-put_other, or_key_error}
use suplalite.Server.Types.{ServerState, ChannelState, eq_ℕ}
use suplalite.Server.LastValue.{
  dimmer, rgb_led_controller, dimmer_and_rgb_led, should_set_last, set_channel_value, dimmer_is_lit,
  color_is_lit, either_is_lit,
}
use suplalite.Encoding.Decode.{decode_number}
use suplalite.Server.Devices.{get_channel}
use suplalite.Server.Clients.{eq_ℕ-IsEquality}
use suplalite.Server.Sessions.{key_error≢ok, ok_injective}

-- What `_should_set_last` says, on the bytes: brightness is the first, color brightness the second.
abbrev pub lit : ℕ → (brightness color_brightness : ℕ) → Bool
lit channel_type b c =
    if channel_type == dimmer
    then ltb 0 b
    else if channel_type == rgb_led_controller
    then ltb 0 c
    else if channel_type == dimmer_and_rgb_led
    then (ltb 0 b || ltb 0 c)
    else false

pub same_number : (n : ℕ) → n + 256 * 0 ≡ n
same_number n = omega arith

positive : (n : ℕ) → not (leb_ℤ (pos n) (pos 0)) ≡ ltb 0 n
positive n = ground arith

dimmer_is_lit_lem :
    (b c d e f g h i : ℕ) → dimmer_is_lit (b ∷ c ∷ d ∷ e ∷ f ∷ g ∷ h ∷ i ∷ []) ≡ ok (ltb 0 b)
unfolding dimmer_is_lit decode_number buffer of_le of_word ◌+ℤ◌
dimmer_is_lit_lem b c d e f g h i = rw (same_number b, positive b)

color_is_lit_lem :
    (b c d e f g h i : ℕ) → color_is_lit (b ∷ c ∷ d ∷ e ∷ f ∷ g ∷ h ∷ i ∷ []) ≡ ok (ltb 0 c)
unfolding color_is_lit decode_number buffer of_le of_word ◌+ℤ◌
color_is_lit_lem b c d e f g h i = rw (same_number c, positive c)

either_is_lit_lem :
    (b c d e f g h i : ℕ)
    → either_is_lit (b ∷ c ∷ d ∷ e ∷ f ∷ g ∷ h ∷ i ∷ []) ≡ ok (ltb 0 b || ltb 0 c)
unfolding either_is_lit decode_number buffer of_le of_word ◌+ℤ◌
either_is_lit_lem b c d e f g h i = rw (same_number b, same_number c, positive b, positive c)

pub should_set_last-lit :
    (channel_type b c d e f g h i : ℕ)
    → should_set_last channel_type (b ∷ c ∷ d ∷ e ∷ f ∷ g ∷ h ∷ i ∷ []) ≡ ok (lit channel_type b c)
unfolding should_set_last
should_set_last-lit t b c d e f g h i =
    rw
      (
        dimmer_is_lit_lem b c d e f g h i,
        color_is_lit_lem b c d e f g h i,
        either_is_lit_lem b c d e f g h i,
        should_set_last,
      )
      (ground arith)

pub get_channel-lookup :
    (s : ServerState) (i : ℕ) (c : ChannelState)
    → get_channel s i ≡ ok c
    → lookup eq_ℕ s.channels i ≡ some c
unfolding get_channel
get_channel-lookup s i c e = elim (Option-cases (lookup eq_ℕ s.channels i)) [
  | inl e' ↦ absurd (key_error≢ok (rw e' at e))
  | inr (d, e') ↦ e' ∙ ap some (ok_injective (rw e' at e))
]

-- The state of a channel behind `set_channel_value`.
abbrev pub updated : ChannelState → Bytes → Bool → ChannelState
updated c value' false = record c { value = value' }
updated c value' true = record c { value = value'; last_value = some value' }

module _ (s : ServerState) (number : ℕ) (k : ChannelState)
    (there : lookup eq_ℕ s.channels number ≡ some k) where
  set_channel_value-updated :
      (value' : Bytes) (keep : Bool)
      → should_set_last k.type value' ≡ ok keep
      → set_channel_value s number value'
        ≡ (ok tt, record s { channels = put eq_ℕ s.channels number (updated k value' keep) })
  unfolding set_channel_value
  set_channel_value-updated value' true e = rw (there, e, set_channel_value)
  set_channel_value-updated value' false e = rw (there, e, set_channel_value)

-- `set_channel_value` with eight bytes sets the value of the channel, keeps it as the last value if it
-- lights the channel's dimmer and leaves the last value as it was if not, and changes no other
-- channel.
pub get_channel-set_channel_value :
    (s : ServerState) (number other : ℕ) (k : ChannelState) (b c d e f g h i : ℕ)
    → get_channel s number ≡ ok k
    → number ≢ other
    → ((set_channel_value s number (b ∷ c ∷ d ∷ e ∷ f ∷ g ∷ h ∷ i ∷ [])).0 ≡ ok tt)
      × (get_channel (set_channel_value s number (b ∷ c ∷ d ∷ e ∷ f ∷ g ∷ h ∷ i ∷ [])).1 number
          ≡ ok (updated k (b ∷ c ∷ d ∷ e ∷ f ∷ g ∷ h ∷ i ∷ []) (lit k.type b c)))
      × (get_channel (set_channel_value s number (b ∷ c ∷ d ∷ e ∷ f ∷ g ∷ h ∷ i ∷ [])).1 other
          ≡ get_channel s other)
unfolding get_channel
get_channel-set_channel_value s number other k b c d e f g h i found apart =
    let value' : Bytes = b ∷ c ∷ d ∷ e ∷ f ∷ g ∷ h ∷ i ∷ [] in
    let there = get_channel-lookup s number k found in
    let done =
      set_channel_value-updated s number k there value' (lit k.type b c)
        (should_set_last-lit k.type b c d e f g h i) in
    (
      ap (λ x. x.0) done,
      ap (λ x. get_channel x.1 number) done
          ∙ ap or_key_error (
              lookup-put eq_ℕ eq_ℕ-IsEquality s.channels number
                (updated k value' (lit k.type b c))),
      ap (λ x. get_channel x.1 other) done
          ∙ ap or_key_error (
              lookup-put_other eq_ℕ eq_ℕ-IsEquality s.channels number
                (updated k value' (lit k.type b c)) other apart),
    )
