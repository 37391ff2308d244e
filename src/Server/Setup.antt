-- ===== src/Server/Setup.antt =====
-- Channels that are added before the server starts.
use suplalite.Common.{
  ℕ, ◌+◌, ◌≡◌, ◌≢◌, refl, ap, ◌∙◌, false, Option, none, some, inl, inr, List, [], ◌∷◌, ◌++◌, length,
  Option-cases,
}
use suplalite.Python.Result.{ok}
use suplalite.Python.Bytes.{Bytes}
use suplalite.Python.Dict.{lookup, put, lookup-put, lookup-put_other, or_key_error}
use suplalite.Server.Types.{ServerState, DeviceState, eq_ℕ, eq_guid}
use suplalite.Server.Icons.{Hashing, add_icons, optional_icons, join_commas, encoded_icons}
use suplalite.Server.Devices.{NewChannel, channel_of, add_channel, get_channel, get_device}
use suplalite.Server.Clients.{eq_ℕ-IsEquality}
use suplalite.Server.Sessions.{key_error≢ok, ok_injective}
use suplalite.Common.{otherwise}

-- Icons are added to the icons alone.
add_icons-channels :
    (hashing : Hashing) (s : ServerState) (icons : List Bytes)
    → (add_icons hashing s icons).1.channels ≡ s.channels
unfolding add_icons
add_icons-channels hashing s icons =
    let key = join_commas (encoded_icons hashing.base64 icons) in
    elim (Option-cases (lookup eq_guid s.icons key)) [
      | inl e ↦ rw (e, add_icons)
      | inr (icon, e) ↦ rw (e, add_icons)
    ]

optional_icons-channels :
    (hashing : Hashing) (s : ServerState) (icons : Option (List Bytes))
    → (optional_icons hashing s icons).1.channels ≡ s.channels
optional_icons-channels hashing s none = refl
optional_icons-channels hashing s (some icons) = add_icons-channels hashing s icons

get_device-lookup :
    (s : ServerState) (i : ℕ) (d : DeviceState)
    → get_device s i ≡ ok d
    → lookup eq_ℕ s.devices i ≡ some d
unfolding get_device
get_device-lookup s i d e = elim (Option-cases (lookup eq_ℕ s.devices i)) [
  | inl e' ↦ absurd (key_error≢ok (rw e' at e))
  | inr (d', e') ↦ e' ∙ ap some (ok_injective (rw e' at e))
]

add_channel-added :
    (hashing : Hashing) (s : ServerState) (n : NewChannel) (d : DeviceState)
    → s.started ≡ false
    → lookup eq_ℕ s.devices n.device_id ≡ some d
    → add_channel hashing s n ≡ (
      ok (length s.channels + 1),
      record ((optional_icons hashing s n.icons).1) {
        channels =
            put eq_ℕ
              (optional_icons hashing s n.icons).1.channels
              (length s.channels + 1)
              (channel_of n (length s.channels + 1) (optional_icons hashing s n.icons).0);
        devices =
            put eq_ℕ s.devices n.device_id
              (record d { channel_ids = d.channel_ids ++ (length s.channels + 1) ∷ [] });
      },
    )
unfolding add_channel
add_channel-added hashing s n d idle there = otherwise s.started _ _ idle ∙ rw there

-- Before the server has started, `add_channel` for a known device returns the number behind the last
-- one; the channel is there with the arguments of the call and the icon that `add_icons` numbered,
-- the device lists it behind its other channels, and another channel is as it was.
pub get_channel-add_channel :
    (hashing : Hashing) (s : ServerState) (n : NewChannel) (d : DeviceState) (other : ℕ)
    → s.started ≡ false
    → get_device s n.device_id ≡ ok d
    → length s.channels + 1 ≢ other
    → ((add_channel hashing s n).0 ≡ ok (length s.channels + 1))
      × (get_channel (add_channel hashing s n).1 (length s.channels + 1)
          ≡ ok (channel_of n (length s.channels + 1) (optional_icons hashing s n.icons).0))
      × (get_device (add_channel hashing s n).1 n.device_id
          ≡ ok (record d { channel_ids = d.channel_ids ++ (length s.channels + 1) ∷ [] }))
      × (get_channel (add_channel hashing s n).1 other ≡ get_channel s other)
unfolding get_channel get_device
get_channel-add_channel hashing s n d other idle found apart =
    let i = length s.channels + 1 in
    let icons = optional_icons hashing s n.icons in
    let done = add_channel-added hashing s n d idle (get_device-lookup s n.device_id d found) in
    let d' = record d { channel_ids = d.channel_ids ++ i ∷ [] } in
    (
      ap (λ x. x.0) done,
      ap (λ x. get_channel x.1 i) done
          ∙ ap or_key_error
              (lookup-put eq_ℕ eq_ℕ-IsEquality icons.1.channels i (channel_of n i icons.0)),
      ap (λ x. get_device x.1 n.device_id) done
          ∙ ap or_key_error (lookup-put eq_ℕ eq_ℕ-IsEquality s.devices n.device_id d'),
      ap (λ x. get_channel x.1 other) done
          ∙ ap or_key_error (
              lookup-put_other eq_ℕ eq_ℕ-IsEquality icons.1.channels i (channel_of n i icons.0)
                other apart
              ∙ ap (λ t. lookup eq_ℕ t other) (optional_icons-channels hashing s n.icons)),
    )
