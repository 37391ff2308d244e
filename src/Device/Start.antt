-- ===== src/Device/Start.antt =====
-- What a device is when it starts, and what it stays then.
use suplalite.Common.{
  ℕ, ◌≤◌, ◌≡◌, refl, sym, ap, ◌∙◌, false, List, [], ◌∷◌, ◌++◌, otherwise, All, arith, append-nil,
  append_assoc,
}
use suplalite.Python.Result.{Result, ok, ◌>>=◌}
use suplalite.Server.Sessions.{ok_injective}
use suplalite.Device.Channels.{Floats, Channel}
use suplalite.Device.Channels
use suplalite.Device.Client.{Config, Device, new_device, add, start, max}
use suplalite.Device.Lifetime.{IsSound}
use suplalite.Device.Runs.{Input, run, run-IsSound}

-- `device.add(channel)` for each channel
unfoldable pub add_all : Device → List Channel → Result Device
unfolding add
add_all d [] = ok d
add_all d (c ∷ cs) = add d c >>= λ d'. add_all d' cs

unfoldable pub highest : ℕ → List Channel → ℕ
highest v [] = v
highest v (c ∷ cs) = highest (max v (Channels.proto_version c)) cs

add-not_started :
    (d : Device) (c : Channel)
    → d.started ≡ false
    → add d c
      ≡ ok (record d {
        channels = d.channels ++ c ∷ [];
        proto_version = max d.proto_version (Channels.proto_version c);
      })
unfolding add
add-not_started d c e = otherwise d.started _ _ e

add_all-channels :
    (d : Device) (cs : List Channel)
    → d.started ≡ false
    → add_all d cs
      ≡ ok (record d { channels = d.channels ++ cs; proto_version = highest d.proto_version cs })
unfolding add_all highest
add_all-channels d [] e =
    ap (λ (cs : List Channel). ok (record d { channels = cs })) (sym (append-nil d.channels))
add_all-channels d (c ∷ cs) e =
    let d' = record d {
      channels = d.channels ++ c ∷ [];
      proto_version = max d.proto_version (Channels.proto_version c);
    } in
    rw (add-not_started d c e, add_all)
      (add_all-channels d' cs e
        ∙ ap
            (λ (xs : List Channel).
              ok (record d { channels = xs; proto_version = highest d.proto_version (c ∷ cs) }))
            (append_assoc d.channels (c ∷ []) cs))

abbrev IsHighest : ℕ → List Channel → ℕ → Type 0
IsHighest v cs h =
    (v ≤ h)
    × All (λ c. Channels.proto_version c ≤ h) cs
    × ((m : ℕ) → v ≤ m → All (λ c. Channels.proto_version c ≤ m) cs → h ≤ m)

max-least : (a b m : ℕ) → a ≤ m → b ≤ m → max a b ≤ m
max-least a b m ha hb = ground arith

highest-IsHighest : (v : ℕ) (cs : List Channel) → IsHighest v cs (highest v cs)
unfolding highest
highest-IsHighest v [] = (omega arith, tt, λ m above all. above)
highest-IsHighest v (c ∷ cs) =
    let p = Channels.proto_version c in
    let (above, all, least) = highest-IsHighest (max v p) cs in
    let v_max : v ≤ max v p = ground arith in
    let p_max : p ≤ max v p = ground arith in
    (
      omega (arith, v_max, above),
      (omega (arith, p_max, above), all),
      λ m v_m all_m. least m (max-least v p m v_m all_m.0) all_m.1,
    )

-- A new device takes the channels that are added to it in their order, so that a channel's number is
-- its position; its protocol version is the least that is not below its own nor below a channel's.
pub add_all-new_device :
    (config : Config) (v now : ℕ) (cs : List Channel)
    → (h : ℕ) × (add_all (new_device config v now) cs
        ≡ ok (record (new_device config v now) { channels = cs; proto_version = h }))
      × (v ≤ h)
      × All (λ c. Channels.proto_version c ≤ h) cs
      × ((m : ℕ) → v ≤ m → All (λ c. Channels.proto_version c ≤ m) cs → h ≤ m)
add_all-new_device config v now cs =
    let (above, all, least) = highest-IsHighest v cs in
    (highest v cs, add_all-channels (new_device config v now) cs refl, above, all, least)

-- Whatever a device goes through that has been given its channels and started, it stays sound: the event
-- `connected` is set just when the state is CONNECTED, a device that registers has a deadline, and
-- until the device is connected it has sent neither a ping nor a changed value.
pub run-start :
    (floats : Floats) (config : Config) (v now : ℕ) (cs : List Channel) (d : Device)
    (is : List Input)
    → add_all (new_device config v now) cs ≡ ok d
    → IsSound (run floats is (start d))
run-start floats config v now cs d is e =
    let e' = add_all-channels (new_device config v now) cs refl in
    let same : record (new_device config v now) { channels = cs; proto_version = highest v cs }
        ≡ d =
      ok_injective (sym e' ∙ e) in
    run-IsSound floats is (start d)
      (rw (← same) (record { agrees = refl; deadline = λ e''. cc; silent = λ e''. tt }))
