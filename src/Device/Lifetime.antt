-- ===== src/Device/Lifetime.antt =====
-- What stays true of a device while single steps of it run: the state, its event and what it has sent.
use suplalite.Common.{
  never_both, ℕ, ◌+◌, ◌≡◌, refl, ap, ◌∙◌, Bool, true, false, some, List, [], ◌∷◌, ◌==◌, ◌||◌, not,
  if◌then◌else◌, length, Bool-cases, inl, inr, ◌&&◌, All, All-append,
}
use suplalite.Common.Int.{leb_ℤ, sub_ℕ}
use suplalite.Python.Result.{Result, ok, err}
use suplalite.Encoding.Fields.{fields}
use suplalite.Encoding.Encode.{encode}
use suplalite.Proto.Clients.{tdcs_ping_server}
use suplalite.Packets.Outcomes.{Result-cases}
use suplalite.Python.Bytes.{Bytes}
use suplalite.Device.Channels.{Floats}
use suplalite.Device.Client.{
  Device, DeviceState, connecting, registering, connected, next, send_encoded, set_value,
  is_connected, register_timeout,
}
use suplalite.Device.Rounds.{
  register, register_in, check_deadline_in, ping_if_due, send_ping, task_round, channel_items,
  ping_attrs,
}

-- A ping, or a changed value
abbrev pub is_report : ℕ → Bool
is_report call_id = call_id == 40 || call_id == 103

abbrev pub NoReports : List (ℕ × Bytes) → Type 0
NoReports ps = All (λ (p : ℕ × Bytes). is_report p.0 ≡ false) ps

-- The event `connected` is set when the state is CONNECTED and not before; a device that registers has
-- a deadline; and nothing is reported before the device is connected.
pub record IsSound (d : Device) : Type 0 where
  pub agrees : d.is_set ≡ is_connected d.state
  pub deadline : d.state ≡ registering → (t : ℕ) × (d.register_deadline ≡ some t)
  pub silent : is_connected d.state ≡ false → NoReports d.sent

-- What may be sent in a state
abbrev MaySend : ℕ → Device → Type 0
MaySend call_id d = is_connected d.state ≡ false → is_report call_id ≡ false

pub if-IsSound :
    {A : Type 0} (b : Bool) (x y : Result A × Device)
    → (b ≡ true → IsSound x.1)
    → (b ≡ false → IsSound y.1)
    → IsSound (if b then x else y).1
if-IsSound true x y sound sound' = sound refl
if-IsSound false x y sound sound' = sound' refl

pub send_encoded-IsSound :
    (now call_id : ℕ) (r : Result Bytes) (d : Device)
    → IsSound d
    → MaySend call_id d
    → IsSound (send_encoded now call_id r d).1
send_encoded-IsSound now call_id (err e) d sound may = sound
send_encoded-IsSound now call_id (ok bs) d sound may =
    if-IsSound d.started _ _
      (λ e. record {
        agrees = sound.agrees;
        deadline = sound.deadline;
        silent = λ off. All-append _ d.sent ((call_id, bs) ∷ []) (sound.silent off) (may off, tt);
      })
      (λ e. sound)

-- A coroutine that follows another one
pub next-IsSound :
    {A B : Type 0} (p : Result A × Device) (k : A → Device → Result B × Device)
    → IsSound p.1
    → ((x : A) → IsSound (k x p.1).1)
    → IsSound (next p k).1
next-IsSound (ok x, d) k sound then' = then' x
next-IsSound (err e, d) k sound then' = sound

pub set_value-IsSound :
    (now number : ℕ) (value : Bytes) (d : Device)
    → IsSound d
    → IsSound (set_value now number value d).1
unfolding set_value
set_value-IsSound now number value d sound =
    if-IsSound (is_connected d.state) _ _
      (λ e. send_encoded-IsSound now 103 _ d sound (λ off. absurd (never_both e off))) (λ e. sound)

register-IsSound :
    (floats : Floats) (now : ℕ) (d : Device) → IsSound d → IsSound (register floats now d).1
unfolding register
register-IsSound floats now d sound =
    if-IsSound (length d.channels == 0) _ _ (λ e. sound)
      (λ e.
        next-IsSound (channel_items floats 0 d.channels, d) _ sound
          (λ items. send_encoded-IsSound now 69 _ d sound (λ off. refl)))

registering-IsSound :
    (now : ℕ) (d : Device)
    → is_connected d.state ≡ false
    → IsSound d
    → IsSound (record d { state = registering; register_deadline = some now })
registering-IsSound now d off sound = record {
  agrees = sound.agrees ∙ off;
  deadline = λ e. (now, refl);
  silent = λ e. sound.silent off;
}

send_ping-IsSound :
    (floats : Floats) (now : ℕ) (d : Device)
    → is_connected d.state ≡ true
    → IsSound d
    → IsSound (send_ping floats now d).1
unfolding send_ping
send_ping-IsSound floats now d on sound =
    send_encoded-IsSound now 40 (encode (fields tdcs_ping_server) (ping_attrs floats now)) d sound
      (λ off. absurd (never_both on off))

-- What is sent leaves the state as it is.
send_encoded-state :
    (now call_id : ℕ) (r : Result Bytes) (d : Device)
    → (send_encoded now call_id r d).1.state ≡ d.state
send_encoded-state now call_id (err e) d = refl
send_encoded-state now call_id (ok bs) d = elim (Bool-cases d.started) [
  | inl e ↦ rw e refl
  | inr e ↦ rw e refl
]

register-state :
    (floats : Floats) (now : ℕ) (d : Device) → (register floats now d).1.state ≡ d.state
unfolding register
register-state floats now d = elim (Bool-cases (length d.channels == 0)) [
  | inl e ↦ rw e refl
  | inr e ↦ elim (Result-cases (channel_items floats 0 d.channels)) [
    | inl (x, e') ↦ rw (e, e') refl
    | inr (items, e') ↦ rw (e, e') (send_encoded-state now 69 _ d)
  ]
]

register_in-IsSound :
    (floats : Floats) (st : DeviceState) (now : ℕ) (d : Device)
    → d.state ≡ st
    → IsSound d
    → IsSound (register_in floats st now d).1
unfolding register_in
register_in-IsSound floats connecting now d e sound =
    let sound' = register-IsSound floats now d sound in
    next-IsSound (register floats now d) _ sound' (λ done.
      registering-IsSound (now + register_timeout) (register floats now d).1
        (ap is_connected (register-state floats now d ∙ e)) sound')
register_in-IsSound floats registering now d e sound = sound
register_in-IsSound floats connected now d e sound = sound

check_deadline_in-IsSound :
    (floats : Floats) (st : DeviceState) (now : ℕ) (d : Device)
    → IsSound d
    → IsSound (check_deadline_in floats st now d).1
unfolding check_deadline_in
check_deadline_in-IsSound floats connecting now d sound = sound
check_deadline_in-IsSound floats registering now d sound = sound
check_deadline_in-IsSound floats connected now d sound = sound

and_left : (a b : Bool) → (a && b) ≡ true → a ≡ true
and_left true b e = refl
and_left false b e = e

ping_if_due-IsSound :
    (floats : Floats) (now : ℕ) (d : Device) → IsSound d → IsSound (ping_if_due floats now d).1
unfolding ping_if_due
ping_if_due-IsSound floats now d sound =
    if-IsSound (is_connected d.state && not (leb_ℤ (sub_ℕ now d.last_send) d.ping_timeout)) _ _
      (λ e. send_ping-IsSound floats now d (and_left _ _ e) sound) (λ e. sound)

pub task_round-IsSound :
    (floats : Floats) (now : ℕ) (d : Device) → IsSound d → IsSound (task_round floats now d).1
unfolding task_round
task_round-IsSound floats now d sound =
    let d1 = (register_in floats d.state now d).1 in
    let d2 = (check_deadline_in floats d1.state now d1).1 in
    let sound1 = register_in-IsSound floats d.state now d refl sound in
    let sound2 = check_deadline_in-IsSound floats d1.state now d1 sound1 in
    next-IsSound (register_in floats d.state now d) _ sound1 (λ done.
      next-IsSound (check_deadline_in floats d1.state now d1) _ sound2
        (λ done'. ping_if_due-IsSound floats now d2 sound2))
