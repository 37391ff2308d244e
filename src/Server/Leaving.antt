-- ===== src/Server/Leaving.antt =====
-- The steps of the connections keep what the teardowns that wait have read.
use suplalite.Common.{ℕ, ◌≡◌, refl, ap, ◌∙◌, true, false, none, some, inl, inr, Bool-cases}
use suplalite.Python.Bytes.{Bytes}
use suplalite.Python.Text.{Str}
use suplalite.Python.Dict.{lookup}
use suplalite.Server.Types.{eq_ℕ}
use suplalite.Server.State.{add_client, client_connected}
use suplalite.Server.Devices.{device_connected}
use suplalite.Server.World.{World, Role, anonymous, client, device, Conn, role_after}
use suplalite.Server.Registration.{RegisterDevice, register_device}
use suplalite.Server.ClientRegistration.{register_client}
use suplalite.Server.Connections.{begin_end}
use suplalite.Server.Ownership.{superseded_old}
use suplalite.Server.Handling.{renamed, register_client-effect}
use suplalite.Server.DeviceHandling.{connect_device-effect}
use suplalite.Server.Owned.{IsOwned}
use suplalite.Server.Connecting.{client_takes-old, device_takes-old}
use suplalite.Server.Slots.{IsFree}
use suplalite.Server.Lifecycle.{register_device-cases}
use suplalite.Server.Closing.{superseded_gone-IsOwned, anonymous_gone-IsOwned}
use suplalite.Server.Waiting.{
  AllLeave, put-AllLeave, superseded-AllLeave, idle-AllLeave, ending-AllLeave,
}

pub register_client-AllLeave :
    (w : World) (k : ℕ) (c : Conn) (g : Bytes) (name' : Str)
    → IsOwned w.state w.conns
    → IsFree w.conns k c
    → lookup eq_ℕ w.ending k ≡ none
    → AllLeave w.conns w.ending
    → let w' = (register_client k g name' w).1 in AllLeave w'.conns w'.ending
register_client-AllLeave w k c g name' owned free active leave =
    let i = (add_client w.state g).0 in
    let old = lookup eq_ℕ w.state.client_connections i in
    let s = (client_connected (add_client w.state g).1 i k k).1 in
    let (connected, there) = client_takes-old w.state w.conns owned k c free g in
    let (_, e2, _, e3) = register_client-effect k g name' w old s c connected there in
    rw (e2, e3)
      (put-AllLeave (superseded_old w.conns old) w.ending
        (superseded-AllLeave w.conns w.ending leave old) k (renamed c name' (client g i)) active)

pub register_device-AllLeave :
    (w : World) (k : ℕ) (c : Conn) (msg : RegisterDevice)
    → IsOwned w.state w.conns
    → IsFree w.conns k c
    → lookup eq_ℕ w.ending k ≡ none
    → AllLeave w.conns w.ending
    → let w' = (register_device k msg w).1 in AllLeave w'.conns w'.ending
register_device-AllLeave w k c msg owned free active leave =
    elim (register_device-cases k msg w c free.there) [
      | inl e ↦ rw e leave
      | inr (inl e) ↦ rw e (
          put-AllLeave w.conns w.ending leave k
            (record c { context = record c.context { error = true } }) active)
      | inr (inr (i, d, e, e')) ↦
          let old = lookup eq_ℕ w.state.device_connections i in
          let s = (device_connected w.state i c.proto_version k k).1 in
          let (connected, there) =
            device_takes-old w.state w.conns owned k c free i c.proto_version d e in
          let (_, _, e2, e3) =
            connect_device-effect k i d msg w c old s free.there connected there in
          rw (e', e2, e3)
            (put-AllLeave (superseded_old w.conns old) w.ending
              (superseded-AllLeave w.conns w.ending leave old) k
              (renamed c d.name (device msg.guid i)) active)
    ]

module _ (w : World) (k : ℕ) (c : Conn) (there : lookup eq_ℕ w.conns k ≡ some c)
    (active : lookup eq_ℕ w.ending k ≡ none) (unreplaced : c.context.replacement ≡ none)
    (owned : IsOwned w.state w.conns) (leave : AllLeave w.conns w.ending) where
  abbrev pub Kept : World → Type 0
  Kept w' = IsOwned w'.state w'.conns × AllLeave w'.conns w'.ending

  leaves : (r : Role) → c.superseded ≡ false → c.context.role ≡ r → Kept (begin_end k w)
  unfolding begin_end
  leaves anonymous live role =
      rw (there, live, role, begin_end)
        (
          anonymous_gone-IsOwned w owned k c there
              (ap (λ o. role_after o c.context.role) unreplaced ∙ role),
          idle-AllLeave w.conns w.ending leave k active,
        )
  leaves (client g i) live role =
      rw (there, live, role, begin_end)
        (
          owned,
          ending-AllLeave w.conns w.ending leave k (client g i)
              (record { conn = c; there = there; class = role; unreplaced = unreplaced }),
        )
  leaves (device g i) live role =
      rw (there, live, role, begin_end)
        (
          owned,
          ending-AllLeave w.conns w.ending leave k (device g i)
              (record { conn = c; there = there; class = role; unreplaced = unreplaced }),
        )

  -- A connection's tasks have ended.
  pub begin_end-Kept : Kept (begin_end k w)
  unfolding begin_end
  begin_end-Kept = elim (Bool-cases c.superseded) [
    | inl dead ↦
        rw (there, dead, begin_end)
          (
            superseded_gone-IsOwned w owned k c there dead,
            idle-AllLeave w.conns w.ending leave k active,
          )
    | inr live ↦ leaves c.context.role live refl
  ]
