-- ===== src/Server/Owned.antt =====
-- What ties the connections to the state: who holds the slots of the clients and the devices.
use suplalite.Common.{ℕ, ◌≡◌, sym, ap, ◌∙◌, true, false, Option, none, some, inl, inr}
use suplalite.Python.Dict.{
  Dict, lookup, put, without, is_some, put-cases, without-cases, lookup-put, lookup-put_other,
  lookup-without, lookup-without_other,
}
use suplalite.Server.Types.{ServerState, DeviceState, ChannelState, Connection, EventQueue, eq_ℕ}
use suplalite.Server.World.{Role, anonymous, client, device, Conn}
use suplalite.Server.Clients.{IsConsistent, eq_ℕ-IsEquality, none≢some, some_injective}
use suplalite.Server.Ownership.{Owns}

abbrev pub client_of : Role → Option ℕ
client_of anonymous = none
client_of (client g i) = some i
client_of (device g i) = none

abbrev pub device_of : Role → Option ℕ
device_of anonymous = none
device_of (client g i) = none
device_of (device g i) = some i

-- A device is online while it has a connection, and has an event queue then; and a connection belongs
-- to a device.
pub record IsLinked (devices : Dict ℕ DeviceState) (conns : Dict ℕ Connection)
    (events : Dict ℕ EventQueue) : Type 0 where
  pub online :
      (i : ℕ) (d : DeviceState)
      → lookup eq_ℕ devices i ≡ some d
      → d.online ≡ is_some (lookup eq_ℕ conns i)
  pub queues : (i : ℕ) → is_some (lookup eq_ℕ events i) ≡ is_some (lookup eq_ℕ conns i)
  pub strangers : (i : ℕ) → lookup eq_ℕ devices i ≡ none → lookup eq_ℕ conns i ≡ none

module _ (devices : Dict ℕ DeviceState) (conns : Dict ℕ Connection) (events : Dict ℕ EventQueue)
    (linked : IsLinked devices conns events) (i : ℕ) (d' : DeviceState) where
  pub connected-IsLinked :
      (k q : ℕ)
      → d'.online ≡ true
      → IsLinked (put eq_ℕ devices i d') (put eq_ℕ conns i k) (put eq_ℕ events i q)
  connected-IsLinked k q on =
      let by_i = put-cases eq_ℕ eq_ℕ-IsEquality devices i d' in
      let others = put-cases eq_ℕ eq_ℕ-IsEquality conns i k in
      record {
        online = λ j d e. elim (by_i j) [
          | inl (same, e1) ↦
              let ed : d' ≡ d = some_injective (sym e1 ∙ e) in
              rw (← ed, ← same) (on ∙ sym (ap is_some (lookup-put eq_ℕ eq_ℕ-IsEquality conns i k)))
          | inr (other, e1) ↦
              linked.online j d (sym e1 ∙ e)
              ∙ sym (ap is_some (lookup-put_other eq_ℕ eq_ℕ-IsEquality conns i k j other))
        ];
        queues = λ j. elim (others j) [
          | inl (same, e1) ↦
              rw (e1, ← same) (ap is_some (lookup-put eq_ℕ eq_ℕ-IsEquality events i q))
          | inr (other, e1) ↦
              ap is_some (lookup-put_other eq_ℕ eq_ℕ-IsEquality events i q j other)
              ∙ linked.queues j
              ∙ sym (ap is_some e1)
        ];
        strangers = λ j e. elim (by_i j) [
          | inl (same, e1) ↦ absurd (none≢some (sym e ∙ e1))
          | inr (other, e1) ↦
              lookup-put_other eq_ℕ eq_ℕ-IsEquality conns i k j other
              ∙ linked.strangers j (sym e1 ∙ e)
        ];
      }

  pub disconnected-IsLinked :
      d'.online ≡ false
      → IsLinked (put eq_ℕ devices i d') (without eq_ℕ conns i) (without eq_ℕ events i)
  disconnected-IsLinked off =
      let by_i = put-cases eq_ℕ eq_ℕ-IsEquality devices i d' in
      let others = without-cases eq_ℕ eq_ℕ-IsEquality conns i in
      record {
        online = λ j d e. elim (by_i j) [
          | inl (same, e1) ↦
              let ed : d' ≡ d = some_injective (sym e1 ∙ e) in
              rw (← ed, ← same)
                (off ∙ sym (ap is_some (lookup-without eq_ℕ eq_ℕ-IsEquality conns i)))
          | inr (other, e1) ↦
              linked.online j d (sym e1 ∙ e)
              ∙ sym (ap is_some (lookup-without_other eq_ℕ eq_ℕ-IsEquality conns i j other))
        ];
        queues = λ j. elim (others j) [
          | inl (same, e1) ↦
              rw (e1, ← same) (ap is_some (lookup-without eq_ℕ eq_ℕ-IsEquality events i))
          | inr (other, e1) ↦
              ap is_some (lookup-without_other eq_ℕ eq_ℕ-IsEquality events i j other)
              ∙ linked.queues j
              ∙ sym (ap is_some e1)
        ];
        strangers = λ j e. elim (by_i j) [
          | inl (same, e1) ↦ absurd (none≢some (sym e ∙ e1))
          | inr (other, e1) ↦
              lookup-without_other eq_ℕ eq_ℕ-IsEquality conns i j other
              ∙ linked.strangers j (sym e1 ∙ e)
        ];
      }

-- The tables of clients and of devices are consistent, and a connection that they name is there, has not
-- been superseded, and has that role, or has it once its context has been replaced.
pub record IsOwned (s : ServerState) (conns : Dict ℕ Conn) : Type 0 where
  pub clients : IsConsistent s
  pub devices : IsLinked s.devices s.device_connections s.device_events
  pub client_slots : Owns client_of conns s.client_connections
  pub device_slots : Owns device_of conns s.device_connections

-- The clients do not depend on the devices.
pub other-IsConsistent :
    (s : ServerState) (devices : Dict ℕ DeviceState) (channels : Dict ℕ ChannelState)
    (conns : Dict ℕ Connection) (events : Dict ℕ EventQueue)
    → IsConsistent s
    → IsConsistent (record s {
      devices = devices;
      channels = channels;
      device_connections = conns;
      device_events = events;
    })
other-IsConsistent s devices channels conns events inv = record {
  numbered = inv.numbered;
  known = inv.known;
  online = inv.online;
  queues = inv.queues;
  strangers = inv.strangers;
}
