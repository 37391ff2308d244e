-- ===== src/Server/Disconnecting.antt =====
-- What the methods of the state do when a client or a device disconnects.
use suplalite.Common.{
  ℕ, ◌≡◌, ◌≢◌, refl, sym, ap, ◌∙◌, true, false, none, some, inl, inr, Option-cases,
}
use suplalite.Python.Result.{ok, err, key_error}
use suplalite.Python.Dict.{Dict, lookup, put, without, is_some}
use suplalite.Server.Types.{ServerState, ClientState, DeviceState, eq_ℕ}
use suplalite.Server.State.{client_disconnected, change_client, reset_session}
use suplalite.Server.Devices.{device_disconnected}
use suplalite.Server.Clients.{IsConsistent, none≢some}
use suplalite.Server.Owned.{IsLinked}

none_is_some : false ≢ true
none_is_some e = cc

pub client_disconnected-none :
    (s : ServerState) (i : ℕ)
    → lookup eq_ℕ s.client_connections i ≡ none
    → client_disconnected s i ≡ (err key_error, s)
unfolding client_disconnected
client_disconnected-none s i e = rw (e, client_disconnected) refl

pub client_disconnected-there :
    (s : ServerState) (i k : ℕ)
    → IsConsistent s
    → lookup eq_ℕ s.client_connections i ≡ some k
    → (cs : Dict ℕ ClientState) × (client_disconnected s i ≡ (
      ok tt,
      record s {
        client_connections = without eq_ℕ s.client_connections i;
        client_events = without eq_ℕ s.client_events i;
        clients = cs;
      },
    ))
unfolding client_disconnected
client_disconnected-there s i k inv e = elim (Option-cases (lookup eq_ℕ s.client_events i)) [
  | inl e1 ↦ absurd (none_is_some (sym (ap is_some e1) ∙ inv.queues i ∙ ap is_some e))
  | inr (events, e1) ↦ elim (Option-cases (lookup eq_ℕ s.clients i)) [
    | inl e2 ↦ absurd (none≢some (sym (inv.strangers i e2) ∙ e))
    | inr (c, e2) ↦ (
      put eq_ℕ s.clients i (reset_session (record c { online = false })),
      rw (e, e1, e2, client_disconnected, change_client) refl,
    )
  ]
]

pub device_disconnected-none :
    (s : ServerState) (i : ℕ)
    → lookup eq_ℕ s.device_connections i ≡ none
    → device_disconnected s i ≡ (err key_error, s)
unfolding device_disconnected
device_disconnected-none s i e = rw (e, device_disconnected) refl

pub device_disconnected-there :
    (s : ServerState) (i k : ℕ)
    → IsLinked s.devices s.device_connections s.device_events
    → lookup eq_ℕ s.device_connections i ≡ some k
    → (d : DeviceState) × (lookup eq_ℕ s.devices i ≡ some d)
      × (device_disconnected s i ≡ (
        ok tt,
        record s {
          device_connections = without eq_ℕ s.device_connections i;
          device_events = without eq_ℕ s.device_events i;
          devices = put eq_ℕ s.devices i (record d { online = false });
        },
      ))
unfolding device_disconnected
device_disconnected-there s i k linked e = elim (Option-cases (lookup eq_ℕ s.device_events i)) [
  | inl e1 ↦ absurd (none_is_some (sym (ap is_some e1) ∙ linked.queues i ∙ ap is_some e))
  | inr (events, e1) ↦ elim (Option-cases (lookup eq_ℕ s.devices i)) [
    | inl e2 ↦ absurd (none≢some (sym (linked.strangers i e2) ∙ e))
    | inr (d, e2) ↦ (d, e2, rw (e, e1, e2, device_disconnected) refl)
  ]
]
