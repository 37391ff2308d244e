-- ===== src/Server/Connecting.antt =====
-- A connection that registers takes the slot of its client or device.
use suplalite.Common.{ℕ, ◌≡◌, refl, ap, ◌∙◌, true, some, inl, inr, Option-cases}
use suplalite.Python.Result.{ok}
use suplalite.Python.Bytes.{Bytes}
use suplalite.Python.Text.{Str}
use suplalite.Python.Dict.{Dict, lookup, put, lookup-put}
use suplalite.Server.Types.{ServerState, ClientState, DeviceState, ChannelState, eq_ℕ, eq_guid}
use suplalite.Server.State.{add_client, client_connected, change_client, reset_session}
use suplalite.Server.Devices.{device_connected}
use suplalite.Server.World.{client, device, Conn}
use suplalite.Server.Clients.{eq_ℕ-IsEquality, IsConsistent}
use suplalite.Server.Reachable.{IsClient, add_client-IsConsistent, client_connected-IsConsistent}
use suplalite.Server.Sessions.{add_client-lookup}
use suplalite.Server.Ownership.{Owns, superseded_old, Owns-taken, lookup-superseded_other}
use suplalite.Server.Handling.{renamed}
use suplalite.Server.Owned.{
  client_of, device_of, IsLinked, IsOwned, connected-IsLinked, other-IsConsistent,
}
use suplalite.Server.Slots.{
  IsFree-next_role, IsFree, Owns-beside, client-apart, device-apart, taken, client_slot-free,
  device_slot-free,
}

add_client-IsClient :
    (s : ServerState) (g : Bytes) → IsConsistent s → IsClient (add_client s g).1 (add_client s g).0
add_client-IsClient s g inv =
    let (c, e1, e2) =
      (add_client-IsConsistent s g inv).known g (add_client s g).0 (add_client-lookup s g) in
    (c, e1)

-- What a new client leaves alone
add_client-fields :
    (s : ServerState) (g : Bytes)
    → let s' = (add_client s g).1 in
      (s'.client_connections ≡ s.client_connections)
      × (s'.device_connections ≡ s.device_connections)
      × (IsLinked s.devices s.device_connections s.device_events
          → IsLinked s'.devices s'.device_connections s'.device_events)
unfolding add_client
add_client-fields s g = elim (Option-cases (lookup eq_guid s.client_guid_to_id g)) [
  | inl e ↦ rw (e, add_client) (refl, refl, λ linked. linked)
  | inr (i, e) ↦ rw (e, add_client) (refl, refl, λ linked. linked)
]

pub client_connected-there :
    (s : ServerState) (i q k : ℕ) (c : ClientState)
    → lookup eq_ℕ s.clients i ≡ some c
    → client_connected s i q k ≡ (
      ok (lookup eq_ℕ s.client_connections i),
      record s {
        client_connections = put eq_ℕ s.client_connections i k;
        client_events = put eq_ℕ s.client_events i q;
        clients = put eq_ℕ s.clients i (reset_session (record c { online = true }));
      },
    )
unfolding client_connected
client_connected-there s i q k c there = rw (there, client_connected, change_client) refl

module _ (s : ServerState) (clients : IsConsistent s) (k : ℕ) where
  -- What is returned is the connection that had the slot.
  pub client_takes-connected :
      (g : Bytes)
      → let i = (add_client s g).0 in
        client_connected (add_client s g).1 i k k
        ≡ (ok (lookup eq_ℕ s.client_connections i), (client_connected (add_client s g).1 i k k).1)
  client_takes-connected g =
      let i = (add_client s g).0 in
      let s' = (add_client s g).1 in
      let (d, e) = add_client-IsClient s g clients in
      let (same, _, _) = add_client-fields s g in
      rw (client_connected-there s' i k k d e, same) refl

  -- The client is online then, with this connection.
  pub client_takes-online :
      (g : Bytes)
      → let i = (add_client s g).0 in
        let s' = (client_connected (add_client s g).1 i k k).1 in
        (lookup eq_ℕ s'.client_connections i ≡ some k)
        × (d : ClientState) × (lookup eq_ℕ s'.clients i ≡ some d)
        × (d.online ≡ true)
  client_takes-online g =
      let i = (add_client s g).0 in
      let s' = (add_client s g).1 in
      let (d, e) = add_client-IsClient s g clients in
      let d' = reset_session (record d { online = true }) in
      rw (client_connected-there s' i k k d e) (
        lookup-put eq_ℕ eq_ℕ-IsEquality s'.client_connections i k,
        d',
        lookup-put eq_ℕ eq_ℕ-IsEquality s'.clients i d',
        refl,
      )

module _ (s : ServerState) (conns : Dict ℕ Conn) (owned : IsOwned s conns) (k : ℕ) (c : Conn)
    (free : IsFree conns k c) where
  pub client_takes-IsOwned :
      (g : Bytes) (name' : Str)
      → let i = (add_client s g).0 in
        IsOwned
          (client_connected (add_client s g).1 i k k).1
          (taken s conns owned k c free (lookup eq_ℕ s.client_connections i) name' (client g i))
  client_takes-IsOwned g name' =
      let i = (add_client s g).0 in
      let s' = (add_client s g).1 in
      let old = lookup eq_ℕ s.client_connections i in
      let c' = renamed c name' (client g i) in
      let (d, e) = add_client-IsClient s g owned.clients in
      let (same, same', links) = add_client-fields s g in
      let after' = client_connected-there s' i k k d e in
      let clients =
        client_connected-IsConsistent s' i k k (add_client-IsConsistent s g owned.clients) (d, e) in
      let there =
        lookup-superseded_other conns old k (client_slot-free s conns owned k c free i)
        ∙ free.there in
      let mine : Owns client_of (put eq_ℕ (superseded_old conns old) k c')
          (put eq_ℕ s.client_connections i k) =
        Owns-taken client_of conns s.client_connections owned.client_slots k i c c' free.there
          (ap client_of (IsFree-next_role conns k c free)) free.live refl in
      let others : Owns device_of (put eq_ℕ (superseded_old conns old) k c') s.device_connections =
        Owns-beside client_of device_of client-apart refl conns s.client_connections
          s.device_connections owned.client_slots owned.device_slots k i c c' there
          (IsFree-next_role conns k c free) refl in
      record {
        clients = clients;
        devices = rw after' (links owned.devices);
        client_slots = rw (after', same) mine;
        device_slots = rw (after', same') others;
      }

  pub device_takes-IsOwned :
      (i v : ℕ) (d : DeviceState) (g : Bytes) (name' : Str) (channels : Dict ℕ ChannelState)
      → lookup eq_ℕ s.devices i ≡ some d
      → IsOwned
          (record ((device_connected s i v k k).1) { channels = channels })
          (taken s conns owned k c free (lookup eq_ℕ s.device_connections i) name' (device g i))
  unfolding device_connected
  device_takes-IsOwned i v d g name' channels e =
      let old = lookup eq_ℕ s.device_connections i in
      let c' = renamed c name' (device g i) in
      let there =
        lookup-superseded_other conns old k (device_slot-free s conns owned k c free i)
        ∙ free.there in
      let linked =
        connected-IsLinked s.devices s.device_connections s.device_events owned.devices i
          (record d { online = true; proto_version = v }) k k refl in
      let mine : Owns device_of (put eq_ℕ (superseded_old conns old) k c')
          (put eq_ℕ s.device_connections i k) =
        Owns-taken device_of conns s.device_connections owned.device_slots k i c c' free.there
          (ap device_of (IsFree-next_role conns k c free)) free.live refl in
      let others : Owns client_of (put eq_ℕ (superseded_old conns old) k c') s.client_connections =
        Owns-beside device_of client_of device-apart refl conns s.device_connections
          s.client_connections owned.device_slots owned.client_slots k i c c' there
          (IsFree-next_role conns k c free) refl in
      record {
        clients = rw (e, device_connected) (other-IsConsistent s _ channels _ _ owned.clients);
        devices = rw (e, device_connected) linked;
        client_slots = rw (e, device_connected) others;
        device_slots = rw (e, device_connected) mine;
      }

  -- The connection that had the slot is returned, and this one is still there when it is superseded.
  pub client_takes-old :
      (g : Bytes)
      → let i = (add_client s g).0 in
        let old = lookup eq_ℕ s.client_connections i in
        (client_connected (add_client s g).1 i k k
          ≡ (ok old, (client_connected (add_client s g).1 i k k).1))
        × (lookup eq_ℕ (superseded_old conns old) k ≡ some c)
  client_takes-old g =
      let i = (add_client s g).0 in
      (
        client_takes-connected s owned.clients k g,
        lookup-superseded_other conns (lookup eq_ℕ s.client_connections i) k
              (client_slot-free s conns owned k c free i)
            ∙ free.there,
      )

  pub device_takes-old :
      (i v : ℕ) (d : DeviceState)
      → lookup eq_ℕ s.devices i ≡ some d
      → let old = lookup eq_ℕ s.device_connections i in
        (device_connected s i v k k ≡ (ok old, (device_connected s i v k k).1))
        × (lookup eq_ℕ (superseded_old conns old) k ≡ some c)
  unfolding device_connected
  device_takes-old i v d e =
      let old = lookup eq_ℕ s.device_connections i in
      (
        rw (e, device_connected) refl,
        lookup-superseded_other conns old k (device_slot-free s conns owned k c free i)
            ∙ free.there,
      )
