-- ===== src/Server/Closing.antt =====
-- A connection that ends gives the slot of its role back.
use suplalite.Common.{
  never_both, ℕ, ◌≡◌, ◌≢◌, refl, sym, ap, ◌∙◌, true, false, Option, none, some, inl, inr,
  Option-cases,
}
use suplalite.Python.Result.{Result, ok}
use suplalite.Python.Bytes.{Bytes}
use suplalite.Python.Dict.{Dict, lookup, without}
use suplalite.Server.Types.{ServerState, eq_ℕ}
use suplalite.Server.World.{next_role, World, Role, anonymous, client, device, Conn, ◌>>◌, ◌>>=◌}
use suplalite.Server.Connections.{finish_end}
use suplalite.Server.Clients.{none≢some, some_injective}
use suplalite.Server.Reachable.{client_disconnected-IsConsistent}
use suplalite.Server.Ownership.{Owns}
use suplalite.Server.Releasing.{Owns-gone, Owns-released}
use suplalite.Server.Owned.{
  client_of, device_of, IsOwned, disconnected-IsLinked, other-IsConsistent,
}
use suplalite.Server.Disconnecting.{
  client_disconnected-none, client_disconnected-there, device_disconnected-none,
  device_disconnected-there,
}

module _ (kind : Role → Option ℕ) (conns : Dict ℕ Conn) (table : Dict ℕ ℕ) (k : ℕ) (c : Conn)
    (owns : Owns kind conns table) (there : lookup eq_ℕ conns k ≡ some c) where
  -- A slot that names the connection has the number of its role.
  named :
      (i : ℕ)
      → lookup eq_ℕ table i ≡ some k
      → (c.superseded ≡ false) × (kind (next_role c.context) ≡ some i)
  named i e =
      let (d, e1, e2, e3) = owns.held i k e in
      let same : c ≡ d = some_injective (sym there ∙ e1) in
      (
        ap (λ (x : Conn). x.superseded) same ∙ e2,
        ap (λ (x : Conn). kind (next_role x.context)) same ∙ e3,
      )

  idle-apart : kind (next_role c.context) ≡ none → (i : ℕ) → lookup eq_ℕ table i ≢ some k
  idle-apart idle i e = none≢some (sym idle ∙ (named i e).1)

  superseded-apart : c.superseded ≡ true → (i : ℕ) → lookup eq_ℕ table i ≢ some k
  superseded-apart dead i e = never_both dead (named i e).0

stranger-apart :
    (kind : Role → Option ℕ) (conns : Dict ℕ Conn) (table : Dict ℕ ℕ) (k i : ℕ) (c : Conn)
    → Owns kind conns table
    → lookup eq_ℕ conns k ≡ some c
    → kind (next_role c.context) ≡ some i
    → lookup eq_ℕ table i ≡ none
    → (j : ℕ) → lookup eq_ℕ table j ≢ some k
stranger-apart kind conns table k i c owns there role vacant j e =
    let same : i ≡ j = some_injective (sym role ∙ (named kind conns table k c owns there j e).1) in
    none≢some (sym vacant ∙ ap (lookup eq_ℕ table) same ∙ e)

-- What the end of a teardown leaves: the slots are owned, and the connection is gone.
abbrev pub Ended : ℕ → World → Result (Unit {0}) × World → Type 0
Ended k w (r, w') =
    IsOwned w'.state w'.conns
    × (w'.conns ≡ without eq_ℕ w.conns k)
    × (w'.ending ≡ without eq_ℕ w.ending k)

module _ (w : World) (owned : IsOwned w.state w.conns) (k : ℕ) (c : Conn)
    (there : lookup eq_ℕ w.conns k ≡ some c) where
  -- The state stays when a connection ends that no slot names.
  gone-IsOwned :
      ((i : ℕ) → lookup eq_ℕ w.state.client_connections i ≢ some k)
      → ((i : ℕ) → lookup eq_ℕ w.state.device_connections i ≢ some k)
      → IsOwned w.state (without eq_ℕ w.conns k)
  gone-IsOwned no_client no_device = record {
    clients = owned.clients;
    devices = owned.devices;
    client_slots =
        Owns-gone client_of w.conns w.state.client_connections owned.client_slots k no_client;
    device_slots =
        Owns-gone device_of w.conns w.state.device_connections owned.device_slots k no_device;
  }

  pub superseded_gone-IsOwned : c.superseded ≡ true → IsOwned w.state (without eq_ℕ w.conns k)
  superseded_gone-IsOwned dead =
      gone-IsOwned
        (superseded-apart client_of w.conns w.state.client_connections k c owned.client_slots there
          dead)
        (superseded-apart device_of w.conns w.state.device_connections k c owned.device_slots there
          dead)

  pub anonymous_gone-IsOwned :
      next_role c.context ≡ anonymous → IsOwned w.state (without eq_ℕ w.conns k)
  anonymous_gone-IsOwned e =
      gone-IsOwned
        (idle-apart client_of w.conns w.state.client_connections k c owned.client_slots there
          (ap client_of e))
        (idle-apart device_of w.conns w.state.device_connections k c owned.device_slots there
          (ap device_of e))

  module _ (g : Bytes) (i : ℕ) where
    finish_end-client :
        lookup eq_ℕ w.ending k ≡ some (client g i)
        → next_role c.context ≡ client g i
        → Ended k w (finish_end k w)
          × ((j : ℕ)
              → lookup eq_ℕ w.state.client_connections i ≡ some j
              → (finish_end k w).0 ≡ ok tt)
    unfolding finish_end
    finish_end-client waits role =
        let no_device =
          idle-apart device_of w.conns w.state.device_connections k c owned.device_slots there
            (ap device_of role) in
        elim (Option-cases (lookup eq_ℕ w.state.client_connections i)) [
          | inl e ↦
              let no_client =
                stranger-apart client_of w.conns w.state.client_connections k i c owned.client_slots
                  there (ap client_of role) e in
              rw (waits, client_disconnected-none w.state i e, finish_end, ◌>>=◌, ◌>>◌)
                (
                  (gone-IsOwned no_client no_device, refl, refl),
                  λ j e'. absurd (none≢some (sym e ∙ e')),
                )
          | inr (j, e) ↦
              let (cs, e1) = client_disconnected-there w.state i j owned.clients e in
              let clients = client_disconnected-IsConsistent w.state i owned.clients in
              rw (waits, e1, finish_end, ◌>>=◌, ◌>>◌)
                (
                  (
                    record {
                      clients = rw (← ap (λ (p : Result (Unit {0}) × ServerState). p.1) e1) clients;
                      devices = owned.devices;
                      client_slots =
                          Owns-released client_of w.conns w.state.client_connections
                            owned.client_slots k i c there (ap client_of role);
                      device_slots =
                          Owns-gone device_of w.conns w.state.device_connections owned.device_slots
                            k no_device;
                    },
                    refl,
                    refl,
                  ),
                  λ j' e'. refl,
                )
        ]

    finish_end-device :
        lookup eq_ℕ w.ending k ≡ some (device g i)
        → next_role c.context ≡ device g i
        → Ended k w (finish_end k w)
          × ((j : ℕ)
              → lookup eq_ℕ w.state.device_connections i ≡ some j
              → (finish_end k w).0 ≡ ok tt)
    unfolding finish_end
    finish_end-device waits role =
        let no_client =
          idle-apart client_of w.conns w.state.client_connections k c owned.client_slots there
            (ap client_of role) in
        elim (Option-cases (lookup eq_ℕ w.state.device_connections i)) [
          | inl e ↦
              let no_device =
                stranger-apart device_of w.conns w.state.device_connections k i c owned.device_slots
                  there (ap device_of role) e in
              rw (waits, device_disconnected-none w.state i e, finish_end, ◌>>=◌, ◌>>◌)
                (
                  (gone-IsOwned no_client no_device, refl, refl),
                  λ j e'. absurd (none≢some (sym e ∙ e')),
                )
          | inr (j, e) ↦
              let (d, e1, e2) = device_disconnected-there w.state i j owned.devices e in
              rw (waits, e2, finish_end, ◌>>=◌, ◌>>◌)
                (
                  (
                    record {
                      clients = other-IsConsistent w.state _ w.state.channels _ _ owned.clients;
                      devices =
                          disconnected-IsLinked w.state.devices w.state.device_connections
                            w.state.device_events owned.devices i (record d { online = false })
                            refl;
                      client_slots =
                          Owns-gone client_of w.conns w.state.client_connections owned.client_slots
                            k no_client;
                      device_slots =
                          Owns-released device_of w.conns w.state.device_connections
                            owned.device_slots k i c there (ap device_of role);
                    },
                    refl,
                    refl,
                  ),
                  λ j' e'. refl,
                )
        ]

-- The connection that has the slot of a role
abbrev pub slot_of : ServerState → Role → Option ℕ
slot_of s anonymous = none
slot_of s (client g i) = lookup eq_ℕ s.client_connections i
slot_of s (device g i) = lookup eq_ℕ s.device_connections i

-- The end of a teardown that waits, in a world where the slots are owned. It raises nothing if the slot of
-- the connection's role is taken.
pub finish_end-IsOwned :
    (w : World) (k : ℕ) (c : Conn) (r : Role)
    → IsOwned w.state w.conns
    → lookup eq_ℕ w.conns k ≡ some c
    → lookup eq_ℕ w.ending k ≡ some r
    → next_role c.context ≡ r
    → Ended k w (finish_end k w)
      × ((j : ℕ) → slot_of w.state r ≡ some j → (finish_end k w).0 ≡ ok tt)
unfolding finish_end
finish_end-IsOwned w k c anonymous owned there waits role =
    rw (waits, finish_end)
      ((anonymous_gone-IsOwned w owned k c there role, refl, refl), λ j e. refl)
finish_end-IsOwned w k c (client g i) owned there waits role =
    finish_end-client w owned k c there g i waits role
finish_end-IsOwned w k c (device g i) owned there waits role =
    finish_end-device w owned k c there g i waits role
