-- ===== src/Server/Keeping.antt =====
-- What keeps the slots owned: changes of connections that do not matter to them, and the replacement of a
-- context behind a handler.
use suplalite.Common.{ℕ, ◌≡◌, refl, ap, Option, none, some}
use suplalite.Python.Result.{Result}
use suplalite.Python.Text.{Str}
use suplalite.Python.Dict.{Dict, lookup, put}
use suplalite.Server.Types.{ServerState, eq_ℕ}
use suplalite.Server.World.{role_after, next_role, World, Role, anonymous, Context, Conn}
use suplalite.Server.Connections.{replaced, replaced_by, take_replacement}
use suplalite.Server.Ownership.{Owns-other}
use suplalite.Server.Releasing.{Owns-kept}
use suplalite.Server.Handling.{change_context-there}
use suplalite.Server.Owned.{client_of, device_of, IsOwned}

-- A connection that has no role comes, or changes.
pub idle-IsOwned :
    (s : ServerState) (conns : Dict ℕ Conn) (k : ℕ) (c' : Conn)
    → IsOwned s conns
    → ((c : Conn) → lookup eq_ℕ conns k ≡ some c → next_role c.context ≡ anonymous)
    → next_role c'.context ≡ anonymous
    → IsOwned s (put eq_ℕ conns k c')
idle-IsOwned s conns k c' owned before role = record {
  clients = owned.clients;
  devices = owned.devices;
  client_slots =
      Owns-other client_of conns s.client_connections owned.client_slots k c'
        (λ c e. ap client_of (before c e)) (ap client_of role);
  device_slots =
      Owns-other device_of conns s.device_connections owned.device_slots k c'
        (λ c e. ap device_of (before c e)) (ap device_of role);
}

-- What is behind a handler, for a connection that is there
pub take_replacement-there :
    (k : ℕ) (w : World) (c : Conn)
    → lookup eq_ℕ w.conns k ≡ some c
    → take_replacement k w
      ≡ record w { conns = put eq_ℕ w.conns k (record c { context = replaced c.context }) }
unfolding take_replacement
take_replacement-there k w c there =
    ap (λ (p : Result (Unit {0}) × World). p.1) (change_context-there k replaced w c there)

-- A connection changes, but not in what matters here.
pub kept-IsOwned :
    (s : ServerState) (conns : Dict ℕ Conn) (k : ℕ) (c c' : Conn)
    → IsOwned s conns
    → lookup eq_ℕ conns k ≡ some c
    → c'.superseded ≡ c.superseded
    → next_role c'.context ≡ next_role c.context
    → IsOwned s (put eq_ℕ conns k c')
kept-IsOwned s conns k c c' owned there same_end same_role = record {
  clients = owned.clients;
  devices = owned.devices;
  client_slots =
      Owns-kept client_of conns s.client_connections owned.client_slots k c c' there same_end
        same_role;
  device_slots =
      Owns-kept device_of conns s.device_connections owned.device_slots k c c' there same_end
        same_role;
}

next_role-replaced : (c : Context) → next_role (replaced c) ≡ next_role c
next_role-replaced c = of_replacement c.replacement refl
  where
    of_replacement :
        (o : Option (Str × Role))
        → c.replacement ≡ o
        → next_role (replaced_by c o) ≡ role_after o c.role
    of_replacement none e = ap (λ o. role_after o c.role) e
    of_replacement (some (name', role')) e = refl

-- The replacement of a context
pub take_replacement-IsOwned :
    (k : ℕ) (w : World) (c : Conn)
    → IsOwned w.state w.conns
    → lookup eq_ℕ w.conns k ≡ some c
    → IsOwned (take_replacement k w).state (take_replacement k w).conns
take_replacement-IsOwned k w c owned there = rw (take_replacement-there k w c there) (
    kept-IsOwned w.state w.conns k c (record c { context = replaced c.context }) owned there refl
      (next_role-replaced c.context))
