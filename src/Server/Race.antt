-- ===== src/Server/Race.antt =====
-- A client that registers while the teardown of its old connection waits for the lock.
use suplalite.Common.{ℕ, ◌≡◌, ◌≢◌, refl, ap, ◌∙◌, false, none, some, ◌++◌, [], ◌∷◌}
use suplalite.Python.Result.{ok, err, key_error}
use suplalite.Python.Bytes.{Bytes}
use suplalite.Python.Text.{Str}
use suplalite.Python.Dict.{
  Dict, lookup, without, put, lookup-put, lookup-without, lookup-without_other,
}
use suplalite.Server.Types.{ServerState, eq_ℕ}
use suplalite.Server.State.{add_client, client_connected, client_disconnected}
use suplalite.Server.World.{World, Event, client, Role, Conn, ◌>>◌, ◌>>=◌}
use suplalite.Server.ClientRegistration.{register_client}
use suplalite.Server.Connections.{handle, close_connection, begin_end, finish_end}
use suplalite.Server.Clients.{eq_ℕ-IsEquality}
use suplalite.Server.Ownership.{superseded_old}
use suplalite.Server.Handling.{registered}
use suplalite.Server.Connecting.{client_takes-old, client_takes-online, client_takes-IsOwned}
use suplalite.Server.Slots.{IsFree, client_slot-free}
use suplalite.Server.Disconnecting.{client_disconnected-there, client_disconnected-none}
use suplalite.Server.Service.{Reached, Reached-IsOwned}
use suplalite.Server.Takeover.{handled_client}

finish_client :
    (w : World) (j : ℕ) (g : Bytes) (i : ℕ) (s : ServerState)
    → lookup eq_ℕ w.ending j ≡ some (client g i)
    → client_disconnected w.state i ≡ (ok tt, s)
    → finish_end j w ≡ (
      ok tt,
      record w {
        state = s;
        events = w.events ++ Event.client_disconnected i ∷ [];
        conns = without eq_ℕ w.conns j;
        ending = without eq_ℕ w.ending j;
      },
    )
unfolding finish_end
finish_client w j g i s waits e = rw (waits, e, finish_end, ◌>>◌, ◌>>=◌) refl

close_homeless :
    (w : World) (k : ℕ) (c : Conn) (g : Bytes) (i : ℕ)
    → lookup eq_ℕ w.conns k ≡ some c
    → c.superseded ≡ false
    → c.context.role ≡ client g i
    → lookup eq_ℕ w.state.client_connections i ≡ none
    → (close_connection k w).0 ≡ err key_error
unfolding close_connection begin_end finish_end
close_homeless w k c g i there live role vacant =
    let begun : begin_end k w ≡ record w { ending = put eq_ℕ w.ending k (client g i) } =
      rw (there, live, role, begin_end) refl in
    let waits = lookup-put eq_ℕ eq_ℕ-IsEquality w.ending k (client g i) in
    ap (λ x. (finish_end k x).0) begun
    ∙ rw (waits, client_disconnected-none w.state i vacant, finish_end, ◌>>◌, ◌>>=◌) refl

-- In a reached world, the teardown of a client's connection waits for the lock, and a free connection
-- registers with the client's guid: the teardown then removes the slot of the new connection, which
-- lives on with the client's role; and the end of the new connection raises `KeyError`.
pub register_client-finish_end :
    (w : World) (k j : ℕ) (c : Conn) (g : Bytes) (name' : Str)
    → Reached w
    → IsFree w.conns k c
    → lookup eq_ℕ w.ending k ≡ none
    → let i = (add_client w.state g).0 in
      lookup eq_ℕ w.state.client_connections i ≡ some j
      → lookup eq_ℕ w.ending j ≡ some (client g i)
      → let w' = (handle k (register_client k g name') w).1 in
        let (r, w'') = finish_end j w' in
        (r ≡ ok tt)
        × (lookup eq_ℕ w''.state.client_connections i ≡ none)
        × (c' : Conn) × (lookup eq_ℕ w''.conns k ≡ some c')
        × (c'.superseded ≡ false)
        × (c'.context.role ≡ client g i)
        × ((close_connection k w'').0 ≡ err key_error)
register_client-finish_end w k j c g name' reached free active e waits =
    let i = (add_client w.state g).0 in
    let s = (client_connected (add_client w.state g).1 i k k).1 in
    let old = lookup eq_ℕ w.state.client_connections i in
    let owned = Reached-IsOwned w reached in
    let (connected, there) = client_takes-old w.state w.conns owned k c free g in
    let (e1, e2, e3) = handled_client w k c g name' connected there in
    let (now, _, _, _) = client_takes-online w.state owned.clients k g in
    let clients = (client_takes-IsOwned w.state w.conns owned k c free g name').clients in
    let (cs, e4) = client_disconnected-there s i k clients now in
    let w' = (handle k (register_client k g name') w).1 in
    let c' = registered c name' (client g i) in
    let apart : j ≢ k =
      λ same. client_slot-free w.state w.conns owned k c free i (e ∙ ap some same) in
    let waits' : lookup eq_ℕ w'.ending j ≡ some (client g i) =
      ap (λ (d : Dict ℕ Role). lookup eq_ℕ d j) e3 ∙ waits in
    let s' = record s {
      client_connections = without eq_ℕ s.client_connections i;
      client_events = without eq_ℕ s.client_events i;
      clients = cs;
    } in
    let e5 : client_disconnected w'.state i ≡ (ok tt, s') = rw e1 e4 in
    let gone = lookup-without eq_ℕ eq_ℕ-IsEquality s.client_connections i in
    let at_k : lookup eq_ℕ (without eq_ℕ w'.conns j) k ≡ some c' =
      lookup-without_other eq_ℕ eq_ℕ-IsEquality w'.conns j k apart
      ∙ e2 k
      ∙ lookup-put eq_ℕ eq_ℕ-IsEquality (superseded_old w.conns old) k c' in
    let w'' = record w' {
      state = s';
      events = w'.events ++ Event.client_disconnected i ∷ [];
      conns = without eq_ℕ w'.conns j;
      ending = without eq_ℕ w'.ending j;
    } in
    rw (finish_client w' j g i s' waits' e5)
      (refl, gone, c', at_k, free.live, refl, close_homeless w'' k c' g i at_k free.live refl gone)
