-- ===== src/Server/Takeover.antt =====
-- A client that registers while another connection of its guid is there, or while its own is.
use suplalite.Common.{ℕ, ◌≡◌, ◌≢◌, refl, sym, ap, ◌∙◌, true, none, some}
use suplalite.Python.Result.{ok}
use suplalite.Python.Bytes.{Bytes}
use suplalite.Python.Text.{Str}
use suplalite.Python.Dict.{Dict, lookup, without, put, lookup-put, lookup-put_other, lookup-without}
use suplalite.Server.Types.{ClientState, eq_ℕ}
use suplalite.Server.State.{add_client, client_connected}
use suplalite.Server.World.{World, client, Role, Conn, superseded_conns}
use suplalite.Server.ClientRegistration.{RegisterClientResult, register_client}
use suplalite.Proto.Constants.{activity_timeout_default}
use suplalite.Server.Connections.{handle, close_connection, begin_end, finish_end}
use suplalite.Server.Clients.{eq_ℕ-IsEquality}
use suplalite.Server.Ownership.{superseded_old}
use suplalite.Server.Handling.{registered, renamed, register_client-effect, lookup-put-put}
use suplalite.Server.Connecting.{client_takes-old, client_takes-connected, client_takes-online}
use suplalite.Server.Slots.{IsFree, client_slot-free}
use suplalite.Server.Keeping.{take_replacement-there}
use suplalite.Server.Service.{Reached, Reached-IsOwned}

-- A superseded connection ends, and the state stays.
close_superseded :
    (w : World) (k : ℕ) (c : Conn)
    → lookup eq_ℕ w.conns k ≡ some c
    → lookup eq_ℕ w.ending k ≡ none
    → c.superseded ≡ true
    → close_connection k w ≡ (ok tt, record w { conns = without eq_ℕ w.conns k })
unfolding close_connection begin_end finish_end
close_superseded w k c there active dead =
    let begun : begin_end k w ≡ record w { conns = without eq_ℕ w.conns k } =
      rw (there, dead, begin_end) refl in
    ap (finish_end k) begun ∙ rw (active, finish_end) refl

-- The connections and the state behind a client's registration, as far as they can be looked up
pub handled_client :
    (w : World) (k : ℕ) (c : Conn) (g : Bytes) (name' : Str)
    → let i = (add_client w.state g).0 in
      let old = lookup eq_ℕ w.state.client_connections i in
      let w' = (handle k (register_client k g name') w).1 in
      client_connected (add_client w.state g).1 i k k
        ≡ (ok old, (client_connected (add_client w.state g).1 i k k).1)
      → lookup eq_ℕ (superseded_old w.conns old) k ≡ some c
      → (w'.state ≡ (client_connected (add_client w.state g).1 i k k).1)
        × ((j : ℕ)
            → lookup eq_ℕ w'.conns j
              ≡ lookup eq_ℕ
                  (put eq_ℕ (superseded_old w.conns old) k (registered c name' (client g i)))
                  j)
        × (w'.ending ≡ w.ending)
unfolding handle
handled_client w k c g name' connected there =
    let i = (add_client w.state g).0 in
    let old = lookup eq_ℕ w.state.client_connections i in
    let s = (client_connected (add_client w.state g).1 i k k).1 in
    let (e1, e2, _, e4) = register_client-effect k g name' w old s c connected there in
    let c1 = renamed c name' (client g i) in
    let w1 = (register_client k g name' w).1 in
    let conns = superseded_old w.conns old in
    let there1 : lookup eq_ℕ w1.conns k ≡ some c1 =
      ap (λ (d : Dict ℕ Conn). lookup eq_ℕ d k) e2 ∙ lookup-put eq_ℕ eq_ℕ-IsEquality conns k c1 in
    let e3 = take_replacement-there k w1 c1 there1 in
    (
      ap (λ (x : World). x.state) e3 ∙ e1,
      λ j.
          ap (λ (x : World). lookup eq_ℕ x.conns j) e3
          ∙ ap (λ (d : Dict ℕ Conn). lookup eq_ℕ (put eq_ℕ d k (registered c name' (client g i))) j)
              e2
          ∙ lookup-put-put conns k c1 (registered c name' (client g i)) j,
      ap (λ (x : World). x.ending) e3 ∙ e4,
    )

-- In a reached world, a free connection registers with the guid of a client whose slot another one has,
-- the teardown of which has not begun: that one's end, with nothing in between, does not raise and
-- changes nothing of the state, in which the client is online and has the new connection.
pub close_connection-register_client :
    (w : World) (k j : ℕ) (c : Conn) (g : Bytes) (name' : Str)
    → Reached w
    → IsFree w.conns k c
    → let i = (add_client w.state g).0 in
      lookup eq_ℕ w.state.client_connections i ≡ some j
      → lookup eq_ℕ w.ending j ≡ none
      → let w' = (handle k (register_client k g name') w).1 in
        let (r, w'') = close_connection j w' in
        (r ≡ ok tt)
        × (w''.state ≡ w'.state)
        × (lookup eq_ℕ w''.state.client_connections i ≡ some k)
        × (d : ClientState) × (lookup eq_ℕ w''.state.clients i ≡ some d)
        × (d.online ≡ true)
close_connection-register_client w k j c g name' reached free e active =
    let i = (add_client w.state g).0 in
    let owned = Reached-IsOwned w reached in
    let (connected, there) = client_takes-old w.state w.conns owned k c free g in
    let (e1, e2, e5) = handled_client w k c g name' connected there in
    let (d, e3, live, _) = owned.client_slots.held i j e in
    let gone : Conn = record d { superseded = true } in
    let w' = (handle k (register_client k g name') w).1 in
    let apart : k ≢ j =
      λ same. client_slot-free w.state w.conns owned k c free i (e ∙ ap some (sym same)) in
    let by_old : lookup eq_ℕ (superseded_old w.conns (lookup eq_ℕ w.state.client_connections i)) j
        ≡ some gone =
      rw (e, e3, superseded_conns) (lookup-put eq_ℕ eq_ℕ-IsEquality w.conns j gone) in
    let there' : lookup eq_ℕ w'.conns j ≡ some gone =
      e2 j
      ∙ lookup-put_other eq_ℕ eq_ℕ-IsEquality
          (superseded_old w.conns (lookup eq_ℕ w.state.client_connections i)) k
          (registered c name' (client g i)) j apart
      ∙ by_old in
    let (now, d', at_i, online) = client_takes-online w.state owned.clients k g in
    rw
      (
        close_superseded w' j gone there' (ap (λ (d : Dict ℕ Role). lookup eq_ℕ d j) e5 ∙ active)
            refl,
        e1,
      )
      (refl, refl, now, d', at_i, online)

-- In a reached world, the connection of a client, still at work, registers again with the same guid: it supersedes
-- itself, so that when it ends the client stays online, with a connection that is no longer there.
pub register_client-register_client :
    (w : World) (k : ℕ) (c : Conn) (g : Bytes) (name' : Str)
    → Reached w
    → lookup eq_ℕ w.conns k ≡ some c
    → lookup eq_ℕ w.ending k ≡ none
    → let i = (add_client w.state g).0 in
      lookup eq_ℕ w.state.client_connections i ≡ some k
      → let w' = (handle k (register_client k g name') w).1 in
        let (r, w'') = close_connection k w' in
        (r ≡ ok tt)
        × (lookup eq_ℕ w''.conns k ≡ none)
        × (lookup eq_ℕ w''.state.client_connections i ≡ some k)
        × (d : ClientState) × (lookup eq_ℕ w''.state.clients i ≡ some d)
        × (d.online ≡ true)
register_client-register_client w k c g name' reached there active e =
    let i = (add_client w.state g).0 in
    let old = lookup eq_ℕ w.state.client_connections i in
    let owned = Reached-IsOwned w reached in
    let gone : Conn = record c { superseded = true } in
    let by_old : lookup eq_ℕ (superseded_old w.conns old) k ≡ some gone =
      rw (e, there, superseded_conns) (lookup-put eq_ℕ eq_ℕ-IsEquality w.conns k gone) in
    let connected = client_takes-connected w.state owned.clients k g in
    let (e1, e2, e5) = handled_client w k gone g name' connected by_old in
    let w' = (handle k (register_client k g name') w).1 in
    let again = registered gone name' (client g i) in
    let there' : lookup eq_ℕ w'.conns k ≡ some again =
      e2 k ∙ lookup-put eq_ℕ eq_ℕ-IsEquality (superseded_old w.conns old) k again in
    let (now, d', at_i, online) = client_takes-online w.state owned.clients k g in
    rw
      (
        close_superseded w' k again there' (ap (λ (d : Dict ℕ Role). lookup eq_ℕ d k) e5 ∙ active)
            refl,
        e1,
      )
      (refl, lookup-without eq_ℕ eq_ℕ-IsEquality w'.conns k, now, d', at_i, online)

-- In a reached world, a free connection registers as a client: the result has the timeout of the
-- connection's context, and the context that takes its place has the default.
pub register_client-timeout :
    (w : World) (k : ℕ) (c : Conn) (g : Bytes) (name' : Str)
    → Reached w
    → IsFree w.conns k c
    → let (r, w') = handle k (register_client k g name') w in
      (result : RegisterClientResult) × (r ≡ ok result)
      × (result.activity_timeout ≡ c.context.activity_timeout)
      × (c' : Conn) × (lookup eq_ℕ w'.conns k ≡ some c')
      × (c'.context.activity_timeout ≡ activity_timeout_default)
unfolding handle
register_client-timeout w k c g name' reached free =
    let i = (add_client w.state g).0 in
    let old = lookup eq_ℕ w.state.client_connections i in
    let owned = Reached-IsOwned w reached in
    let (connected, there) = client_takes-old w.state w.conns owned k c free g in
    let s = (client_connected (add_client w.state g).1 i k k).1 in
    let (_, _, returns, _) = register_client-effect k g name' w old s c connected there in
    let (_, conns, _) = handled_client w k c g name' connected there in
    let c' = registered c name' (client g i) in
    (
      _,
      returns,
      refl,
      c',
      conns k ∙ lookup-put eq_ℕ eq_ℕ-IsEquality (superseded_old w.conns old) k c',
      refl,
    )
