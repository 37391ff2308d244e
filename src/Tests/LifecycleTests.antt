-- ===== src/Tests/LifecycleTests.antt =====
-- Two connections of one client.
use suplalite.Common.{ℕ, ◌≡◌, refl, true, false, some, none, [], ◌∷◌}
use suplalite.Python.Result.{Result, ok, err, key_error}
use suplalite.Python.Bytes.{Bytes}
use suplalite.Python.Text.{Str}
use suplalite.Python.Dict.{lookup, put}
use suplalite.Proto.Constants.{activity_timeout_default}
use suplalite.Server.Types.{ClientState, empty_state, eq_ℕ}
use suplalite.Server.State.{add_client, client_connected}
use suplalite.Server.World.{World, Conn, client}
use suplalite.Server.ClientRegistration.{RegisterClientResult, register_client}
use suplalite.Server.Connections.{
  new_conn, open_connection, handle, close_connection, take_replacement, begin_end, finish_end,
}
use suplalite.Server.Owned.{IsOwned}
use suplalite.Server.Slots.{IsFree}
use suplalite.Server.Idle.{empty}
use suplalite.Server.Service.{
  started_world, IsActive, opens, registers_client, replaces, begins_end, Reached, starts, goes_on,
  Reached-IsOwned, finish_end-Reached,
}
use suplalite.Server.Takeover.{
  close_connection-register_client, register_client-register_client, register_client-timeout,
}
use suplalite.Server.Race.{register_client-finish_end}
use suplalite.Server.Closing.{slot_of}

abbrev phone : Bytes
phone = 1 ∷ 2 ∷ 3 ∷ []

abbrev peer : Str
peer = 9 ∷ []

abbrev start_world : World
start_world = started_world empty_state

abbrev one_open : World
one_open = open_connection 1 peer start_world

one_open-conn : lookup eq_ℕ one_open.conns 1 ≡ some (new_conn peer)
unfolding open_connection lookup put
one_open-conn = refl

one_open-IsFree : IsFree one_open.conns 1 (new_conn peer)
one_open-IsFree = record {
  there = one_open-conn;
  live = refl;
  unregistered = refl;
  unreplaced = refl;
}

nobody-there : lookup eq_ℕ start_world.conns 1 ≡ none
unfolding lookup
nobody-there = refl

one_open-Reached : Reached one_open
one_open-Reached = goes_on (starts empty_state empty) (opens 1 peer nobody-there)

one_open-IsActive : IsActive one_open 1 (new_conn peer)
unfolding open_connection lookup put
one_open-IsActive = record { there = refl; active = refl }

-- The connection has registered, and its context waits to be replaced.
abbrev one_answered : World
one_answered = (register_client 1 phone peer one_open).1

abbrev answered_conn : Conn
answered_conn = record (new_conn peer) {
  context = record (new_conn peer).context { replacement = some (peer, client phone 1) };
}

one_answered-IsActive : IsActive one_answered 1 answered_conn
unfolding open_connection lookup put register_client add_client client_connected
one_answered-IsActive = record { there = refl; active = refl }

one_answered-Reached : Reached one_answered
one_answered-Reached =
    goes_on one_open-Reached
      (registers_client 1 (new_conn peer) phone peer one_open-IsActive one_open-IsFree)

abbrev one_client : World
one_client = take_replacement 1 one_answered

one_client-Reached : Reached one_client
one_client-Reached = goes_on one_answered-Reached (replaces 1 answered_conn one_answered-IsActive)

second-none : lookup eq_ℕ one_client.conns 2 ≡ none
unfolding open_connection lookup put handle register_client add_client client_connected
    take_replacement
second-none = refl

abbrev two_open : World
two_open = open_connection 2 peer one_client

two_open-Reached : Reached two_open
two_open-Reached = goes_on one_client-Reached (opens 2 peer second-none)

two_open-conn : lookup eq_ℕ two_open.conns 2 ≡ some (new_conn peer)
unfolding open_connection lookup put handle register_client add_client client_connected
    take_replacement
two_open-conn = refl

two_open-IsFree : IsFree two_open.conns 2 (new_conn peer)
two_open-IsFree = record {
  there = two_open-conn;
  live = refl;
  unregistered = refl;
  unreplaced = refl;
}

abbrev phone_id : ℕ
phone_id = (add_client two_open.state phone).0

slot-taken : lookup eq_ℕ two_open.state.client_connections phone_id ≡ some 1
unfolding open_connection lookup put handle register_client add_client client_connected
    take_replacement
slot-taken = refl

-- No teardown waits.
two_open-active : lookup eq_ℕ two_open.ending 1 ≡ none
unfolding open_connection lookup put handle register_client add_client client_connected
    take_replacement
two_open-active = refl

Reached-IsOwned_example : IsOwned two_open.state two_open.conns
Reached-IsOwned_example = Reached-IsOwned two_open two_open-Reached

abbrev taken_over : World
taken_over = (handle 2 (register_client 2 phone peer) two_open).1

abbrev first_ended : Result (Unit {0}) × World
first_ended = close_connection 1 taken_over

close_connection-register_client_example :
    (first_ended.0 ≡ ok tt)
    × (first_ended.1.state ≡ taken_over.state)
    × (lookup eq_ℕ first_ended.1.state.client_connections phone_id ≡ some 2)
    × (d : ClientState) × (lookup eq_ℕ first_ended.1.state.clients phone_id ≡ some d)
    × (d.online ≡ true)
close_connection-register_client_example =
    close_connection-register_client two_open 2 1 (new_conn peer) phone peer two_open-Reached
      two_open-IsFree slot-taken two_open-active

abbrev first_conn : Conn
first_conn = record (new_conn peer) {
  context = record (new_conn peer).context { role = client phone 1 };
}

first_conn-there : lookup eq_ℕ two_open.conns 1 ≡ some first_conn
unfolding open_connection lookup put handle register_client add_client client_connected
    take_replacement
first_conn-there = refl

-- The tasks of the first connection have ended, and its teardown waits.
abbrev first_leaves : World
first_leaves = begin_end 1 two_open

first_leaves-Reached : Reached first_leaves
first_leaves-Reached =
    goes_on two_open-Reached
      (begins_end 1 first_conn (record { there = first_conn-there; active = two_open-active }) refl)

first-waits : lookup eq_ℕ first_leaves.ending 1 ≡ some (client phone 1)
unfolding open_connection lookup put handle register_client add_client client_connected
    take_replacement begin_end
first-waits = refl

finish_end-Reached_example :
    (lookup eq_ℕ (finish_end 1 first_leaves).1.conns 1 ≡ none)
    × (lookup eq_ℕ (finish_end 1 first_leaves).1.ending 1 ≡ none)
    × ((j : ℕ)
        → slot_of first_leaves.state (client phone 1) ≡ some j
        → (finish_end 1 first_leaves).0 ≡ ok tt)
finish_end-Reached_example =
    finish_end-Reached first_leaves 1 (client phone 1) first_leaves-Reached first-waits

first_leaves-conn : lookup eq_ℕ first_leaves.conns 2 ≡ some (new_conn peer)
unfolding open_connection lookup put handle register_client add_client client_connected
    take_replacement begin_end
first_leaves-conn = refl

first_leaves-active : lookup eq_ℕ first_leaves.ending 2 ≡ none
unfolding open_connection lookup put handle register_client add_client client_connected
    take_replacement begin_end
first_leaves-active = refl

first_leaves-slot : lookup eq_ℕ first_leaves.state.client_connections 1 ≡ some 1
unfolding open_connection lookup put handle register_client add_client client_connected
    take_replacement begin_end
first_leaves-slot = refl

phone-id : (add_client first_leaves.state phone).0 ≡ 1
unfolding open_connection lookup put handle register_client add_client client_connected
    take_replacement begin_end
phone-id = refl

first_leaves-IsFree : IsFree first_leaves.conns 2 (new_conn peer)
first_leaves-IsFree = record {
  there = first_leaves-conn;
  live = refl;
  unregistered = refl;
  unreplaced = refl;
}

abbrev late_id : ℕ
late_id = (add_client first_leaves.state phone).0

abbrev raced : Result (Unit {0}) × World
raced = finish_end 1 (handle 2 (register_client 2 phone peer) first_leaves).1

register_client-finish_end_example :
    (raced.0 ≡ ok tt)
    × (lookup eq_ℕ raced.1.state.client_connections late_id ≡ none)
    × (c' : Conn) × (lookup eq_ℕ raced.1.conns 2 ≡ some c')
    × (c'.superseded ≡ false)
    × (c'.context.role ≡ client phone late_id)
    × ((close_connection 2 raced.1).0 ≡ err key_error)
register_client-finish_end_example =
    register_client-finish_end first_leaves 2 1 (new_conn peer) phone peer first_leaves-Reached
      first_leaves-IsFree first_leaves-active (rw phone-id first_leaves-slot)
      (rw phone-id first-waits)

abbrev twice : World
twice = (handle 1 (register_client 1 phone peer) two_open).1

abbrev twice_ended : Result (Unit {0}) × World
twice_ended = close_connection 1 twice

register_client-register_client_example :
    (twice_ended.0 ≡ ok tt)
    × (lookup eq_ℕ twice_ended.1.conns 1 ≡ none)
    × (lookup eq_ℕ twice_ended.1.state.client_connections phone_id ≡ some 1)
    × (d : ClientState) × (lookup eq_ℕ twice_ended.1.state.clients phone_id ≡ some d)
    × (d.online ≡ true)
register_client-register_client_example =
    register_client-register_client two_open 1 first_conn phone peer two_open-Reached
      first_conn-there two_open-active slot-taken

register_client-timeout_example :
    (result : RegisterClientResult) × ((handle 2 (register_client 2 phone peer) two_open).0
      ≡ ok result)
    × (result.activity_timeout ≡ activity_timeout_default)
    × (c' : Conn) × (lookup eq_ℕ taken_over.conns 2 ≡ some c')
    × (c'.context.activity_timeout ≡ activity_timeout_default)
register_client-timeout_example =
    register_client-timeout two_open 2 (new_conn peer) phone peer two_open-Reached two_open-IsFree
