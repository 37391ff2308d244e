-- ===== src/Server/State.antt =====
-- The clients of suplalite/server/state.py.
--
-- A method takes the state and returns its result and the state after it: a method that raises keeps
-- what it has assigned before.
use suplalite.Common.{ℕ, ◌+◌, true, false, Option, none, some}
use suplalite.Python.Result.{Result, ok, err, key_error, ◌>>=◌}
use suplalite.Python.Bytes.{Bytes}
use suplalite.Python.Dict.{lookup, put, without, or_key_error}
use suplalite.Server.Types.{ClientState, ServerState, Connection, EventQueue, Method, eq_ℕ, eq_guid}

-- `ClientState(client_id, guid)`
abbrev pub new_client : ℕ → Bytes → ClientState
new_client i guid' = record {
  id = i;
  guid = guid';
  online = false;
  authorized = false;
  sent_channels = false;
  next_channel_batch = 0;
  sent_channel_relations = false;
  sent_scenes = false;
  next_scene_batch = 0;
}

-- `add_client`
unfoldable pub add_client : ServerState → Bytes → ℕ × ServerState
add_client s guid' = elim (lookup eq_guid s.client_guid_to_id guid') [
  | some i ↦ (i, s)
  | none ↦ (
    s.next_client_id,
    record s {
      next_client_id = s.next_client_id + 1;
      clients = put eq_ℕ s.clients s.next_client_id (new_client s.next_client_id guid');
      client_guid_to_id = put eq_guid s.client_guid_to_id guid' s.next_client_id;
    },
  )
]

-- `self._clients[client_id]` changed in place
abbrev pub change_client : ServerState → ℕ → (ClientState → ClientState) → Method (Unit {0})
change_client s i f = elim (lookup eq_ℕ s.clients i) [
  | none ↦ (err key_error, s)
  | some c ↦ (ok tt, record s { clients = put eq_ℕ s.clients i (f c) })
]

-- The assignments of `_reset_client_session`
abbrev pub reset_session : ClientState → ClientState
reset_session c = record c {
  authorized = false;
  sent_channels = false;
  next_channel_batch = 0;
  sent_channel_relations = false;
  sent_scenes = false;
  next_scene_batch = 0;
}

-- `client_connected`: the connection that was there before
unfoldable pub client_connected :
    ServerState → ℕ → EventQueue → Connection → Method (Option Connection)
client_connected s i events conn =
    let s' = record s {
      client_connections = put eq_ℕ s.client_connections i conn;
      client_events = put eq_ℕ s.client_events i events;
    } in
    let (r, s'') = change_client s' i (λ c. reset_session (record c { online = true })) in
    (r >>= λ _. ok (lookup eq_ℕ s.client_connections i), s'')

-- `del self._client_connections[client_id]`, and so on: the first that is missing raises.
unfoldable pub client_disconnected : ServerState → ℕ → Method (Unit {0})
client_disconnected s i = elim (lookup eq_ℕ s.client_connections i) [
  | none ↦ (err key_error, s)
  | some conn ↦
      let s' = record s { client_connections = without eq_ℕ s.client_connections i } in
      elim (lookup eq_ℕ s.client_events i) [
        | none ↦ (err key_error, s')
        | some events ↦
            change_client (record s' { client_events = without eq_ℕ s.client_events i }) i
              (λ c. reset_session (record c { online = false }))
      ]
]

unfoldable pub set_client_authorized : ServerState → ℕ → Method (Unit {0})
set_client_authorized s i = change_client s i (λ c. record c { authorized = true })

unfoldable pub set_client_sent_channels : ServerState → ℕ → Method (Unit {0})
set_client_sent_channels s i = change_client s i (λ c. record c { sent_channels = true })

unfoldable pub set_client_next_channel_batch : ServerState → ℕ → Method (Unit {0})
set_client_next_channel_batch s i =
    change_client s i (λ c. record c { next_channel_batch = c.next_channel_batch + 1 })

unfoldable pub set_client_sent_channel_relations : ServerState → ℕ → Method (Unit {0})
set_client_sent_channel_relations s i =
    change_client s i (λ c. record c { sent_channel_relations = true })

unfoldable pub set_client_sent_scenes : ServerState → ℕ → Method (Unit {0})
set_client_sent_scenes s i = change_client s i (λ c. record c { sent_scenes = true })

unfoldable pub set_client_next_scene_batch : ServerState → ℕ → Method (Unit {0})
set_client_next_scene_batch s i =
    change_client s i (λ c. record c { next_scene_batch = c.next_scene_batch + 1 })

-- A copy is the value itself.
unfoldable pub get_client : ServerState → ℕ → Result ClientState
get_client s i = or_key_error (lookup eq_ℕ s.clients i)

unfoldable pub get_client_events : ServerState → ℕ → Result EventQueue
get_client_events s i = or_key_error (lookup eq_ℕ s.client_events i)
