-- ===== src/Server/Connections.antt =====
-- The life of a connection, of `Connection` in suplalite/server/__init__.py: it opens, handles calls,
-- and ends. The tasks that run it are asyncio's: what they do is a sequence of these steps.
use suplalite.Common.{ℕ, false, Option, none, some, if◌then◌else◌, ltb}
use suplalite.Python.Result.{Result, ok}
use suplalite.Python.Text.{Str}
use suplalite.Python.Dict.{lookup, put, without}
use suplalite.Proto.Constants.{activity_timeout_min, activity_timeout_max, proto_version}
use suplalite.Server.Types.{eq_ℕ}
use suplalite.Server.State.{client_disconnected}
use suplalite.Server.Devices.{device_disconnected}
use suplalite.Server.World.{
  World, Action, Event, Role, anonymous, client, device, Context, Conn, new_context, return, ◌>>◌,
  on_state, add_event, change_context,
}

-- `Connection.__init__` and the `PacketStream` of `__call__`; the name is the peer's.
abbrev pub new_conn : Str → Conn
new_conn peer = record {
  context = new_context peer anonymous;
  superseded = false;
  proto_version = proto_version;
}

unfoldable pub open_connection : ℕ → Str → World → World
open_connection k peer w = record w { conns = put eq_ℕ w.conns k (new_conn peer) }

-- `if self._context.should_replace: self._context = self._context.replacement`
abbrev pub replaced_by : Context → Option (Str × Role) → Context
replaced_by c none = c
replaced_by c (some (name', role')) = new_context name' role'

abbrev pub replaced : Context → Context
replaced c = replaced_by c c.replacement

unfoldable pub take_replacement : ℕ → World → World
take_replacement k w = (change_context k replaced w).1

-- A handler and the replacement behind it, when nothing else comes in between: the lock is released in
-- between, and the answer is sent. The replacement follows whether or not the handler has raised.
unfoldable pub handle : {A : Type 0} → ℕ → Action A → World → Result A × World
unfolding take_replacement
handle k handler w = let (r, w') = handler w in (r, take_replacement k w')

-- The clean-up of `__call__`
abbrev pub disconnect_role : Role → Action (Unit {0})
disconnect_role anonymous = return tt
disconnect_role (client g i) = do
  on_state (λ s. client_disconnected s i)
  add_event (Event.client_disconnected i)
disconnect_role (device g i) = do
  on_state (λ s. device_disconnected s i)
  add_event (Event.device_disconnected i)

-- A connection whose tasks have ended: `if not self._superseded`, and the class of the context, are
-- tested without the lock. Nothing more is done, or the teardown waits for the lock.
unfoldable pub begin_end : ℕ → World → World
begin_end k w = elim (lookup eq_ℕ w.conns k) [
  | none ↦ w
  | some c ↦ leave (if c.superseded then anonymous else c.context.role)
]
  where
    leave : Role → World
    leave anonymous = record w { conns = without eq_ℕ w.conns k }
    leave (client g i) = record w { ending = put eq_ℕ w.ending k (client g i) }
    leave (device g i) = record w { ending = put eq_ℕ w.ending k (device g i) }

-- What the teardown does under the lock; the connection is gone then, also if it raises.
unfoldable pub finish_end : ℕ → World → Result (Unit {0}) × World
finish_end k w = elim (lookup eq_ℕ w.ending k) [
  | none ↦ (ok tt, w)
  | some role ↦
      let (r, w') = disconnect_role role w in
      (r, record w' { conns = without eq_ℕ w'.conns k; ending = without eq_ℕ w'.ending k })
]

-- A teardown that does not wait
unfoldable pub close_connection : ℕ → World → Result (Unit {0}) × World
unfolding begin_end finish_end
close_connection k w = finish_end k (begin_end k w)

-- `set_activity_timeout`, on the number of the message
unfoldable pub clamp_timeout : ℕ → ℕ
clamp_timeout n =
    let n' = (if ltb n activity_timeout_min then activity_timeout_min else n) in
    if ltb activity_timeout_max n' then activity_timeout_max else n'

unfoldable pub set_activity_timeout : ℕ → ℕ → Action (ℕ × ℕ × ℕ)
unfolding clamp_timeout
set_activity_timeout k n = do
  change_context k (λ c. record c { activity_timeout = clamp_timeout n })
  return (clamp_timeout n, activity_timeout_min, activity_timeout_max)
