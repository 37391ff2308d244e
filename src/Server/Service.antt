-- ===== src/Server/Service.antt =====
-- The server from its start on: connections open, register, change their timeouts and end, in any
-- order. A handler runs under the lock of the state, and so does the end of a teardown; the replacement
-- of a context and the test that begins a teardown do not, and come at any time after.
use suplalite.Common.{ℕ, ◌≡◌, refl, sym, ap, ◌∙◌, Option, none, some, []}
use suplalite.Python.Result.{ok}
use suplalite.Python.Bytes.{Bytes}
use suplalite.Python.Text.{Str}
use suplalite.Python.Dict.{Dict, lookup, lookup-without}
use suplalite.Server.Types.{ServerState, eq_ℕ}
use suplalite.Server.World.{World, Conn, Role, role_after}
use suplalite.Server.Registration.{RegisterDevice, register_device}
use suplalite.Server.ClientRegistration.{register_client}
use suplalite.Server.Connections.{
  open_connection, take_replacement, begin_end, finish_end, set_activity_timeout, new_conn,
  replaced, clamp_timeout,
}
use suplalite.Server.Clients.{eq_ℕ-IsEquality, none≢some}
use suplalite.Server.Owned.{IsOwned}
use suplalite.Server.Slots.{IsFree}
use suplalite.Server.Closing.{finish_end-IsOwned, slot_of}
use suplalite.Server.Keeping.{take_replacement-IsOwned, take_replacement-there}
use suplalite.Server.Lifecycle.{
  open_connection-IsOwned, set_activity_timeout-IsOwned, set_activity_timeout-there,
  register_client-IsOwned, register_device-IsOwned,
}
use suplalite.Server.Waiting.{AllLeave, put-AllLeave, without-AllLeave}
use suplalite.Server.Leaving.{begin_end-Kept, register_client-AllLeave, register_device-AllLeave}
use suplalite.Server.Idle.{SetUp, SetUp-IsOwned}

abbrev pub started_world : ServerState → World
started_world s = record { state = s; events = []; queues = []; conns = []; ending = []; sent = [] }

-- A connection that is there, and whose call loop runs
pub record IsActive (w : World) (k : ℕ) (c : Conn) : Type 0 where
  pub there : lookup eq_ℕ w.conns k ≡ some c
  pub active : lookup eq_ℕ w.ending k ≡ none

-- A connection registers once. Its tasks end when its context has been replaced, if it is to be.
pub data Step (w : World) : World → Type 0 where
  opens : (k : ℕ) (peer : Str) → lookup eq_ℕ w.conns k ≡ none → Step w (open_connection k peer w)
  sets_timeout : (k : ℕ) (c : Conn) (n : ℕ) → IsActive w k c → Step w (set_activity_timeout k n w).1
  registers_client :
      (k : ℕ) (c : Conn) (guid : Bytes) (name : Str)
      → IsActive w k c
      → IsFree w.conns k c
      → Step w (register_client k guid name w).1
  registers_device :
      (k : ℕ) (c : Conn) (msg : RegisterDevice)
      → IsActive w k c
      → IsFree w.conns k c
      → Step w (register_device k msg w).1
  replaces : (k : ℕ) (c : Conn) → IsActive w k c → Step w (take_replacement k w)
  begins_end :
      (k : ℕ) (c : Conn) → IsActive w k c → c.context.replacement ≡ none → Step w (begin_end k w)
  finishes_end : (k : ℕ) (r : Role) → lookup eq_ℕ w.ending k ≡ some r → Step w (finish_end k w).1

pub data Reached : World → Type 0 where
  starts : (s : ServerState) → SetUp s → Reached (started_world s)
  goes_on : {w w' : World} → Reached w → Step w w' → Reached w'

abbrev pub Kept : World → Type 0
Kept w = IsOwned w.state w.conns × AllLeave w.conns w.ending

Step-Kept : (w w' : World) → Step w w' → Kept w → Kept w'
unfolding open_connection
Step-Kept w _ (opens k peer fresh) (owned, leave) = (
  open_connection-IsOwned w k peer owned fresh,
  put-AllLeave w.conns w.ending leave k (new_conn peer) (unknown (lookup eq_ℕ w.ending k) refl),
)
  where
    unknown : (o : Option Role) → lookup eq_ℕ w.ending k ≡ o → o ≡ none
    unknown none e = refl
    unknown (some r) e = absurd (none≢some (sym fresh ∙ (leave k r e).there))
Step-Kept w _ (sets_timeout k c n here) (owned, leave) =
    let c' = record c { context = record c.context { activity_timeout = clamp_timeout n } } in
    (
      set_activity_timeout-IsOwned w k c n owned here.there,
      rw (set_activity_timeout-there w k c n here.there)
          (put-AllLeave w.conns w.ending leave k c' here.active),
    )
Step-Kept w _ (registers_client k c guid name here free) (owned, leave) = (
  register_client-IsOwned w k c guid name owned free,
  register_client-AllLeave w k c guid name owned free here.active leave,
)
Step-Kept w _ (registers_device k c msg here free) (owned, leave) = (
  register_device-IsOwned w k c msg owned free,
  register_device-AllLeave w k c msg owned free here.active leave,
)
Step-Kept w _ (replaces k c here) (owned, leave) = (
  take_replacement-IsOwned k w c owned here.there,
  rw (take_replacement-there k w c here.there) (
      put-AllLeave w.conns w.ending leave k (record c { context = replaced c.context })
        here.active),
)
Step-Kept w _ (begins_end k c here unreplaced) (owned, leave) =
    begin_end-Kept w k c here.there here.active unreplaced owned leave
Step-Kept w _ (finishes_end k r waits) (owned, leave) =
    let l = leave k r waits in
    let role = ap (λ o. role_after o l.conn.context.role) l.unreplaced ∙ l.class in
    let ((owned', e1, e2), _) = finish_end-IsOwned w k l.conn r owned l.there waits role in
    (owned', rw (e1, e2) (without-AllLeave w.conns w.ending leave k))

pub Reached-Kept : (w : World) → Reached w → Kept w
unfolding lookup
Reached-Kept _ (starts s set_up) = (SetUp-IsOwned s set_up, λ k r e. absurd (none≢some e))
Reached-Kept _ (goes_on r step) = Step-Kept _ _ step (Reached-Kept _ r)

-- In every world reached from a state that was set up with nobody connected, by connections that open,
-- set their timeouts, register once as a client or a device, have their contexts replaced, and end,
-- with teardowns that wait for the lock while others go on, the tables of clients and of devices are
-- consistent, and a connection that they name is there, has not been superseded, and has that role, or
-- has it once its context has been replaced.
pub Reached-IsOwned : (w : World) → Reached w → IsOwned w.state w.conns
Reached-IsOwned w reached = (Reached-Kept w reached).0

-- In every such world a teardown that waits ends, whatever has come before it: the connection is gone
-- then, and waits no more. It raises no error if the client or the device still has a connection.
pub finish_end-Reached :
    (w : World) (k : ℕ) (r : Role)
    → Reached w
    → lookup eq_ℕ w.ending k ≡ some r
    → let (result, w') = finish_end k w in
      (lookup eq_ℕ w'.conns k ≡ none)
      × (lookup eq_ℕ w'.ending k ≡ none)
      × ((j : ℕ) → slot_of w.state r ≡ some j → result ≡ ok tt)
finish_end-Reached w k r reached waits =
    let (owned, leave) = Reached-Kept w reached in
    let l = leave k r waits in
    let role = ap (λ o. role_after o l.conn.context.role) l.unreplaced ∙ l.class in
    let ((_, e1, e2), fine) = finish_end-IsOwned w k l.conn r owned l.there waits role in
    (
      ap (λ (d : Dict ℕ Conn). lookup eq_ℕ d k) e1 ∙ lookup-without eq_ℕ eq_ℕ-IsEquality w.conns k,
      ap (λ (d : Dict ℕ Role). lookup eq_ℕ d k) e2 ∙ lookup-without eq_ℕ eq_ℕ-IsEquality w.ending k,
      fine,
    )
