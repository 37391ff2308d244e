-- ===== src/Server/ClientRegistration.antt =====
-- The registration of clients, of suplalite/server/handlers.py.
use suplalite.Common.{ℕ, some, length}
use suplalite.Python.Result.{ok}
use suplalite.Python.Bytes.{Bytes}
use suplalite.Python.Text.{Str}
use suplalite.Proto.Constants.{proto_version, proto_version_min}
use suplalite.Server.State.{add_client, client_connected}
use suplalite.Server.World.{
  Action, Event, Role, return, ◌>>=◌, ◌>>◌, on_state, read, add_event, add_to_queue, conn_of,
  change_context, supersede_old,
}

-- `TSC_RegisterClientResult_D`, but for the time
pub record RegisterClientResult : Type 0 where
  pub client_id : ℕ
  pub location_count : ℕ
  pub channel_count : ℕ
  pub channel_group_count : ℕ
  pub scene_count : ℕ
  pub activity_timeout : ℕ
  pub version : ℕ
  pub version_min : ℕ

-- The name that contexts have is the one of the log, without its prefix.
unfoldable pub register_client : ℕ → (guid : Bytes) (name : Str) → Action RegisterClientResult
register_client k guid' name' = do
  i ← on_state (λ s. let (i, s') = add_client s guid' in (ok i, s'))
  old_conn ← on_state (λ s. client_connected s i k k)
  supersede_old old_conn
  change_context k (λ c. record c { name = name'; replacement = some (name', Role.client guid' i) })
  add_event (Event.client_connected i)
  add_to_queue k Event.send_locations
  channels ← read (λ s. ok (length s.channels))
  scenes ← read (λ s. ok (length s.scenes))
  c ← conn_of k
  return (record {
    client_id = i;
    location_count = 1;
    channel_count = channels;
    channel_group_count = 0;
    scene_count = scenes;
    activity_timeout = c.context.activity_timeout;
    version = proto_version;
    version_min = proto_version_min;
  })
