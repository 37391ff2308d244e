-- ===== src/Server/Acting.antt =====
-- Actions on channels and scenes, and values that clients set, of suplalite/server/handlers.py.
use suplalite.Common.{ℕ, Bool, true, false, not, Option, some, List, [], ◌∷◌, ◌==◌, if◌then◌else◌}
use suplalite.Common.Int.{ℤ, pos, negsuc}
use suplalite.Python.Result.{Result, ok, err, key_error, runtime_error}
use suplalite.Python.Bytes.{Bytes}
use suplalite.Server.Types.{ChannelState, SceneChannelState}
use suplalite.Server.Icons.{get_scene}
use suplalite.Server.Devices.{get_channel, get_channel_by_name}
use suplalite.Server.LastValue.{set_channel_value}
use suplalite.Server.World.{
  World, Action, channel_set_value, raise, after, ◌>>=◌, ◌>>◌, on_state, of_result, read, add_event,
}
use suplalite.Server.Actions.{action_value, execute}

-- `set_channel_value`, and the event that follows
unfoldable pub change_value : (channel_id : ℕ) → Bytes → Action (Unit {0})
change_value i value =
    on_state (λ s. set_channel_value s i value) >> add_event (channel_set_value i value)

-- `execute_channel_action`
unfoldable pub execute_channel_action :
    ChannelState → (action : ℕ) → Option Bytes → Action (Unit {0})
unfolding action_value change_value
execute_channel_action channel action params =
    of_result (action_value channel action params) >>= λ value. change_value channel.id value

-- The actions of a scene, one after the other
unfoldable pub execute_each : List SceneChannelState → Action (Unit {0})
unfolding execute_channel_action
execute_each [] w = (ok tt, w)
execute_each (c ∷ cs) w =
    after (get_channel_by_name w.state.channels c.name, w)
      (λ channel. execute_channel_action channel c.action c.params >> execute_each cs)

-- `except KeyError as exc: raise RuntimeError from exc`
abbrev pub or_runtime_error : {A : Type 0} → Result A → Result A
or_runtime_error (err key_error) = err runtime_error
or_runtime_error r = r

-- A dictionary's key that is a number of a message: its keys are not negative.
abbrev pub at_key : {A : Type 0} → (ℕ → Result A) → ℤ → Result A
at_key get (pos n) = get n
at_key get (negsuc n) = err key_error

abbrev pub or_unsupported : {A : Type 0} → Bool → Action A → Action A
or_unsupported true action = action
or_unsupported false action = raise runtime_error

-- What the body of the `try` does, by `ActionSubjectType`
unfoldable pub act :
    (subject_type : ℕ) (subject_id : ℤ) (action : ℕ) (param : Bytes) → Action (Unit {0})
unfolding execute_channel_action execute_each
act subject_type subject_id action param =
    if subject_type == 1
    then (read (λ s. or_runtime_error (at_key (get_channel s) subject_id)) >>= λ channel.
        execute_channel_action channel action (some param))
    else if subject_type == 3
    then (read (λ s. or_runtime_error (at_key (get_scene s) subject_id)) >>= λ scene.
        or_unsupported (action == execute) (execute_each scene.channels))
    else raise runtime_error

-- `except RuntimeError`: whether the result code is TRUE
abbrev pub except_runtime_error : Result (Unit {0}) × World → Result Bool × World
except_runtime_error (ok done, w) = (ok true, w)
except_runtime_error (err runtime_error, w) = (ok false, w)
except_runtime_error (err e, w) = (err e, w)

-- `client_execute_action`: the rest of its result is the message's.
unfoldable pub client_execute_action :
    (subject_type : ℕ) (subject_id : ℤ) (action : ℕ) (param : Bytes) → Action Bool
unfolding act
client_execute_action subject_type subject_id action param w =
    except_runtime_error (act subject_type subject_id action param w)

-- `client_set_value`: with `Target.CHANNEL`, and a channel that is there
unfoldable pub client_set_value : (target : ℕ) (value_id : ℤ) (value : Bytes) → Action (Unit {0})
unfolding change_value
client_set_value target value_id value w =
    if not (target == 0) then (ok tt, w) else elim (at_key (get_channel w.state) value_id) [
      | err e ↦ (ok tt, w)
      | ok channel ↦ elim value_id [ pos i ↦ change_value i value w | negsuc i ↦ (ok tt, w) ]
    ]
