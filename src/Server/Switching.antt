-- ===== src/Server/Switching.antt =====
-- What actions do to channels.
use suplalite.Common.{
  differs, ◌≢◌, All, if◌then◌else◌, Option, ℕ, ◌≡◌, refl, sym, ap, ◌∙◌, Bool, true, false, not,
  some, List, [], ◌∷◌, ◌++◌, ◌==◌, if◌then◌else◌, inl, inr, ◌⊎◌, arith,
}
use suplalite.Common.Int.{pos}
use suplalite.Python.Result.{ok, err, key_error, runtime_error}
use suplalite.Python.Bytes.{Bytes}
use suplalite.Server.Types.{ChannelState, SceneState, SceneChannelState}
use suplalite.Server.Icons.{get_scene}
use suplalite.Server.Devices.{get_channel, get_channel_by_name}
use suplalite.Server.LastValue.{set_channel_value}
use suplalite.Server.Dimmers.{lit, updated}
use suplalite.Server.World.{World, channel_set_value, ◌>>=◌}
use suplalite.Server.Actions.{
  set_rgbw_parameters, execute_relay_action, execute_dimmer_action, execute_rgbw_action, turn_on,
  turn_off, toggle, execute, action_value,
}
use suplalite.Server.Acting.{execute_channel_action, execute_each, act, client_execute_action}
use suplalite.Server.Switches.{
  bytes_of, relay_bytes, toggle_lem, client_execute_action-found, relay-action, dimmer-action,
  dimmer_off, dimmer_on, updated-fields,
}

-- A relay's channel, whose number is its key and whose value has eight bytes: clients toggle it twice. Both
-- times the result code is TRUE; the relay is then on if it was off, and then off again, and on if it
-- was on; and the devices hear of both values.
pub client_execute_action-toggle :
    (w : World) (n : ℕ) (k : ChannelState) (p q : Bytes) (b c d e f g h i : ℕ)
    → get_channel w.state n ≡ ok k
    → k.id ≡ n
    → k.type ≡ 2900
    → k.value ≡ bytes_of b c d e f g h i
    → let (r, w') = client_execute_action 1 (pos n) toggle p w in
      let (r', w'') = client_execute_action 1 (pos n) toggle q w' in
      (r ≡ ok true)
      × (r' ≡ ok true)
      × (k'' : ChannelState) × (get_channel w''.state n ≡ ok k'')
      × (k''.value ≡ relay_bytes (not (b == 0)))
      × (w''.events
          ≡ (w.events ++ channel_set_value n (relay_bytes (b == 0)) ∷ [])
            ++ channel_set_value n (relay_bytes (not (b == 0))) ∷ [])
client_execute_action-toggle w n k p q b c d e f g h i there own type value =
    let on' = if b == 0 then 1 else 0 in
    let v' = relay_bytes (b == 0) in
    let first = relay-action k toggle (some p) type ∙ toggle_lem k b c d e f g h i value in
    let (done, now) =
      client_execute_action-found w n k toggle p on' 0 0 0 0 0 0 0 there own first in
    let w' = record w {
      state = (set_channel_value w.state n v').1;
      events = w.events ++ channel_set_value n v' ∷ [];
    } in
    let k' = updated k v' (lit k.type on' 0) in
    let (own', type', value') = updated-fields k v' (lit k.type on' 0) in
    let back : (on' == 0) ≡ not (b == 0) = flips (b == 0) in
    let second : action_value k' toggle (some q) ≡ ok (relay_bytes (not (b == 0))) =
      relay-action k' toggle (some q) (type' ∙ type)
      ∙ toggle_lem k' on' 0 0 0 0 0 0 0 value'
      ∙ ap (λ x. ok (relay_bytes x)) back in
    let on'' = if not (b == 0) then 1 else 0 in
    let (done', now') =
      client_execute_action-found w' n k' toggle q on'' 0 0 0 0 0 0 0 now (own' ∙ own) second in
    let v'' = relay_bytes (not (b == 0)) in
    let (_, _, value'') = updated-fields k' v'' (lit k'.type on'' 0) in
    rw (done, done') (refl, refl, updated k' v'' (lit k'.type on'' 0), now', value'', refl)
  where
    flips : (x : Bool) → ((if x then 1 else 0) == 0) ≡ not x
    flips true = refl
    flips false = refl

-- A dimmer's channel, whose number is its key and whose last value has eight bytes: clients turn it off and on.
-- Both times the result code is TRUE; off, its brightness is 0 and the last value is kept; on, it has
-- the last value again.
pub client_execute_action-dimmer :
    (w : World) (n : ℕ) (k : ChannelState) (p q : Bytes) (b c d e f g h i : ℕ)
    → get_channel w.state n ≡ ok k
    → k.id ≡ n
    → k.type ≡ 4000
    → k.last_value ≡ some (bytes_of b c d e f g h i)
    → let (r, w') = client_execute_action 1 (pos n) turn_off p w in
      let (r', w'') = client_execute_action 1 (pos n) turn_on q w' in
      (r ≡ ok true)
      × (get_channel w'.state n ≡ ok (record k { value = bytes_of 0 0 0 0 0 0 0 0 }))
      × (r' ≡ ok true)
      × (get_channel w''.state n ≡ ok (record k { value = bytes_of b c d e f g h i }))
client_execute_action-dimmer w n k p q b c d e f g h i there own type last =
    let off = bytes_of 0 0 0 0 0 0 0 0 in
    let on = bytes_of b c d e f g h i in
    let first = dimmer-action k turn_off (some p) type ∙ dimmer_off k (some p) in
    let (done, now) =
      client_execute_action-found w n k turn_off p 0 0 0 0 0 0 0 0 there own first in
    let w' = record w {
      state = (set_channel_value w.state n off).1;
      events = w.events ++ channel_set_value n off ∷ [];
    } in
    let k' = record k { value = off } in
    let now' : get_channel w'.state n ≡ ok k' =
      now ∙ ap (λ x. ok (updated k off x)) (dark k.type) in
    let second =
      dimmer-action k' turn_on (some q) type ∙ dimmer_on k' (some q) b c d e f g h i last in
    let (done', last_now) =
      client_execute_action-found w' n k' turn_on q b c d e f g h i now' own second in
    rw (done, done') (refl, now', refl, last_now ∙ ap ok (kept (lit k.type b c)))
  where
    dark : (t : ℕ) → lit t 0 0 ≡ false
    dark t = ground arith

    kept :
        (keep : Bool)
        → updated (record k { value = bytes_of 0 0 0 0 0 0 0 0 }) (bytes_of b c d e f g h i) keep
          ≡ record k { value = bytes_of b c d e f g h i }
    kept true = ap (λ x. record k { value = bytes_of b c d e f g h i; last_value = x }) (sym last)
    kept false = refl

-- The actions that the types of channels take
abbrev pub actions_of : (type : ℕ) → List ℕ
actions_of type =
    if type == 2900
    then turn_on ∷ turn_off ∷ toggle ∷ []
    else if type == 4000
    then turn_on ∷ turn_off ∷ set_rgbw_parameters ∷ []
    else if type == 4010
    then turn_on ∷ turn_off ∷ set_rgbw_parameters ∷ []
    else if type == 4020
    then turn_on ∷ turn_off ∷ set_rgbw_parameters ∷ []
    else []

abbrev pub NotAmong : ℕ → List ℕ → Type 0
NotAmong a actions = All (λ b. a ≢ b) actions

untaken :
    (k : ChannelState) (a : ℕ) (p : Option Bytes)
    → NotAmong a (actions_of k.type)
    → action_value k a p ≡ err runtime_error
unfolding action_value execute_relay_action execute_dimmer_action execute_rgbw_action
untaken k a p apart =
    by_type (k.type == 2900) (k.type == 4000) (k.type == 4010) (k.type == 4020) apart
  where
    by_type :
        (t1 t2 t3 t4 : Bool)
        → NotAmong a (
            if t1
            then turn_on ∷ turn_off ∷ toggle ∷ []
            else if t2
            then turn_on ∷ turn_off ∷ set_rgbw_parameters ∷ []
            else if t3
            then turn_on ∷ turn_off ∷ set_rgbw_parameters ∷ []
            else if t4
            then turn_on ∷ turn_off ∷ set_rgbw_parameters ∷ []
            else [])
        → (if t1
            then execute_relay_action k a
            else if t2
            then execute_dimmer_action k a p
            else if t3
            then execute_rgbw_action k a p 0
            else if t4
            then execute_rgbw_action k a p 100
            else err runtime_error)
          ≡ err runtime_error
    by_type true t2 t3 t4 (x, (y, (z, _))) =
        rw (differs a turn_on x, differs a turn_off y, differs a toggle z) refl
    by_type false true t3 t4 (x, (y, (z, _))) =
        rw (differs a turn_on x, differs a turn_off y, differs a set_rgbw_parameters z) refl
    by_type false false true t4 (x, (y, (z, _))) =
        rw (differs a turn_on x, differs a turn_off y, differs a set_rgbw_parameters z) refl
    by_type false false false true (x, (y, (z, _))) =
        rw (differs a turn_on x, differs a turn_off y, differs a set_rgbw_parameters z) refl
    by_type false false false false _ = refl

-- A client acts on a channel that does not exist, or in a way that is not among the actions of the channel's
-- type, whatever the parameters: the result code is FALSE and nothing changes.
pub client_execute_action-refused :
    (w : World) (n a : ℕ) (p : Bytes)
    → (get_channel w.state n ≡ err key_error)
      ⊎ ((k : ChannelState) × (get_channel w.state n ≡ ok k) × NotAmong a (actions_of k.type))
    → client_execute_action 1 (pos n) a p w ≡ (ok false, w)
unfolding client_execute_action act execute_channel_action
client_execute_action-refused w n a p (inl e) = rw (e, client_execute_action, act, ◌>>=◌) refl
client_execute_action-refused w n a p (inr (k, e, apart)) =
    rw (e, untaken k a (some p) apart, client_execute_action, act, execute_channel_action, ◌>>=◌)
      refl

-- A scene whose first channel does not exist: the `KeyError` is not caught, so the client gets no result.
pub client_execute_action-scene :
    (w : World) (n : ℕ) (p : Bytes) (s : SceneState) (c : SceneChannelState)
    (cs : List SceneChannelState)
    → get_scene w.state n ≡ ok s
    → s.channels ≡ c ∷ cs
    → get_channel_by_name w.state.channels c.name ≡ err key_error
    → client_execute_action 3 (pos n) execute p w ≡ (err key_error, w)
unfolding client_execute_action act execute_each
client_execute_action-scene w n p s c cs e e' e'' =
    rw (e, e', e'', client_execute_action, act, execute_each, ◌>>=◌) refl
