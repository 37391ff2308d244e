-- ===== src/Server/Icons.antt =====
-- The icons and scenes of suplalite/server/state.py.
use suplalite.Common.{ℕ, ◌+◌, Option, none, some, List, [], ◌∷◌, ◌++◌, if◌then◌else◌, length}
use suplalite.Python.Result.{Result, ok, err, assertion_error}
use suplalite.Python.Bytes.{Bytes}
use suplalite.Python.Text.{Str}
use suplalite.Python.Dict.{lookup, put, or_key_error}
use suplalite.Server.Types.{ServerState, SceneState, SceneChannelState, Icon, Method, eq_ℕ, eq_guid}

-- `",".join(parts)`
abbrev pub join_commas : List Str → Str
join_commas [] = []
join_commas (x ∷ []) = x
join_commas (x ∷ xs) = x ++ b',' ∷ join_commas xs

-- What the icons are keyed and numbered by: `base64.b64encode(icon).decode()`, and the number that is
-- read from the hash of a key.
pub record Hashing : Type 0 where
  pub base64 : Bytes → Str
  pub number_of : Str → ℕ

abbrev pub encoded_icons : (Bytes → Str) → List Bytes → List Str
encoded_icons f [] = []
encoded_icons f (icon ∷ icons) = f icon ∷ encoded_icons f icons

unfoldable pub add_icons : Hashing → ServerState → List Bytes → ℕ × ServerState
add_icons hashing s icons' =
    let parts = encoded_icons hashing.base64 icons' in
    let key = join_commas parts in
    elim (lookup eq_guid s.icons key) [
      | some icon ↦ (icon.id, s)
      | none ↦
          let icon : Icon = record { id = hashing.number_of key; data' = parts } in
          (
            icon.id,
            record s {
              icons = put eq_guid s.icons key icon;
              icons_by_id = put eq_ℕ s.icons_by_id icon.id icon;
            },
          )
    ]

-- `user_icon = 0`, and `add_icons` where there are icons
abbrev pub optional_icons : Hashing → ServerState → Option (List Bytes) → ℕ × ServerState
optional_icons hashing s none = (0, s)
optional_icons hashing s (some icons') = add_icons hashing s icons'

unfoldable pub get_icon : ServerState → ℕ → Result Icon
get_icon s i = or_key_error (lookup eq_ℕ s.icons_by_id i)

unfoldable pub add_scene :
    Hashing
    → ServerState
    → (name caption : Str) (channels : List SceneChannelState) (alt_icon : ℕ) → Option (List Bytes)
    → Method (Unit {0})
unfolding add_icons
add_scene hashing s name' caption' channels' alt icons' =
    if s.started
    then (err assertion_error, s)
    else let i = length s.scenes + 1 in
      let (user, s') = optional_icons hashing s icons' in
      let scene : SceneState = record {
        name = name';
        id = i;
        caption = caption';
        alt_icon = alt;
        user_icon = user;
        channels = channels';
      } in
      (ok tt, record s' { scenes = put eq_ℕ s'.scenes i scene })

unfoldable pub get_scene : ServerState → ℕ → Result SceneState
get_scene s i = or_key_error (lookup eq_ℕ s.scenes i)
