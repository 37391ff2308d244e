-- ===== src/Proto/Enums.antt =====
-- The enumerations of suplalite/proto.py but `Call`: the name and the value of each member.
mod Kinds
mod Codes
pub use Kinds.*
pub use Codes.*
use suplalite.Common.{ℕ, String, List, [], ◌∷◌}

-- The values that `Enum(value)` accepts.
abbrev pub values : List (String × ℕ) → List ℕ
values [] = []
values ((name, value) ∷ rest) = value ∷ values rest
