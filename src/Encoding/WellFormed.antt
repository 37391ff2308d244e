-- ===== src/Encoding/WellFormed.antt =====
-- When an expanded field list can be read back: every variable part is measured by a size field in
-- front of it, names are distinct, and what `__init__` does not take is constant.
use suplalite.Common.{
  ℕ, String, Bool, true, false, ◌&&◌, ◌||◌, not, Option, none, some, List, [], ◌∷◌, ◌==◌, str_eq,
}
use suplalite.Encoding.Schema.{
  Codec, Schema, size_for, integer, double, bytes_value, bytes_size, bytes_max, string_size,
  string_max, packed_array, message, entry,
}
use suplalite.Encoding.Encode.{find, terminator}

abbrev pub is_known : String → List String → Bool
is_known n [] = false
is_known n (m ∷ ms) = str_eq m n || is_known n ms

abbrev pub absent : Option String → Schema → Bool
absent none s = true
absent (some n) Schema.nil = true
absent (some n) (entry none i c rest) = absent (some n) rest
absent (some n) (entry (some m) i c rest) = not (str_eq m n) && absent (some n) rest

-- The size field counts the terminator that the field writes.
abbrev pub same_terminator : Option Codec → ℕ → Bool
same_terminator none k = false
same_terminator (some c) k = terminator c == k

abbrev pub note_known : Codec → List String → List String
note_known (size_for n c) known = n ∷ known
note_known _ known = known

abbrev pub measured : Schema → List String → String → ℕ → Bool
measured all known n k = is_known n known && same_terminator (find all n) k

unfoldable mutual
  unfolding terminator

  pub well_formed_field : Codec → Schema → List String → Option String → Bool → Bool
  well_formed_field (size_for n c) all known none false = true
  well_formed_field (integer c t) all known (some n) true = true
  well_formed_field double all known (some n) true = true
  well_formed_field (bytes_value v) all known name false = true
  well_formed_field (bytes_size k) all known name false = true
  well_formed_field (bytes_size k) all known (some n) true = true
  well_formed_field (bytes_max k) all known (some n) true = measured all known n 0
  well_formed_field (string_size k) all known (some n) true = true
  well_formed_field (string_max k t) all known (some n) true =
      measured all known n (terminator (string_max k t))
  well_formed_field (packed_array k s) all known (some n) true =
      measured all known n 0 && well_formed_fields s s []
  well_formed_field (message s) all known (some n) true = well_formed_fields s s []
  well_formed_field _ all known name init = false

  pub well_formed_fields : Schema → Schema → List String → Bool
  well_formed_fields Schema.nil all known = true
  well_formed_fields (entry name init c rest) all known =
      well_formed_field c all known name init
      && (absent name rest && well_formed_fields rest all (note_known c known))

unfoldable pub well_formed : Schema → Bool
unfolding well_formed_fields find terminator
well_formed s = well_formed_fields s s []
