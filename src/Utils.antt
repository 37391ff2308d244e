-- ===== src/Utils.antt =====
-- `batched` of suplalite/utils.py.
use suplalite.Common.{ℕ, zero, suc, List, [], ◌∷◌, ltb, if◌then◌else◌, length, take, drop}
use suplalite.Python.Result.{Result, ok, err, value_error}

module _ {ℓ} {A : Type ℓ} where
  -- The loop: `fuel` bounds the number of batches; each takes at least one element, so the length of
  -- the list is enough.
  unfoldable pub batches : (fuel : ℕ) → List A → ℕ → List (List A)
  batches zero xs n = []
  batches (suc fuel) [] n = []
  batches (suc fuel) (x ∷ xs) n = take n (x ∷ xs) ∷ batches fuel (drop n (x ∷ xs)) n

  -- An empty list has one batch, and it is empty.
  abbrev pub or_empty : List (List A) → List (List A)
  or_empty [] = [] ∷ []
  or_empty (b ∷ bs) = b ∷ bs

  unfoldable pub batched : List A → ℕ → Result (List (List A))
  unfolding batches
  batched xs n = if ltb n 1 then err value_error else ok (or_empty (batches (length xs) xs n))
