-- ===== src/Encoding/RoundTrip/Sizes.antt =====
-- The size of a field: what `encode` writes in its size field is what `decode` finds in `sizes`.
use suplalite.Common.{
  ℕ, ◌+◌, ◌≤◌, ◌≡◌, ◌≢◌, refl, String, Bool, true, false, ◌&&◌, not, none, some, List, [], ◌∷◌,
  arith, &&-true, Bool-cases, inl, inr, str_eq, eq_iff,
}
use suplalite.Common.Int.{pos}
use suplalite.Python.Result.{ok}
use suplalite.Encoding.Schema.{Schema, size_for, entry}
use suplalite.Encoding.Value.{Value, Attrs, attr, getattr}
use suplalite.Encoding.Encode.{find, len, size_value}
use suplalite.Encoding.Decode.{Sizes, size_at, checked_size}
use suplalite.Encoding.WellFormed.{is_known, absent, same_terminator, measured}
use suplalite.Encoding.Fits.{FitsFields}

-- `sizes` holds the size of each field in `known`.
pub record Holds (known : List String) (all : Schema) (msg : Attrs) (sizes : Sizes) : Type 0 where
  pub at :
      (n : String) (k : ℕ)
      → is_known n known ≡ true
      → size_value all msg n ≡ ok k
      → size_at sizes n ≡ ok (pos k)

module _ (all : Schema) (msg : Attrs) where
  pub Holds-start : Holds [] all msg []
  Holds-start = record { at = λ n k h e. cc }

  pub Holds-note :
      {known : List String} {sizes : Sizes} (target : String) (size : ℕ)
      → size_value all msg target ≡ ok size
      → Holds known all msg sizes
      → Holds (target ∷ known) all msg ((target, pos size) ∷ sizes)
  unfolding size_at
  Holds-note {known} {sizes} target size counts held = record {
    at = λ n k h e. elim (Bool-cases (str_eq target n)) [
      | inl same ↦ ground (arith, eq_iff target n)
      | inr other ↦ rw other (held.at n k (rw other at h) e)
    ];
  }

  pub size_value_lem :
      (n : String) (v : Value) (k t : ℕ)
      → getattr msg n ≡ ok v
      → len v ≡ ok k
      → same_terminator (find all n) t ≡ true
      → size_value all msg n ≡ ok (k + t)
  unfolding size_value
  size_value_lem n v k t g l s = ground arith

  pub checked_size-measured :
      {known : List String} {sizes : Sizes} (n : String) (v : Value) (k t max_size : ℕ)
      → measured all known n t ≡ true
      → Holds known all msg sizes
      → getattr msg n ≡ ok v
      → len v ≡ ok k
      → k + t ≤ max_size
      → checked_size sizes (some n) max_size ≡ ok (pos (k + t))
  unfolding checked_size
  checked_size-measured {known} n v k t max_size m held g l h =
      let (known_n, same) = &&-true (is_known n known) _ m in
      rw (held.at n (k + t) known_n (size_value_lem n v k t g l same)) (ground arith)

  pub checked_size-measured_plain :
      {known : List String} {sizes : Sizes} (n : String) (v : Value) (k max_size : ℕ)
      → measured all known n 0 ≡ true
      → Holds known all msg sizes
      → getattr msg n ≡ ok v
      → len v ≡ ok k
      → k ≤ max_size
      → checked_size sizes (some n) max_size ≡ ok (pos k)
  checked_size-measured_plain n v k max_size m held g l h =
      let e : k + 0 ≡ k = omega arith in
      rw e at (checked_size-measured n v k 0 max_size m held g l (omega arith))

-- The attributes that are left hold what the message holds.
pub record Covers (attrs msg : Attrs) : Type 0 where
  pub at : (n : String) (v : Value) → getattr attrs n ≡ ok v → getattr msg n ≡ ok v

pub Covers-refl : (msg : Attrs) → Covers msg msg
Covers-refl msg = record { at = λ n v h. h }

not-&&-true : (a b : Bool) → (not a && b) ≡ true → (a ≡ false) × (b ≡ true)
not-&&-true a b h = ground arith

-- A name that the schema lacks is no attribute of what fits it.
getattr-absent :
    (n : String) (s all : Schema) (msg attrs : Attrs) (v : Value)
    → absent (some n) s ≡ true
    → FitsFields s all msg attrs
    → getattr attrs n ≢ ok v
unfolding getattr
getattr-absent n Schema.nil all msg Attrs.nil v h f e = cc
getattr-absent n Schema.nil all msg (attr _ _ _) v h f e = absurd f
getattr-absent n (entry none i (size_for t c) rest) all msg attrs v h f e =
    getattr-absent n rest all msg attrs v h f.1 e
getattr-absent n (entry none i _ rest) all msg attrs v h f e =
    getattr-absent n rest all msg attrs v h f e
getattr-absent n (entry (some m) false c rest) all msg attrs v h f e =
    getattr-absent n rest all msg attrs v (ground arith) f e
getattr-absent n (entry (some m) true c rest) all msg Attrs.nil v h f e = absurd f
getattr-absent n (entry (some m) true c rest) all msg (attr k w attrs) v h f e =
    let (miss, h') = not-&&-true (str_eq m n) _ h in
    getattr-absent n rest all msg attrs v h' f.2 (rw (f.0, miss) at e)

pub Covers-tail :
    (n : String) (v : Value) (s all : Schema) (msg attrs whole : Attrs)
    → absent (some n) s ≡ true
    → FitsFields s all msg attrs
    → Covers (attr n v attrs) whole
    → (getattr whole n ≡ ok v) × Covers attrs whole
unfolding getattr
Covers-tail n v s all msg attrs whole h f c = (
  c.at n v (rw ((eq_iff n n).1 refl)),
  record {
    at = λ m w e. elim (Bool-cases (str_eq n m)) [
      | inl same ↦ absurd (getattr-absent n s all msg attrs w h f (rw ((eq_iff n m).0 same) e))
      | inr other ↦ c.at m w (rw other e)
    ];
  },
)
