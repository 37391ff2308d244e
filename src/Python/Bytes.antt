-- ===== src/Python/Bytes.antt =====
-- `bytes` is a list of numbers below 256. Offsets are integers: a length field of a message is
-- signed, and a negative bound of a slice counts from the end.
use suplalite.Common.{
  All, zero, suc, ℕ, ◌+◌, ◌-◌, ◌<◌, ◌≡◌, refl, Bool, true, false, ◌&&◌, none, some, List, [], ◌∷◌,
  ◌++◌, arith, ltb, ◌==◌, if◌then◌else◌, length, get_elem?, take, drop, replicate,
  drop-append_length, take-append_length,
}
use suplalite.Common.Int.{ℤ, pos, negsuc}
use suplalite.Python.Result.{Result, ok, err, index_error}

abbrev pub Bytes : Type 0
Bytes = List ℕ

abbrev pub IsByte : ℕ → Type 0
IsByte b = b < 256

-- A bound of a slice of a sequence of length `n`; `-k` is `n - k`, and stops at 0.
unfoldable pub bound : ℕ → ℤ → ℕ
bound n (pos i) = i
bound n (negsuc i) = n - (i + 1)

-- `xs[i:j]`
unfoldable pub slice {ℓ} : {A : Type ℓ} → List A → ℤ → ℤ → List A
unfolding bound
slice xs i j =
    let a = bound (length xs) i in let b = bound (length xs) j in take (b - a) (drop a xs)

-- `xs[i:]`
unfoldable pub slice_from {ℓ} : {A : Type ℓ} → List A → ℤ → List A
unfolding bound
slice_from xs i = drop (bound (length xs) i) xs

-- `xs[i]`
unfoldable pub index {ℓ} : {A : Type ℓ} → List A → ℤ → Result A
index xs (pos i) = elim (get_elem? xs i) [ none ↦ err index_error | some x ↦ ok x ]
index xs (negsuc i) =
    if ltb i (length xs)
    then elim (get_elem? xs (length xs - (i + 1))) [ none ↦ err index_error | some x ↦ ok x ]
    else err index_error

infix 50 ◌==b◌
abbrev pub ◌==b◌ : Bytes → Bytes → Bool
[] ==b [] = true
(x ∷ xs) ==b (y ∷ ys) = x == y && xs ==b ys
_ ==b _ = false

-- `xs.ljust(n, b"\x00")`
unfoldable pub ljust : Bytes → ℕ → Bytes
ljust xs n = xs ++ replicate (n - length xs) 0

-- `xs.partition(b"\x00")[0]`
unfoldable pub before_nul : Bytes → Bytes
before_nul [] = []
before_nul (b ∷ bs) = let rest = before_nul bs in if b == 0 then [] else b ∷ rest

pub ==b-refl : (xs : Bytes) → (xs ==b xs) ≡ true
==b-refl [] = refl
==b-refl (x ∷ xs) = ground (arith, ==b-refl xs)

pub ==b-eq : (xs ys : Bytes) → (xs ==b ys) ≡ true → xs ≡ ys
==b-eq [] [] h = refl
==b-eq [] (y ∷ ys) h = ground arith
==b-eq (x ∷ xs) [] h = ground arith
==b-eq (x ∷ xs) (y ∷ ys) h = ground (arith, ==b-eq xs ys)

module _ {ℓ} {A : Type ℓ} where
  pub slice-pos : (xs : List A) (i n : ℕ) → slice xs (pos i) (pos (i + n)) ≡ take n (drop i xs)
  unfolding slice
  slice-pos xs i n = let e : i + n - i ≡ n = omega arith in rw e

  -- A slice at the end of what stands in front reads what follows.
  pub slice-append :
      (pre xs post : List A)
      → slice (pre ++ (xs ++ post)) (pos (length pre)) (pos (length pre + length xs)) ≡ xs
  slice-append pre xs post =
      rw (slice-pos, drop-append_length pre (xs ++ post), take-append_length xs post)

  pub slice_from-append : (pre xs : List A) → slice_from (pre ++ xs) (pos (length pre)) ≡ xs
  unfolding slice_from
  slice_from-append pre xs = drop-append_length pre xs

-- Text that holds no zero byte is read back up to its padding.
pub before_nul-append :
    (xs : Bytes) (n : ℕ) → All (λ b. 0 < b) xs → before_nul (xs ++ replicate n 0) ≡ xs
unfolding before_nul
before_nul-append [] zero h = refl
before_nul-append [] (suc n) h = refl
before_nul-append (x ∷ xs) n h = ground (arith, before_nul-append xs n h.1)
