-- ===== src/Python/Word.antt =====
-- The integer types of `ctypes`, in little-endian byte order: `bytes(ctype(value))` wraps the value
-- to the width, and `from_buffer_copy` reads it back.
use native.Mathlib.Nat.{pow-suc}
use suplalite.Common.{
  ℕ, zero, suc, ◌+◌, ◌-◌, ◌*◌, ◌/◌, ◌%◌, ◌^◌, ◌<◌, ◌≡◌, refl, ap, Bool, true, false, [], ◌∷◌, ◌++◌,
  arith, ltb, leb, le→leb, if◌then◌else◌, length, take, drop, All, drop-append_length,
  take-append_length, length-append,
}
use suplalite.Common.Int.{ℤ, pos, negsuc}
use suplalite.Python.Result.{Result, ok, err, value_error}
use suplalite.Python.Bytes.{Bytes, IsByte}

pub data Ctype : Type 0 where
  int8 int16 int32 int64 uint8 uint16 uint32 uint64 : Ctype

-- `ctypes.sizeof`
abbrev pub size_of : Ctype → ℕ
size_of int8 = 1
size_of int16 = 2
size_of int32 = 4
size_of int64 = 8
size_of uint8 = 1
size_of uint16 = 2
size_of uint32 = 4
size_of uint64 = 8

abbrev pub is_signed : Ctype → Bool
is_signed int8 = true
is_signed int16 = true
is_signed int32 = true
is_signed int64 = true
is_signed _ = false

abbrev pub modulus : Ctype → ℕ
modulus int8 = 256
modulus int16 = 65536
modulus int32 = 4294967296
modulus int64 = 18446744073709551616
modulus uint8 = 256
modulus uint16 = 65536
modulus uint32 = 4294967296
modulus uint64 = 18446744073709551616

-- The bit pattern of a value: it wraps, and is never refused.
unfoldable pub to_word : Ctype → ℤ → ℕ
to_word c (pos n) = n % modulus c
to_word c (negsuc n) = modulus c - 1 - n % modulus c

unfoldable pub of_word : Ctype → ℕ → ℤ
of_word c w =
    if is_signed c
    then (if ltb w (modulus c / 2) then pos w else negsuc (modulus c - 1 - w))
    else pos w

-- The values that the type can hold.
abbrev pub InRange : Ctype → ℤ → Type 0
InRange c (pos n) = (if is_signed c then n < modulus c / 2 else n < modulus c)
InRange c (negsuc n) = (if is_signed c then n < modulus c / 2 else ⊥)

unfoldable pub le_bytes : ℕ → ℕ → Bytes
le_bytes zero w = []
le_bytes (suc n) w = w % 256 ∷ le_bytes n (w / 256)

unfoldable pub of_le : Bytes → ℕ
of_le [] = 0
of_le (b ∷ bs) = b + 256 * of_le bs

-- `bytes(ctype(value))`
unfoldable pub pack : Ctype → ℤ → Bytes
unfolding le_bytes to_word
pack c z = le_bytes (size_of c) (to_word c z)

-- The `n` bytes of `data` at an offset, as `from_buffer_copy` takes them: it wants them all.
unfoldable pub buffer : ℕ → Bytes → ℤ → Result Bytes
buffer n data' (negsuc i) = err value_error
buffer n data' (pos i) =
    if leb (i + n) (length data') then ok (take n (drop i data')) else err value_error

pub length-le_bytes : (n w : ℕ) → length (le_bytes n w) ≡ n
unfolding le_bytes
length-le_bytes zero w = refl
length-le_bytes (suc n) w = ap suc (length-le_bytes n (w / 256))

pub le_bytes-IsByte : (n w : ℕ) → All IsByte (le_bytes n w)
unfolding le_bytes
le_bytes-IsByte zero w = tt
le_bytes-IsByte (suc n) w = (omega arith, le_bytes-IsByte n (w / 256))

pub of_le-le_bytes : (n w : ℕ) → w < 256 ^ n → of_le (le_bytes n w) ≡ w
unfolding le_bytes of_le
of_le-le_bytes zero w h = omega arith
of_le-le_bytes (suc n) w h =
    omega (arith, of_le-le_bytes n (w / 256) (omega (arith, pow-suc 256 n)))

pub to_word-lt : (c : Ctype) (z : ℤ) → to_word c z < 256 ^ size_of c
unfolding to_word
to_word-lt int8 z = ground arith
to_word-lt _ z = ground arith

-- A value in range survives the wrapping.
pub of_word-to_word : (c : Ctype) (z : ℤ) → InRange c z → of_word c (to_word c z) ≡ z
unfolding of_word to_word
of_word-to_word int8 z h = ground arith
of_word-to_word _ z h = ground arith

-- Reading stops where the bytes stop.
pub buffer-append :
    (pre xs post : Bytes) → buffer (length xs) (pre ++ (xs ++ post)) (pos (length pre)) ≡ ok xs
unfolding buffer
buffer-append pre xs post = rw (
  le→leb (length pre + length xs) (length (pre ++ (xs ++ post)))
      (omega (arith, length-append pre (xs ++ post), length-append xs post)),
  drop-append_length pre (xs ++ post),
  take-append_length xs post,
)
