-- ===== src/Encoding/At.antt =====
-- Where bytes stand in a longer sequence, and what the readers of encoding.py find there.
use suplalite.Common.{
  ℕ, ◌+◌, ◌≡◌, refl, ap, ◌∙◌, [], ◌∷◌, ◌++◌, get_elem?-append_length, append_assoc, arith, length,
  length-append,
}
use suplalite.Common.Int.{pos, +ℤ-pos, ◌+ℤ◌}
use suplalite.Python.Result.{ok}
use suplalite.Python.Bytes.{Bytes, index, slice, slice_from, slice-append, slice_from-append}
use suplalite.Python.Word.{buffer, buffer-append}

-- `xs` stands in `bs` at an offset.
pub record At (bs : Bytes) (offset : ℕ) (xs : Bytes) : Type 0 where
  pub front : Bytes
  pub back : Bytes
  pub begins : length front ≡ offset
  pub whole : bs ≡ front ++ (xs ++ back)

pub At-start : (xs back : Bytes) → At (xs ++ back) 0 xs
At-start xs back = record { front = []; back = back; begins = refl; whole = refl }

pub At-left : {bs : Bytes} {offset : ℕ} (xs ys : Bytes) → At bs offset (xs ++ ys) → At bs offset xs
At-left xs ys a = record {
  front = a.front;
  back = ys ++ a.back;
  begins = a.begins;
  whole = a.whole ∙ ap (λ t. a.front ++ t) (append_assoc xs ys a.back);
}

pub At-right :
    {bs : Bytes} {offset : ℕ} (xs ys : Bytes)
    → At bs offset (xs ++ ys)
    → At bs (offset + length xs) ys
At-right xs ys a = record {
  front = a.front ++ xs;
  back = a.back;
  begins = omega (arith, length-append a.front xs, a.begins);
  whole = a.whole ∙ simp append_assoc;
}

module _ {bs : Bytes} {offset : ℕ} (xs : Bytes) (a : At bs offset xs) where
  pub slice-At : (n : ℕ) → length xs ≡ n → slice bs (pos offset) (pos offset +ℤ pos n) ≡ xs
  slice-At n e = rw (+ℤ-pos, ← e, ← a.begins, a.whole) (slice-append a.front xs a.back)

  pub slice_from-At : slice_from bs (pos offset) ≡ xs ++ a.back
  slice_from-At = rw (← a.begins, a.whole) (slice_from-append a.front (xs ++ a.back))

  pub buffer-At : (n : ℕ) → length xs ≡ n → buffer n bs (pos offset) ≡ ok xs
  buffer-At n e = rw (← e, ← a.begins, a.whole) (buffer-append a.front xs a.back)

pub index-At :
    {bs : Bytes} {offset : ℕ} (x : ℕ) (xs : Bytes)
    → At bs offset (x ∷ xs)
    → index bs (pos offset) ≡ ok x
unfolding index
index-At x xs a = rw (← a.begins, a.whole, get_elem?-append_length a.front (xs ++ a.back) x, index)

-- The same at a numeral.
pub At-next :
    {bs : Bytes} {offset : ℕ} (xs ys : Bytes) (n : ℕ)
    → offset + length xs ≡ n
    → At bs offset (xs ++ ys)
    → At bs n ys
At-next xs ys n e a = rw e at (At-right xs ys a)
