-- ===== src/Encoding/RoundTrip/Items.antt =====
-- Packed arrays: each item is read from where the last one ended.
use suplalite.Common.{ℕ, ◌+◌, ◌≡◌, refl, [], ◌++◌, arith, length, length-append, add_assoc}
use suplalite.Common.Int.{ℤ, pos, +ℤ-pos}
use suplalite.Python.Result.{Result, ok}
use suplalite.Python.Bytes.{Bytes}
use suplalite.Encoding.Value.{Value, Items, empty, cons, length_items}
use suplalite.Encoding.Encode.{encode_items}
use suplalite.Encoding.Decode.{decode_items}
use suplalite.Encoding.Fits.{AllItems}
use suplalite.Encoding.At.{At, At-left, At-right, slice_from-At}

module _ (enc : Value → Result Bytes) (dec : Bytes → Result (Value × ℤ)) where
  -- An item is read off the front of whatever follows.
  pub record ItemCarries (x : Value) : Type 0 where
    pub written : Bytes
    pub writes : enc x ≡ ok written
    pub reads : (back : Bytes) → dec (written ++ back) ≡ ok (x, pos (length written))

  pub record ItemsCarry (xs : Items) : Type 0 where
    pub written : Bytes
    pub writes : encode_items enc xs ≡ ok written
    pub reads :
        (bs : Bytes) (offset size : ℕ)
        → At bs (offset + size) written
        → decode_items dec (length_items xs) bs (pos offset) (pos size)
          ≡ ok (xs, pos (size + length written))

  pub items_carry :
      (P : Value → Type 0) (each : (x : Value) → P x → ItemCarries x) (xs : Items)
      → AllItems P xs
      → ItemsCarry xs
  unfolding encode_items decode_items
  items_carry P each empty h = record {
    written = [];
    writes = refl;
    reads = λ bs o n a. let e : n + 0 ≡ n = omega arith in rw e;
  }
  items_carry P each (cons x xs) h =
      let first = each x h.0 in
      let rest = items_carry P each xs h.1 in
      record {
        written = first.written ++ rest.written;
        writes = rw (first.writes, rest.writes);
        reads = λ bs o n a. rw (
          +ℤ-pos o n,
          slice_from-At first.written (At-left first.written rest.written a),
          first.reads,
          +ℤ-pos n (length first.written),
          rest.reads bs o (n + length first.written)
              (rw (← add_assoc) (At-right first.written rest.written a)),
          length-append first.written rest.written,
          add_assoc,
        );
      }
