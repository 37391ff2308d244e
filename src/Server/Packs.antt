-- ===== src/Server/Packs.antt =====
-- `build_pack_message` of suplalite/server/handlers.py.
use suplalite.Common.{
  ℕ, zero, suc, ◌+◌, ◌-◌, ◌*◌, ◌≤◌, ◌<◌, ◌≡◌, ap, ◌∙◌, List, [], ◌∷◌, map, ltb, lt→ltb, ◌==◌,
  if◌then◌else◌, length, take, drop, get_elem?, some, arith, length-drop, drop-drop, get_elem?-lt,
  length-take, refl,
}
use suplalite.Common.Int.{pos}
use suplalite.Python.Result.{Result, ok, assert, ◌>>=◌, ◌>>◌}
use suplalite.Python.Bytes.{index}
use suplalite.Proto.Constants.{channelpack_maxcount}
use suplalite.Utils.{or_empty, batches, batched}

index-get_elem? {ℓ} :
    {A : Type ℓ} (xs : List A) (i : ℕ) (x : A) → get_elem? xs i ≡ some x → index xs (pos i) ≡ ok x
unfolding index
index-get_elem? xs i x e = rw (e, index)

or_empty-get_elem? {ℓ} :
    {A : Type ℓ} (bs : List (List A)) (i : ℕ) (b : List A)
    → get_elem? bs i ≡ some b
    → or_empty bs ≡ bs
or_empty-get_elem? [] i b e = cc
or_empty-get_elem? (c ∷ bs) i b e = refl

module _ {ℓ κ} {A : Type ℓ} {B : Type κ} (build_item : A → B) (set_eol : B → B) where
  -- `for idx, batch in enumerate(batches)`: the batches hold no more than the items, so nothing is cut
  -- off at 0.
  unfoldable pub left_after : ℕ → List (List A) → (batch_idx : ℕ) → ℕ
  left_after total [] i = total
  left_after total (b ∷ bs) zero = total - length b
  left_after total (b ∷ bs) (suc i) = left_after (total - length b) bs i

  -- `pack[-1].eol = True`
  unfoldable pub mark_last : List B → List B
  mark_last [] = []
  mark_last (x ∷ []) = set_eol x ∷ []
  mark_last (x ∷ y ∷ xs) = x ∷ mark_last (y ∷ xs)

  unfoldable pub build_pack_message : List A → (batch_idx : ℕ) → Result (ℕ × List B)
  unfolding left_after mark_last
  build_pack_message items i = do
    bs ← batched items channelpack_maxcount
    assert (ltb i (length bs))
    batch ← index bs (pos i)
    let total_left = left_after (length items) bs i
    let pack = map build_item batch
    ok (total_left, (if total_left == 0 then mark_last pack else pack))

  batches_at :
      (fuel : ℕ) (xs : List A) (n i : ℕ)
      → length xs ≤ fuel
      → 1 ≤ n
      → i * n < length xs
      → get_elem? (batches fuel xs n) i ≡ some (take n (drop (i * n) xs))
  unfolding batches
  batches_at zero [] n i h hn hi = absurd (omega arith)
  batches_at zero (x ∷ xs) n i h hn hi = absurd (omega arith)
  batches_at (suc fuel) [] n i h hn hi = absurd (omega arith)
  batches_at (suc fuel) (x ∷ xs) n zero h hn hi = let e : 0 * n ≡ 0 = omega arith in rw e
  batches_at (suc fuel) (x ∷ xs) n (suc i) h hn hi =
      let l = length-drop n (x ∷ xs) in
      let e : suc i * n ≡ n + i * n = omega arith in
      rw (e, ← drop-drop n (i * n) (x ∷ xs))
        (batches_at fuel (drop n (x ∷ xs)) n i (omega (arith, l, h, hn)) hn
          (omega (arith, l, hi, e)))

  left_after-batches :
      (fuel : ℕ) (xs : List A) (n i : ℕ)
      → length xs ≤ fuel
      → 1 ≤ n
      → i * n < length xs
      → left_after (length xs) (batches fuel xs n) i ≡ length xs - (i + 1) * n
  unfolding batches left_after
  left_after-batches zero [] n i h hn hi = absurd (omega arith)
  left_after-batches zero (x ∷ xs) n i h hn hi = absurd (omega arith)
  left_after-batches (suc fuel) [] n i h hn hi = absurd (omega arith)
  left_after-batches (suc fuel) (x ∷ xs) n zero h hn hi = omega (arith, length-take n (x ∷ xs))
  left_after-batches (suc fuel) (x ∷ xs) n (suc i) h hn hi =
      let l = length-drop n (x ∷ xs) in
      let lt = length-take n (x ∷ xs) in
      let e : suc i * n ≡ n + i * n = omega arith in
      let e1 : length (x ∷ xs) - length (take n (x ∷ xs)) ≡ length (drop n (x ∷ xs)) =
        omega (arith, l, lt) in
      ap (λ t. left_after t (batches fuel (drop n (x ∷ xs)) n) i) e1
      ∙ left_after-batches fuel (drop n (x ∷ xs)) n i (omega (arith, l, h, hn)) hn
          (omega (arith, l, hi, e))
      ∙ omega (arith, l)

  -- The pack of a batch in terms of the list of items.
  abbrev pub pack_at : List A → ℕ → ℕ × List B
  pack_at items i =
      let left = length items - (i + 1) * channelpack_maxcount in
      let pack =
        map build_item (take channelpack_maxcount (drop (i * channelpack_maxcount) items)) in
      (left, (if left == 0 then mark_last pack else pack))

  -- For a batch that starts within the items, `build_pack_message` returns the number of items behind
  -- the batch and the batch's twenty items or what is left of them, in their order, the last marked
  -- with `eol` if no items come behind.
  pub build_pack_message-pack_at :
      (items : List A) (i : ℕ)
      → i * channelpack_maxcount < length items
      → build_pack_message items i ≡ ok (pack_at items i)
  unfolding build_pack_message batched
  build_pack_message-pack_at [] i h = absurd (omega arith)
  build_pack_message-pack_at (x ∷ xs) i h =
      let found = batches_at (length (x ∷ xs)) (x ∷ xs) 20 i (omega arith) (omega arith) h in
      let left = left_after-batches (length (x ∷ xs)) (x ∷ xs) 20 i (omega arith) (omega arith) h in
      let bs = batches (length (x ∷ xs)) (x ∷ xs) 20 in
      rw (
        or_empty-get_elem? bs i _ found,
        lt→ltb _ _ (get_elem?-lt bs i _ found),
        index-get_elem? bs i _ found,
        left,
      )
