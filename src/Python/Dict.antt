-- ===== src/Python/Dict.antt =====
-- `dict`, in insertion order: assignment replaces the value of a key that is there, and appends a key
-- that is not.
use suplalite.Common.{
  ◌⊎◌, ◌≡◌, ◌≢◌, refl, sym, ◌∙◌, Bool, true, false, Option, none, some, List, [], ◌∷◌,
  if◌then◌else◌, ◌↔◌, Bool-cases, inl, inr,
}
use suplalite.Python.Result.{Result, ok, err, key_error}

abbrev pub Dict {ℓ κ} : Type ℓ → Type κ → Type (ℓ ⊔ κ)
Dict K V = List (K × V)

module _ {ℓ κ} {K : Type ℓ} {V : Type κ} (same : K → K → Bool) where
  -- `d.get(k)`
  unfoldable pub lookup : Dict K V → K → Option V
  lookup [] k = none
  lookup ((j, v) ∷ d) k = let rest = lookup d k in if same j k then some v else rest

  -- `d[k] = v`
  unfoldable pub put : Dict K V → K → V → Dict K V
  put [] k v = (k, v) ∷ []
  put ((j, w) ∷ d) k v = let rest = put d k v in if same j k then (j, v) ∷ d else (j, w) ∷ rest

  unfoldable pub without : Dict K V → K → Dict K V
  without [] k = []
  without ((j, v) ∷ d) k = let rest = without d k in if same j k then rest else (j, v) ∷ rest

-- `d[k]`
abbrev pub or_key_error {ℓ} : {A : Type ℓ} → Option A → Result A
or_key_error none = err key_error
or_key_error (some v) = ok v

abbrev pub is_some {ℓ} : {A : Type ℓ} → Option A → Bool
is_some none = false
is_some (some a) = true

-- `same` is the equality of the keys.
abbrev pub IsEquality {ℓ} : {K : Type ℓ} → (K → K → Bool) → Type ℓ
IsEquality {K = K} same = (j k : K) → (same j k ≡ true) ↔ (j ≡ k)

same_refl {ℓ} : {K : Type ℓ} (same : K → K → Bool) → IsEquality same → (k : K) → same k k ≡ true
same_refl same is_equality k = (is_equality k k).1 refl

same-false {ℓ} :
    {K : Type ℓ} (same : K → K → Bool) → IsEquality same → (j k : K) → j ≢ k → same j k ≡ false
same-false same is_equality j k h = elim (Bool-cases (same j k)) [
  | inl here ↦ absurd (h ((is_equality j k).0 here))
  | inr apart ↦ apart
]

same-cases {ℓ} :
    {K : Type ℓ} (same : K → K → Bool) → IsEquality same → (j k : K) → (j ≡ k) ⊎ (j ≢ k)
same-cases same is_equality j k = elim (Bool-cases (same j k)) [
  | inl here ↦ inl ((is_equality j k).0 here)
  | inr apart ↦ inr (λ e. let here = (is_equality j k).1 e in cc)
]

module _ {ℓ κ} {K : Type ℓ} {V : Type κ} (same : K → K → Bool) (is_equality : IsEquality same) where
  pub lookup-put : (d : Dict K V) (k : K) (v : V) → lookup same (put same d k v) k ≡ some v
  unfolding lookup put
  lookup-put [] k v = rw (same_refl same is_equality k)
  lookup-put ((j, w) ∷ d) k v = elim (Bool-cases (same j k)) [
    | inl here ↦ rw (here, here)
    | inr apart ↦ rw (apart, apart) (lookup-put d k v)
  ]

  pub lookup-put_other :
      (d : Dict K V) (k : K) (v : V) (i : K)
      → k ≢ i
      → lookup same (put same d k v) i ≡ lookup same d i
  unfolding lookup put
  lookup-put_other [] k v i h = rw (same-false same is_equality k i h)
  lookup-put_other ((j, w) ∷ d) k v i h = elim (Bool-cases (same j k)) [
    | inl here ↦
        let e : j ≡ k = (is_equality j k).0 here in
        let other : same j i ≡ false = same-false same is_equality j i (λ e'. h (sym e ∙ e')) in
        rw (here, other)
    | inr apart ↦ rw (apart, lookup-put_other d k v i h)
  ]

  pub lookup-without_other :
      (d : Dict K V) (k i : K) → k ≢ i → lookup same (without same d k) i ≡ lookup same d i
  unfolding lookup without
  lookup-without_other [] k i h = refl
  lookup-without_other ((j, w) ∷ d) k i h = elim (Bool-cases (same j k)) [
    | inl here ↦
        let e : j ≡ k = (is_equality j k).0 here in
        let other : same j i ≡ false = same-false same is_equality j i (λ e'. h (sym e ∙ e')) in
        rw (here, other) (lookup-without_other d k i h)
    | inr apart ↦ rw (apart, lookup-without_other d k i h)
  ]

  pub lookup-without : (d : Dict K V) (k : K) → lookup same (without same d k) k ≡ none
  unfolding lookup without
  lookup-without [] k = refl
  lookup-without ((j, w) ∷ d) k = elim (Bool-cases (same j k)) [
    | inl here ↦ rw here (lookup-without d k)
    | inr apart ↦ rw (apart, apart) (lookup-without d k)
  ]

  -- What an assignment, or a deletion, changes.
  pub put-cases :
      (d : Dict K V) (k : K) (v : V) (i : K)
      → ((k ≡ i) × (lookup same (put same d k v) i ≡ some v))
        ⊎ ((k ≢ i) × (lookup same (put same d k v) i ≡ lookup same d i))
  put-cases d k v i = elim (same-cases same is_equality k i) [
    | inl e ↦ inl (e, rw (sym e) (lookup-put d k v))
    | inr h ↦ inr (h, lookup-put_other d k v i h)
  ]

  pub without-cases :
      (d : Dict K V) (k i : K)
      → ((k ≡ i) × (lookup same (without same d k) i ≡ none))
        ⊎ ((k ≢ i) × (lookup same (without same d k) i ≡ lookup same d i))
  without-cases d k i = elim (same-cases same is_equality k i) [
    | inl e ↦ inl (e, rw (sym e) (lookup-without d k))
    | inr h ↦ inr (h, lookup-without_other d k i h)
  ]
