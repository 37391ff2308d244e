-- ===== src/Server/Matching.antt =====
-- When the server takes a device that registers.
use suplalite.Common.{
  never_both, ℕ, suc, ◌+◌, ◌≡◌, refl, sym, ap, ◌∙◌, not, Option, none, some, List, [], ◌∷◌, ◌==◌,
  ==_iff, ◌↔◌, length, All, Bool-cases, Option-cases, inl, inr, otherwise, arith, if◌then◌else◌,
}
use suplalite.Python.Result.{Result, ok}
use suplalite.Python.Dict.{Dict}
use suplalite.Server.Types.{ChannelState}
use suplalite.Server.Registration.{
  ChannelMsg, Mismatch, channel_count, channel_number, channel_type, channel_func, channel_flags,
  check_channel, check_each, check_channels,
}
use suplalite.Server.Clients.{none≢some}
use suplalite.Server.Sessions.{ok_injective}

-- What a device tells of a channel, and what the server has of it: its number, type, function and flags
abbrev Told : Type 0
Told = ℕ × ℕ × ℕ × ℕ

abbrev pub told : List ChannelMsg → List Told
told [] = []
told (m ∷ ms) = (m.number, m.type, m.default_func, m.flags) ∷ told ms

abbrev pub expected : ℕ → Dict ℕ ChannelState → List Told
expected n [] = []
expected n ((i, c) ∷ cs) = (n, c.type, c.func, c.flags) ∷ expected (n + 1) cs

check_channel-agree :
    (c : ChannelState) (n : ℕ) (m : ChannelMsg)
    → (n ≡ m.number)
    → (c.type ≡ m.type)
    → (c.func ≡ m.default_func)
    → (c.flags ≡ m.flags)
    → check_channel c n m ≡ none
unfolding check_channel
check_channel-agree c n m e1 e2 e3 e4 =
    let same = λ (a b : ℕ) (e : a ≡ b). ap not ((==_iff a b).1 e) in
    otherwise _ _ _ (same n m.number e1)
    ∙ otherwise _ _ _ (same c.type m.type e2)
    ∙ otherwise _ _ _ (same c.func m.default_func e3)
    ∙ otherwise _ _ _ (same c.flags m.flags e4)

-- Behind a test that finds no mismatch
unmatched :
    (a b : ℕ) (x : Mismatch) (rest : Option Mismatch)
    → (if not (a == b) then some x else rest) ≡ none
    → (a ≡ b) × (rest ≡ none)
unmatched a b x rest e = elim (Bool-cases (a == b)) [
  | inl same ↦ ((==_iff a b).0 same, sym (otherwise (not (a == b)) (some x) rest (ap not same)) ∙ e)
  | inr apart ↦ absurd (none≢some (sym e ∙ ap (λ t. if not t then some x else rest) apart))
]

check_channel-none :
    (c : ChannelState) (n : ℕ) (m : ChannelMsg)
    → check_channel c n m ≡ none
    → (n ≡ m.number) × (c.type ≡ m.type) × (c.func ≡ m.default_func) × (c.flags ≡ m.flags)
unfolding check_channel
check_channel-none c n m e =
    let (e1, r1) = unmatched n m.number channel_number _ e in
    let (e2, r2) = unmatched c.type m.type channel_type _ r1 in
    let (e3, r3) = unmatched c.func m.default_func channel_func _ r2 in
    let (e4, r4) = unmatched c.flags m.flags channel_flags none r3 in (e1, e2, e3, e4)

module _ (get : ℕ → Result ChannelState) where
  abbrev pub Gets : Dict ℕ ChannelState → Type 0
  Gets cs = All (λ (p : ℕ × ChannelState). get p.0 ≡ ok p.1) cs

  check_each-found :
      (n : ℕ) (i : ℕ) (c : ChannelState) (cs : Dict ℕ ChannelState) (m : ChannelMsg)
      (ms : List ChannelMsg)
      → get i ≡ ok c
      → check_each ((i, c) ∷ cs) (m ∷ ms) get n
        ≡ elim (check_channel c n m) [ some e ↦ ok (some e) | none ↦ check_each cs ms get (n + 1) ]
  unfolding check_each
  check_each-found n i c cs m ms e = rw (e, check_each) refl

  check_each-returns :
      (n : ℕ) (cs : Dict ℕ ChannelState) (ms : List ChannelMsg)
      → Gets cs
      → (m : Option Mismatch) × (check_each cs ms get n ≡ ok m)
  unfolding check_each
  check_each-returns n [] ms gets = (none, refl)
  check_each-returns n (c ∷ cs) [] gets = (none, refl)
  check_each-returns n ((i, c) ∷ cs) (m ∷ ms) (here, there) =
      let found = check_each-found n i c cs m ms here in
      let (later, e) = check_each-returns (n + 1) cs ms there in
      elim (Option-cases (check_channel c n m)) [
        | inl agree ↦ (later, found ∙ rw agree e)
        | inr (x, differ) ↦ (some x, found ∙ rw differ refl)
      ]

  pub check_channels-returns :
      (cs : Dict ℕ ChannelState) (ms : List ChannelMsg)
      → Gets cs
      → (m : Option Mismatch) × (check_channels cs ms get ≡ ok m)
  unfolding check_channels
  check_channels-returns cs ms gets = elim (Bool-cases (length ms == length cs)) [
    | inl same ↦
        let (m, e) = check_each-returns 0 cs ms gets in (m, otherwise _ _ _ (ap not same) ∙ e)
    | inr apart ↦ (some channel_count, rw (apart, check_channels) refl)
  ]

  -- The lists are as long as each other.
  check_each-told :
      (n : ℕ) (cs : Dict ℕ ChannelState) (ms : List ChannelMsg)
      → Gets cs
      → length ms ≡ length cs
      → (check_each cs ms get n ≡ ok none) ↔ (told ms ≡ expected n cs)
  unfolding check_each
  check_each-told n [] [] gets e = (λ h. refl, λ h. refl)
  check_each-told n [] (m ∷ ms) gets e = absurd (omega (arith, e))
  check_each-told n (c ∷ cs) [] gets e = absurd (omega (arith, e))
  check_each-told n ((i, c) ∷ cs) (m ∷ ms) (here, there) e =
      let e' : length ms ≡ length cs = omega (arith, e) in
      let (to, from) = check_each-told (n + 1) cs ms there e' in
      let found = check_each-found n i c cs m ms here in
      elim (Option-cases (check_channel c n m)) [
        | inl agree ↦
            let (e1, e2, e3, e4) = check_channel-none c n m agree in
            let step : check_each ((i, c) ∷ cs) (m ∷ ms) get n ≡ check_each cs ms get (n + 1) =
              found ∙ rw agree refl in
            (
              λ h.
                  (let rest = to (sym step ∙ h) in
                    let f1 = sym e1 in
                    let f2 = sym e2 in
                    let f3 = sym e3 in let f4 = sym e4 in λ t. (f1 t, f2 t, f3 t, f4 t) ∷ rest t),
              λ h. step ∙ from (ap tail h),
            )
        | inr (x, differ) ↦
            let step : check_each ((i, c) ∷ cs) (m ∷ ms) get n ≡ ok (some x) =
              found ∙ rw differ refl in
            (
              λ h. absurd (none≢some (ok_injective (sym h ∙ step))),
              λ h.
                  (let first = ap head h in
                    absurd (
                      none≢some (
                        sym (
                          check_channel-agree c n m (sym (ap number_of first))
                            (sym (ap type_of first)) (sym (ap func_of first))
                            (sym (ap flags_of first)))
                        ∙ differ))),
            )
      ]
    where
      tail : List Told → List Told
      tail [] = []
      tail (x ∷ xs) = xs

      head : List Told → Told
      head [] = (0, 0, 0, 0)
      head (x ∷ xs) = x

      number_of : Told → ℕ
      number_of t = t.0

      type_of : Told → ℕ
      type_of t = t.1

      func_of : Told → ℕ
      func_of t = t.2

      flags_of : Told → ℕ
      flags_of t = t.3

-- The server's channels are all found: then the channels that a device tells of match just when they are
-- as many, and each has the number of its position and the type, the function and the flags of the
-- server's channel there.
pub check_channels-told :
    (cs : Dict ℕ ChannelState) (ms : List ChannelMsg) (get : ℕ → Result ChannelState)
    → Gets get cs
    → (check_channels cs ms get ≡ ok none) ↔ (told ms ≡ expected 0 cs)
unfolding check_channels
check_channels-told cs ms get gets = elim (Bool-cases (length ms == length cs)) [
  | inl same ↦
      let step : check_channels cs ms get ≡ check_each cs ms get 0 =
        otherwise _ _ _ (ap not same) in
      let (to, from) = check_each-told get 0 cs ms gets ((==_iff _ _).0 same) in
      (λ h. to (sym step ∙ h), λ h. step ∙ from h)
  | inr apart ↦
      let step : check_channels cs ms get ≡ ok (some channel_count) =
        rw (apart, check_channels) refl in
      (
        λ h. absurd (none≢some (ok_injective (sym h ∙ step))),
        λ h. absurd (
            never_both ((==_iff _ _).1 (length-told ms ∙ ap length h ∙ sym (length-expected 0 cs)))
              apart),
      )
]
  where
    length-told : (xs : List ChannelMsg) → length xs ≡ length (told xs)
    length-told [] = refl
    length-told (x ∷ xs) = ap suc (length-told xs)

    length-expected : (n : ℕ) (xs : Dict ℕ ChannelState) → length xs ≡ length (expected n xs)
    length-expected n [] = refl
    length-expected n (x ∷ xs) = ap suc (length-expected (n + 1) xs)
