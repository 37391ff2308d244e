-- ===== src/Server/Ownership.antt =====
-- Which connection holds the slot of a client, or of a device: the connection that the state names is
-- there, has not been superseded, and has the role of that client, or has it once its context has been
-- replaced.
use suplalite.Common.{
  never_both, ℕ, ◌≡◌, ◌≢◌, refl, sym, ap, ◌∙◌, true, false, Option, none, some, inl, inr,
  Option-cases,
}
use suplalite.Python.Dict.{Dict, lookup, put, put-cases, lookup-put, lookup-put_other}
use suplalite.Server.Types.{eq_ℕ}
use suplalite.Server.World.{next_role, Role, Conn, superseded_conns}
use suplalite.Server.Clients.{eq_ℕ-IsEquality, none≢some, some_injective}

abbrev pub superseded_old : Dict ℕ Conn → Option ℕ → Dict ℕ Conn
superseded_old conns none = conns
superseded_old conns (some k) = superseded_conns conns k

-- The lookups behind a supersession
pub lookup-superseded_other :
    (conns : Dict ℕ Conn) (old : Option ℕ) (j : ℕ)
    → old ≢ some j
    → lookup eq_ℕ (superseded_old conns old) j ≡ lookup eq_ℕ conns j
lookup-superseded_other conns none j h = refl
lookup-superseded_other conns (some k) j h = elim (Option-cases (lookup eq_ℕ conns k)) [
  | inl e ↦ rw (e, superseded_conns) refl
  | inr (c, e) ↦
      rw (e, superseded_conns)
        (lookup-put_other eq_ℕ eq_ℕ-IsEquality conns k (record c { superseded = true }) j
          (λ e'. h (ap some e')))
]

lookup-superseded_live :
    (conns : Dict ℕ Conn) (old : Option ℕ) (j : ℕ) (c : Conn)
    → lookup eq_ℕ (superseded_old conns old) j ≡ some c
    → c.superseded ≡ false
    → (old ≢ some j) × (lookup eq_ℕ conns j ≡ some c)
lookup-superseded_live conns none j c e live = (none≢some, e)
lookup-superseded_live conns (some k) j c e live = elim (Option-cases (lookup eq_ℕ conns k)) [
  | inl e1 ↦
      let e2 : lookup eq_ℕ conns j ≡ some c = sym (rw (e1, superseded_conns) refl) ∙ e in
      (λ same. none≢some (sym e1 ∙ ap (lookup eq_ℕ conns) (some_injective same) ∙ e2), e2)
  | inr (c1, e1) ↦
      let gone : Conn = record c1 { superseded = true } in
      let e2 : lookup eq_ℕ (put eq_ℕ conns k gone) j ≡ some c =
        sym (rw (e1, superseded_conns) refl) ∙ e in
      elim (put-cases eq_ℕ eq_ℕ-IsEquality conns k gone j) [
        | inl (same, e3) ↦
            let e4 : gone ≡ c = some_injective (sym e3 ∙ e2) in
            absurd (never_both (ap (λ (x : Conn). x.superseded) (sym e4)) live)
        | inr (other, e3) ↦ (λ same. other (some_injective same), sym e3 ∙ e2)
      ]
]

module _ (kind : Role → Option ℕ) where
  pub record Owns (conns : Dict ℕ Conn) (table : Dict ℕ ℕ) : Type 0 where
    pub held :
        (i k : ℕ)
        → lookup eq_ℕ table i ≡ some k
        → (c : Conn) × (lookup eq_ℕ conns k ≡ some c)
          × (c.superseded ≡ false)
          × (kind (next_role c.context) ≡ some i)

  module _ (conns : Dict ℕ Conn) (table : Dict ℕ ℕ) (owns : Owns conns table) where
    -- Only what is found counts.
    pub Owns-same :
        (conns' : Dict ℕ Conn)
        → ((k : ℕ) → lookup eq_ℕ conns' k ≡ lookup eq_ℕ conns k)
        → Owns conns' table
    Owns-same conns' same = record {
      held = λ i k e. let (c, e1, e2, e3) = owns.held i k e in (c, same k ∙ e1, e2, e3);
    }

    -- A connection of another kind comes, or changes.
    pub Owns-other :
        (k : ℕ) (c' : Conn)
        → ((c : Conn) → lookup eq_ℕ conns k ≡ some c → kind (next_role c.context) ≡ none)
        → kind (next_role c'.context) ≡ none
        → Owns (put eq_ℕ conns k c') table
    Owns-other k c' before after =
        let by_k = put-cases eq_ℕ eq_ℕ-IsEquality conns k c' in
        record {
          held = λ i j e.
              let (c, e1, e2, e3) = owns.held i j e in
              elim (by_k j) [
                | inl (same, _) ↦
                    absurd (none≢some (sym (before c (ap (lookup eq_ℕ conns) same ∙ e1)) ∙ e3))
                | inr (other, e4) ↦ (c, e4 ∙ e1, e2, e3)
              ];
        }

    -- A connection that owns nothing takes a slot, and the one that had it is superseded.
    pub Owns-taken :
        (k i : ℕ) (c c' : Conn)
        → lookup eq_ℕ conns k ≡ some c
        → kind (next_role c.context) ≡ none
        → c'.superseded ≡ false
        → kind (next_role c'.context) ≡ some i
        → Owns (put eq_ℕ (superseded_old conns (lookup eq_ℕ table i)) k c') (put eq_ℕ table i k)
    Owns-taken k i c c' there free fresh role =
        let old = lookup eq_ℕ table i in
        let conns' = superseded_old conns old in
        let by_k = put-cases eq_ℕ eq_ℕ-IsEquality conns' k c' in
        let by_i = put-cases eq_ℕ eq_ℕ-IsEquality table i k in
        record {
          held = λ j k' e. elim (by_i j) [
            | inl (same, e1) ↦
                let ek : k ≡ k' = some_injective (sym e1 ∙ e) in
                (
                  c',
                  rw (sym ek) (lookup-put eq_ℕ eq_ℕ-IsEquality conns' k c'),
                  fresh,
                  role ∙ ap some same,
                )
            | inr (other, e1) ↦
                let (d, e2, e3, e4) = owns.held j k' (sym e1 ∙ e) in
                let apart : k ≢ k' = λ same. none≢some (
                  sym free
                  ∙ ap (λ (x : Conn). kind (next_role x.context))
                      (some_injective (sym there ∙ ap (lookup eq_ℕ conns) same ∙ e2))
                  ∙ e4) in
                let stays : old ≢ some k' = λ same.
                  let (d', e5, e6, e7) = owns.held i k' same in
                  other (
                    some_injective (
                      sym e7
                      ∙ ap (λ (x : Conn). kind (next_role x.context)) (some_injective (sym e5 ∙ e2))
                      ∙ e4)) in
                (
                  d,
                  lookup-put_other eq_ℕ eq_ℕ-IsEquality conns' k c' k' apart
                      ∙ lookup-superseded_other conns old k' stays
                      ∙ e2,
                  e3,
                  e4,
                )
          ];
        }
