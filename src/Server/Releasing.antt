-- ===== src/Server/Releasing.antt =====
-- How a connection gives up what it holds, and how it changes when it keeps it.
use suplalite.Common.{ℕ, ◌≡◌, ◌≢◌, sym, ap, ◌∙◌, Option, some, inl, inr}
use suplalite.Python.Dict.{
  Dict, lookup, put, without, put-cases, without-cases, lookup-without_other,
}
use suplalite.Server.Types.{eq_ℕ}
use suplalite.Server.World.{next_role, Role, Conn}
use suplalite.Server.Clients.{eq_ℕ-IsEquality, none≢some, some_injective}
use suplalite.Server.Ownership.{Owns}

module _ (kind : Role → Option ℕ) (conns : Dict ℕ Conn) (table : Dict ℕ ℕ)
    (owns : Owns kind conns table) where
  -- A connection that owns a slot ends, and the slot is given back.
  pub Owns-released :
      (k i : ℕ) (c : Conn)
      → lookup eq_ℕ conns k ≡ some c
      → kind (next_role c.context) ≡ some i
      → Owns kind (without eq_ℕ conns k) (without eq_ℕ table i)
  Owns-released k i c there role =
      let by_k = without-cases eq_ℕ eq_ℕ-IsEquality conns k in
      let by_i = without-cases eq_ℕ eq_ℕ-IsEquality table i in
      record {
        held = λ j k' e. elim (by_i j) [
          | inl (same, e1) ↦ absurd (none≢some (sym e1 ∙ e))
          | inr (other, e1) ↦
              let (d, e2, e3, e4) = owns.held j k' (sym e1 ∙ e) in
              let apart : k ≢ k' = λ same. other (
                some_injective (
                  sym role
                  ∙ ap (λ (x : Conn). kind (next_role x.context))
                      (some_injective (sym there ∙ ap (lookup eq_ℕ conns) same ∙ e2))
                  ∙ e4)) in
              (d, lookup-without_other eq_ℕ eq_ℕ-IsEquality conns k k' apart ∙ e2, e3, e4)
        ];
      }

  -- A connection that owns no slot ends.
  pub Owns-gone :
      (k : ℕ) → ((i : ℕ) → lookup eq_ℕ table i ≢ some k) → Owns kind (without eq_ℕ conns k) table
  Owns-gone k free =
      let by_k = without-cases eq_ℕ eq_ℕ-IsEquality conns k in
      record {
        held = λ j k' e.
            let (d, e2, e3, e4) = owns.held j k' e in
            let apart : k ≢ k' = λ same. free j (e ∙ ap some (sym same)) in
            (d, lookup-without_other eq_ℕ eq_ℕ-IsEquality conns k k' apart ∙ e2, e3, e4);
      }

  -- A connection changes, but neither its role nor whether it has been superseded.
  pub Owns-kept :
      (k : ℕ) (c c' : Conn)
      → lookup eq_ℕ conns k ≡ some c
      → c'.superseded ≡ c.superseded
      → next_role c'.context ≡ next_role c.context
      → Owns kind (put eq_ℕ conns k c') table
  Owns-kept k c c' there same_end same_role =
      let by_k = put-cases eq_ℕ eq_ℕ-IsEquality conns k c' in
      record {
        held = λ i j e.
            let (d, e1, e2, e3) = owns.held i j e in
            elim (by_k j) [
              | inl (same, e4) ↦
                  let ed : c ≡ d = some_injective (sym there ∙ ap (lookup eq_ℕ conns) same ∙ e1) in
                  (
                    c',
                    e4,
                    same_end ∙ ap (λ (x : Conn). x.superseded) ed ∙ e2,
                    ap kind same_role ∙ ap (λ (x : Conn). kind (next_role x.context)) ed ∙ e3,
                  )
              | inr (other, e4) ↦ (d, e4 ∙ e1, e2, e3)
            ];
      }
