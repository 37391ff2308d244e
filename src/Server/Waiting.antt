-- ===== src/Server/Waiting.antt =====
-- The teardowns that wait for the lock, and what they have read of the contexts.
use suplalite.Common.{ℕ, ◌≡◌, sym, ap, ◌∙◌, true, Option, none, some, inl, inr, Option-cases}
use suplalite.Python.Dict.{
  Dict, lookup, put, without, put-cases, without-cases, lookup-without_other,
}
use suplalite.Server.Types.{eq_ℕ}
use suplalite.Server.World.{Role, Conn, superseded_conns}
use suplalite.Server.Clients.{eq_ℕ-IsEquality, none≢some, some_injective}
use suplalite.Server.Ownership.{superseded_old}

-- A connection whose context has the class that its teardown has read, and will not be replaced.
pub record IsLeaving (conns : Dict ℕ Conn) (k : ℕ) (r : Role) : Type 0 where
  pub conn : Conn
  pub there : lookup eq_ℕ conns k ≡ some conn
  pub class : conn.context.role ≡ r
  pub unreplaced : conn.context.replacement ≡ none

abbrev pub AllLeave : Dict ℕ Conn → Dict ℕ Role → Type 0
AllLeave conns ending = (k : ℕ) (r : Role) → lookup eq_ℕ ending k ≡ some r → IsLeaving conns k r

module _ (conns : Dict ℕ Conn) (ending : Dict ℕ Role) (leave : AllLeave conns ending) where
  -- A connection comes or changes, whose teardown does not wait.
  pub put-AllLeave :
      (k : ℕ) (c' : Conn) → lookup eq_ℕ ending k ≡ none → AllLeave (put eq_ℕ conns k c') ending
  put-AllLeave k c' active j r e = elim (put-cases eq_ℕ eq_ℕ-IsEquality conns k c' j) [
    | inl (same, _) ↦ absurd (none≢some (sym active ∙ ap (lookup eq_ℕ ending) same ∙ e))
    | inr (other, e1) ↦
        let l = leave j r e in
        record { conn = l.conn; there = e1 ∙ l.there; class = l.class; unreplaced = l.unreplaced }
  ]

  -- A supersession does not change a context.
  pub superseded-AllLeave : (old : Option ℕ) → AllLeave (superseded_old conns old) ending
  superseded-AllLeave none j r e = leave j r e
  superseded-AllLeave (some i) j r e = elim (Option-cases (lookup eq_ℕ conns i)) [
    | inl e1 ↦ rw (e1, superseded_conns) (leave j r e)
    | inr (c, e1) ↦
        let l = leave j r e in
        elim (put-cases eq_ℕ eq_ℕ-IsEquality conns i (record c { superseded = true }) j) [
          | inl (same, e2) ↦
              let ec : l.conn ≡ c =
                some_injective (sym l.there ∙ ap (lookup eq_ℕ conns) (sym same) ∙ e1) in
              rw (e1, superseded_conns)
                (record {
                  conn = record c { superseded = true };
                  there = e2;
                  class = ap (λ (x : Conn). x.context.role) (sym ec) ∙ l.class;
                  unreplaced = ap (λ (x : Conn). x.context.replacement) (sym ec) ∙ l.unreplaced;
                })
          | inr (other, e2) ↦
              rw (e1, superseded_conns)
                (record {
                  conn = l.conn;
                  there = e2 ∙ l.there;
                  class = l.class;
                  unreplaced = l.unreplaced;
                })
        ]
  ]

  -- A connection goes, and its teardown.
  pub without-AllLeave : (k : ℕ) → AllLeave (without eq_ℕ conns k) (without eq_ℕ ending k)
  without-AllLeave k j r e = elim (without-cases eq_ℕ eq_ℕ-IsEquality ending k j) [
    | inl (same, e1) ↦ absurd (none≢some (sym e1 ∙ e))
    | inr (other, e1) ↦
        let l = leave j r (sym e1 ∙ e) in
        record {
          conn = l.conn;
          there = lookup-without_other eq_ℕ eq_ℕ-IsEquality conns k j other ∙ l.there;
          class = l.class;
          unreplaced = l.unreplaced;
        }
  ]

  -- A connection goes that has no teardown to wait for.
  pub idle-AllLeave : (k : ℕ) → lookup eq_ℕ ending k ≡ none → AllLeave (without eq_ℕ conns k) ending
  idle-AllLeave k active j r e = elim (without-cases eq_ℕ eq_ℕ-IsEquality conns k j) [
    | inl (same, _) ↦ absurd (none≢some (sym active ∙ ap (lookup eq_ℕ ending) same ∙ e))
    | inr (other, e1) ↦
        let l = leave j r e in
        record { conn = l.conn; there = e1 ∙ l.there; class = l.class; unreplaced = l.unreplaced }
  ]

  -- A teardown begins to wait.
  pub ending-AllLeave :
      (k : ℕ) (r' : Role) → IsLeaving conns k r' → AllLeave conns (put eq_ℕ ending k r')
  ending-AllLeave k r' new j r e = elim (put-cases eq_ℕ eq_ℕ-IsEquality ending k r' j) [
    | inl (same, e1) ↦
        let er : r' ≡ r = some_injective (sym e1 ∙ e) in
        record {
          conn = new.conn;
          there = ap (lookup eq_ℕ conns) (sym same) ∙ new.there;
          class = new.class ∙ er;
          unreplaced = new.unreplaced;
        }
    | inr (other, e1) ↦ leave j r (sym e1 ∙ e)
  ]
