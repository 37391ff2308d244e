-- ===== src/Server/Slots.antt =====
-- The slots while a connection registers that has none.
use suplalite.Common.{
  ℕ, ◌≡◌, ◌≢◌, refl, sym, ap, ◌∙◌, true, false, Option, none, some, inl, inr, Option-cases,
}
use suplalite.Python.Text.{Str}
use suplalite.Python.Dict.{Dict, lookup, put}
use suplalite.Server.Types.{ServerState, eq_ℕ}
use suplalite.Server.World.{
  role_after, next_role, Role, anonymous, client, device, Conn, superseded_conns,
}
use suplalite.Server.Clients.{none≢some, some_injective}
use suplalite.Server.Ownership.{Owns, superseded_old, Owns-same, Owns-other}
use suplalite.Server.Handling.{renamed}
use suplalite.Server.Owned.{client_of, device_of, IsOwned}

-- A connection that has not registered: it handles the first calls.
pub record IsFree (conns : Dict ℕ Conn) (k : ℕ) (c : Conn) : Type 0 where
  pub there : lookup eq_ℕ conns k ≡ some c
  pub live : c.superseded ≡ false
  pub unregistered : c.context.role ≡ anonymous
  pub unreplaced : c.context.replacement ≡ none

pub IsFree-next_role :
    (conns : Dict ℕ Conn) (k : ℕ) (c : Conn) → IsFree conns k c → next_role c.context ≡ anonymous
IsFree-next_role conns k c free =
    ap (λ o. role_after o c.context.role) free.unreplaced ∙ free.unregistered

-- Nobody's slot names it.
Owns-free :
    (kind : Role → Option ℕ) (conns : Dict ℕ Conn) (table : Dict ℕ ℕ) (k : ℕ) (c : Conn)
    → Owns kind conns table
    → IsFree conns k c
    → kind anonymous ≡ none
    → (i : ℕ) → lookup eq_ℕ table i ≢ some k
Owns-free kind conns table k c owns free of_none i e =
    let (d, e1, e2, e3) = owns.held i k e in
    let same : d ≡ c = some_injective (sym e1 ∙ free.there) in
    none≢some (
      sym of_none
      ∙ ap kind (sym (IsFree-next_role conns k c free))
      ∙ ap (λ (x : Conn). kind (next_role x.context)) (sym same)
      ∙ e3)

module _ (s : ServerState) (conns : Dict ℕ Conn) (owned : IsOwned s conns) (k : ℕ) (c : Conn)
    (free : IsFree conns k c) where
  -- The connections when `old` has been superseded, and this one will have a role.
  abbrev pub taken : Option ℕ → Str → Role → Dict ℕ Conn
  taken old name' role' = put eq_ℕ (superseded_old conns old) k (renamed c name' role')

  pub client_slot-free : (i : ℕ) → lookup eq_ℕ s.client_connections i ≢ some k
  client_slot-free = Owns-free client_of conns s.client_connections k c owned.client_slots free refl

  pub device_slot-free : (i : ℕ) → lookup eq_ℕ s.device_connections i ≢ some k
  device_slot-free = Owns-free device_of conns s.device_connections k c owned.device_slots free refl

-- A slot of one kind is taken: the slots of the other kind stay.
pub Owns-beside :
    (kind other : Role → Option ℕ)
    → ((r : Role) (i : ℕ) → kind r ≡ some i → other r ≡ none)
    → other anonymous ≡ none
    → (conns : Dict ℕ Conn) (table table' : Dict ℕ ℕ) → Owns kind conns table
    → Owns other conns table'
    → (k i : ℕ) (c c' : Conn) → lookup eq_ℕ (superseded_old conns (lookup eq_ℕ table i)) k ≡ some c
    → next_role c.context ≡ anonymous
    → other (next_role c'.context) ≡ none
    → Owns other (put eq_ℕ (superseded_old conns (lookup eq_ℕ table i)) k c') table'
Owns-beside kind other apart of_none conns table table' owns owns' k i c c' there unregistered
      role' =
    elim (Option-cases (lookup eq_ℕ table i)) [
      | inl e ↦
          Owns-other other (superseded_old conns (lookup eq_ℕ table i)) table'
            (Owns-same other conns table' owns' (superseded_old conns (lookup eq_ℕ table i))
              (λ j. rw e refl))
            k c' before role'
      | inr (j, e) ↦
          let (d, e1, e2, e3) = owns.held i j e in
          let gone : Conn = record d { superseded = true } in
          let kept : Owns other (put eq_ℕ conns j gone) table' =
            Owns-other other conns table' owns' j gone
              (λ d' e4.
                apart (next_role d'.context) i (
                  ap (λ (x : Conn). kind (next_role x.context)) (some_injective (sym e4 ∙ e1))
                  ∙ e3))
              (apart (next_role d.context) i e3) in
          Owns-other other (superseded_old conns (lookup eq_ℕ table i)) table'
            (Owns-same other (put eq_ℕ conns j gone) table' kept
              (superseded_old conns (lookup eq_ℕ table i))
              (λ j'. rw (e, e1, superseded_conns) refl))
            k c' before role'
    ]
  where
    before :
        (d : Conn)
        → lookup eq_ℕ (superseded_old conns (lookup eq_ℕ table i)) k ≡ some d
        → other (next_role d.context) ≡ none
    before d e =
        ap (λ (x : Conn). other (next_role x.context)) (some_injective (sym e ∙ there))
        ∙ ap other unregistered
        ∙ of_none

pub client-apart : (r : Role) (i : ℕ) → client_of r ≡ some i → device_of r ≡ none
client-apart anonymous i e = refl
client-apart (client g j) i e = refl
client-apart (device g j) i e = absurd (none≢some e)

pub device-apart : (r : Role) (i : ℕ) → device_of r ≡ some i → client_of r ≡ none
device-apart anonymous i e = refl
device-apart (client g j) i e = absurd (none≢some e)
device-apart (device g j) i e = refl
