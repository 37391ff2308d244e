-- ===== src/Server/Clients.antt =====
-- What holds of the clients whatever the methods that were called.
use suplalite.Common.{
  ℕ, ◌+◌, ◌<◌, ◌≡◌, ◌≢◌, refl, sym, ap, ◌∙◌, none, some, inl, inr, arith, ==_iff, Option-cases,
}
use suplalite.Python.Bytes.{Bytes, ==b-refl, ==b-eq}
use suplalite.Python.Dict.{lookup, put, is_some, IsEquality, put-cases, lookup-put}
use suplalite.Server.Types.{ClientState, ServerState, eq_ℕ, eq_guid, empty_state}
use suplalite.Server.State.{new_client}

pub eq_ℕ-IsEquality : IsEquality eq_ℕ
eq_ℕ-IsEquality j k = ==_iff j k

pub eq_guid-IsEquality : IsEquality eq_guid
eq_guid-IsEquality j k = (==b-eq j k, λ e. rw e (==b-refl k))

-- A client's number is its key and below the next one, and its guid leads to it; a guid leads to a
-- client with that guid; a client is online while it has a connection, and has an event queue then;
-- and a connection belongs to a client.
pub record IsConsistent (s : ServerState) : Type 0 where
  pub numbered :
      (i : ℕ) (c : ClientState)
      → lookup eq_ℕ s.clients i ≡ some c
      → (c.id ≡ i) × (i < s.next_client_id) × (lookup eq_guid s.client_guid_to_id c.guid ≡ some i)
  pub known :
      (g : Bytes) (i : ℕ)
      → lookup eq_guid s.client_guid_to_id g ≡ some i
      → (c : ClientState) × (lookup eq_ℕ s.clients i ≡ some c) × (c.guid ≡ g)
  pub online :
      (i : ℕ) (c : ClientState)
      → lookup eq_ℕ s.clients i ≡ some c
      → c.online ≡ is_some (lookup eq_ℕ s.client_connections i)
  pub queues :
      (i : ℕ)
      → is_some (lookup eq_ℕ s.client_events i) ≡ is_some (lookup eq_ℕ s.client_connections i)
  pub strangers :
      (i : ℕ) → lookup eq_ℕ s.clients i ≡ none → lookup eq_ℕ s.client_connections i ≡ none

pub empty_state-IsConsistent : IsConsistent empty_state
unfolding lookup
empty_state-IsConsistent = record {
  numbered = λ i c e. cc;
  known = λ g i e. cc;
  online = λ i c e. cc;
  queues = λ i. refl;
  strangers = λ i e. refl;
}

pub none≢some {ℓ} : {A : Type ℓ} {a : A} → none ≢ some a
none≢some e = cc

pub some_injective {ℓ} : {A : Type ℓ} {a b : A} → some a ≡ some b → a ≡ b
some_injective e = cc

unknown : (s : ServerState) → IsConsistent s → lookup eq_ℕ s.clients s.next_client_id ≡ none
unknown s inv = elim (Option-cases (lookup eq_ℕ s.clients s.next_client_id)) [
  | inl e ↦ e
  | inr (c, e) ↦
      absurd (omega (arith, (let (_, below, _) = inv.numbered s.next_client_id c e in below)))
]

module _ (s : ServerState) (g : Bytes) (inv : IsConsistent s)
    (new : lookup eq_guid s.client_guid_to_id g ≡ none) where
  abbrev pub added : ServerState
  added = record s {
    next_client_id = s.next_client_id + 1;
    clients = put eq_ℕ s.clients s.next_client_id (new_client s.next_client_id g);
    client_guid_to_id = put eq_guid s.client_guid_to_id g s.next_client_id;
  }

  pub added-IsConsistent : IsConsistent added
  added-IsConsistent =
      let client = new_client s.next_client_id g in
      let by_id = put-cases eq_ℕ eq_ℕ-IsEquality s.clients s.next_client_id client in
      let by_guid = put-cases eq_guid eq_guid-IsEquality s.client_guid_to_id g s.next_client_id in
      record {
        numbered = λ i c e. elim (by_id i) [
          | inl (same, e') ↦
              let ec : client ≡ c = cc in
              rw (← ec) (
                same,
                omega (arith, same),
                lookup-put eq_guid eq_guid-IsEquality s.client_guid_to_id g s.next_client_id
                    ∙ ap some same,
              )
          | inr (other, e') ↦
              let (e1, e2, e3) = inv.numbered i c (sym e' ∙ e) in
              (
                e1,
                omega (arith, e2),
                elim (by_guid c.guid) [
                  | inl (same, e4) ↦
                      absurd
                        (none≢some (sym new ∙ ap (lookup eq_guid s.client_guid_to_id) same ∙ e3))
                  | inr (apart, e4) ↦ e4 ∙ e3
                ],
              )
        ];
        known = λ h i e. elim (by_guid h) [
          | inl (same, e') ↦ (
            client,
            rw (some_injective (sym e ∙ e'))
                (lookup-put eq_ℕ eq_ℕ-IsEquality s.clients s.next_client_id client),
            same,
          )
          | inr (other, e') ↦
              let (c, e1, e2) = inv.known h i (sym e' ∙ e) in
              elim (by_id i) [
                | inl (same, e4) ↦
                    absurd (none≢some (sym (unknown s inv) ∙ ap (lookup eq_ℕ s.clients) same ∙ e1))
                | inr (apart, e4) ↦ (c, e4 ∙ e1, e2)
              ]
        ];
        online = λ i c e. elim (by_id i) [
          | inl (same, e') ↦
              let ec : client ≡ c = cc in
              rw (← ec, ← same, inv.strangers s.next_client_id (unknown s inv))
          | inr (other, e') ↦ inv.online i c (sym e' ∙ e)
        ];
        queues = inv.queues;
        strangers = λ i e. elim (by_id i) [
          | inl (same, e') ↦ absurd (none≢some (sym e ∙ e'))
          | inr (other, e') ↦ inv.strangers i (sym e' ∙ e)
        ];
      }
