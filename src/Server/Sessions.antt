-- ===== src/Server/Sessions.antt =====
-- The identity of clients, and their sessions.
use suplalite.Common.{ℕ, ◌≡◌, ◌≢◌, refl, sym, ap, ◌∙◌, true, false, some, inl, inr, Option-cases}
use suplalite.Python.Result.{ok, err, key_error}
use suplalite.Python.Bytes.{Bytes}
use suplalite.Python.Dict.{lookup, lookup-put, put-cases}
use suplalite.Server.Types.{ClientState, ServerState, Connection, EventQueue, eq_ℕ, eq_guid}
use suplalite.Server.State.{add_client, client_connected, change_client, reset_session, get_client}
use suplalite.Server.Clients.{
  IsConsistent, eq_ℕ-IsEquality, eq_guid-IsEquality, some_injective, none≢some,
}
use suplalite.Server.Reachable.{add_client-IsConsistent}

pub key_error≢ok {ℓ} : {A : Type ℓ} {a : A} → err key_error ≢ ok a
key_error≢ok e = cc

pub ok_injective {ℓ} : {A : Type ℓ} {a b : A} → ok a ≡ ok b → a ≡ b
ok_injective e = cc

-- The guid leads to the number that `add_client` returned.
pub add_client-lookup :
    (s : ServerState) (g : Bytes)
    → lookup eq_guid (add_client s g).1.client_guid_to_id g ≡ some (add_client s g).0
unfolding add_client
add_client-lookup s g = elim (Option-cases (lookup eq_guid s.client_guid_to_id g)) [
  | inl e ↦
      rw (e, add_client)
        (lookup-put eq_guid eq_guid-IsEquality s.client_guid_to_id g s.next_client_id)
  | inr (i, e) ↦ rw (e, add_client) e
]

add_client-known :
    (s : ServerState) (g : Bytes) (i : ℕ)
    → lookup eq_guid s.client_guid_to_id g ≡ some i
    → add_client s g ≡ (i, s)
unfolding add_client
add_client-known s g i e = rw (e, add_client)

-- A number that a guid leads to stays.
add_client-keeps :
    (s : ServerState) (g h : Bytes) (i : ℕ)
    → lookup eq_guid s.client_guid_to_id g ≡ some i
    → lookup eq_guid (add_client s h).1.client_guid_to_id g ≡ some i
unfolding add_client
add_client-keeps s g h i e = elim (Option-cases (lookup eq_guid s.client_guid_to_id h)) [
  | inl new ↦ elim (put-cases eq_guid eq_guid-IsEquality s.client_guid_to_id h s.next_client_id g) [
    | inl (same, _) ↦
        absurd (none≢some (sym new ∙ ap (lookup eq_guid s.client_guid_to_id) same ∙ e))
    | inr (other, e') ↦ rw (new, add_client) (e' ∙ e)
  ]
  | inr (j, old) ↦ rw (old, add_client) e
]

-- Adding a guid a second time returns the number of the first time and leaves the state as it is.
pub add_client-add_client :
    (s : ServerState) (g : Bytes)
    → add_client (add_client s g).1 g ≡ ((add_client s g).0, (add_client s g).1)
add_client-add_client s g =
    add_client-known (add_client s g).1 g (add_client s g).0 (add_client-lookup s g)

-- From a consistent state: if two guids, added one after the other, get the same number, they are
-- equal.
pub add_client-distinct :
    (s : ServerState) (g h : Bytes)
    → IsConsistent s
    → (add_client s g).0 ≡ (add_client (add_client s g).1 h).0
    → g ≡ h
add_client-distinct s g h inv e =
    let s' = (add_client s g).1 in
    let both = add_client-IsConsistent s' h (add_client-IsConsistent s g inv) in
    let (c, there, is_g) =
      both.known g (add_client s g).0
        (add_client-keeps s' g h (add_client s g).0 (add_client-lookup s g)) in
    let (d, there', is_h) = both.known h (add_client s' h).0 (add_client-lookup s' h) in
    let same : c ≡ d =
      some_injective (sym there ∙ ap (lookup eq_ℕ (add_client s' h).1.clients) e ∙ there') in
    sym is_g ∙ ap (λ x. x.guid) same ∙ is_h

get_client-lookup :
    (s : ServerState) (i : ℕ) (c : ClientState)
    → get_client s i ≡ ok c
    → lookup eq_ℕ s.clients i ≡ some c
unfolding get_client
get_client-lookup s i c e = elim (Option-cases (lookup eq_ℕ s.clients i)) [
  | inl e' ↦ absurd (key_error≢ok (rw e' at e))
  | inr (d, e') ↦ e' ∙ ap some (ok_injective (rw e' at e))
]

-- For a known client, `client_connected` returns the connection that it had, and the client is then
-- online in a new session: not authorized, nothing sent.
pub get_client-client_connected :
    (s : ServerState) (i : ℕ) (events : EventQueue) (conn : Connection) (c : ClientState)
    → get_client s i ≡ ok c
    → ((client_connected s i events conn).0 ≡ ok (lookup eq_ℕ s.client_connections i))
      × (get_client (client_connected s i events conn).1 i
          ≡ ok (record {
            id = c.id;
            guid = c.guid;
            online = true;
            authorized = false;
            sent_channels = false;
            next_channel_batch = 0;
            sent_channel_relations = false;
            sent_scenes = false;
            next_scene_batch = 0;
          }))
unfolding get_client client_connected
get_client-client_connected s i events conn c e =
    let there = get_client-lookup s i c e in
    rw (there, change_client)
      (
        refl,
        rw (
            lookup-put eq_ℕ eq_ℕ-IsEquality s.clients i
              (reset_session (record c { online = true }))),
      )
