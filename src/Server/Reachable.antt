-- ===== src/Server/Reachable.antt =====
-- The calls that change the clients, one after the other, from the start.
use suplalite.Common.{ℕ, ◌≡◌, ◌≢◌, refl, sym, ap, ◌∙◌, true, false, some, inl, inr, Option-cases}
use suplalite.Python.Bytes.{Bytes}
use suplalite.Python.Dict.{
  Dict, lookup, put, without, is_some, put-cases, without-cases, lookup-put, lookup-put_other,
  lookup-without, lookup-without_other,
}
use suplalite.Server.Types.{
  ClientState, ServerState, Connection, EventQueue, eq_ℕ, eq_guid, empty_state,
}
use suplalite.Server.State.{
  add_client, client_connected, client_disconnected, change_client, reset_session,
  set_client_authorized, set_client_sent_channels, set_client_next_channel_batch,
  set_client_sent_channel_relations, set_client_sent_scenes, set_client_next_scene_batch,
}
use suplalite.Server.Clients.{
  IsConsistent, empty_state-IsConsistent, eq_ℕ-IsEquality, none≢some, some_injective,
  added-IsConsistent,
}

module _ (s : ServerState) (inv : IsConsistent s) (i : ℕ) (c : ClientState)
    (there : lookup eq_ℕ s.clients i ≡ some c) where
  -- A client's state is replaced, and its connection and queue are set or taken away.
  replaced-IsConsistent :
      (c' : ClientState) (conns : Dict ℕ Connection) (events : Dict ℕ EventQueue)
      → c'.id ≡ c.id
      → c'.guid ≡ c.guid
      → c'.online ≡ is_some (lookup eq_ℕ conns i)
      → ((j : ℕ) → i ≢ j → lookup eq_ℕ conns j ≡ lookup eq_ℕ s.client_connections j)
      → ((j : ℕ) → is_some (lookup eq_ℕ events j) ≡ is_some (lookup eq_ℕ conns j))
      → IsConsistent (record s {
        clients = put eq_ℕ s.clients i c';
        client_connections = conns;
        client_events = events;
      })
  replaced-IsConsistent c' conns events same_id same_guid is_online others both =
      let by_id = put-cases eq_ℕ eq_ℕ-IsEquality s.clients i c' in
      record {
        numbered = λ j d e. elim (by_id j) [
          | inl (same, e') ↦
              let ed : c' ≡ d = some_injective (sym e' ∙ e) in
              let (e1, e2, e3) = inv.numbered i c there in
              rw (← ed, ← same)
                (same_id ∙ e1, e2, ap (lookup eq_guid s.client_guid_to_id) same_guid ∙ e3)
          | inr (other, e') ↦ inv.numbered j d (sym e' ∙ e)
        ];
        known = λ g j e.
            let (d, e1, e2) = inv.known g j e in
            elim (by_id j) [
              | inl (same, e') ↦
                  let ed : c ≡ d =
                    some_injective (sym there ∙ ap (lookup eq_ℕ s.clients) same ∙ e1) in
                  (c', e', same_guid ∙ ap (λ x. x.guid) ed ∙ e2)
              | inr (other, e') ↦ (d, e' ∙ e1, e2)
            ];
        online = λ j d e. elim (by_id j) [
          | inl (same, e') ↦
              let ed : c' ≡ d = some_injective (sym e' ∙ e) in rw (← ed, ← same) is_online
          | inr (other, e') ↦ inv.online j d (sym e' ∙ e) ∙ sym (ap is_some (others j other))
        ];
        queues = both;
        strangers = λ j e. elim (by_id j) [
          | inl (same, e') ↦ absurd (none≢some (sym e ∙ e'))
          | inr (other, e') ↦ others j other ∙ inv.strangers j (sym e' ∙ e)
        ];
      }

  disconnected : IsConsistent (record s {
    clients = put eq_ℕ s.clients i (reset_session (record c { online = false }));
    client_connections = without eq_ℕ s.client_connections i;
    client_events = without eq_ℕ s.client_events i;
  })
  disconnected =
      replaced-IsConsistent (reset_session (record c { online = false }))
        (without eq_ℕ s.client_connections i) (without eq_ℕ s.client_events i) refl refl
        (ap is_some (sym (lookup-without eq_ℕ eq_ℕ-IsEquality s.client_connections i)))
        (λ j other. lookup-without_other eq_ℕ eq_ℕ-IsEquality s.client_connections i j other)
        (λ j. elim (without-cases eq_ℕ eq_ℕ-IsEquality s.client_connections i j) [
          | inl (same, e) ↦
              rw (e, ← same) (ap is_some (lookup-without eq_ℕ eq_ℕ-IsEquality s.client_events i))
          | inr (other, e) ↦
              ap is_some (lookup-without_other eq_ℕ eq_ℕ-IsEquality s.client_events i j other)
              ∙ inv.queues j
              ∙ sym (ap is_some e)
        ])

  -- A client's state is replaced, and its connection stays.
  changed-IsConsistent :
      (c' : ClientState)
      → c'.id ≡ c.id
      → c'.guid ≡ c.guid
      → c'.online ≡ c.online
      → IsConsistent (record s { clients = put eq_ℕ s.clients i c' })
  changed-IsConsistent c' same_id same_guid same_online =
      replaced-IsConsistent c' s.client_connections s.client_events same_id same_guid
        (same_online ∙ inv.online i c there) (λ j other. refl) inv.queues

none_is_some : false ≢ true
none_is_some e = cc

change_client-IsConsistent :
    (s : ServerState) (i : ℕ) (f : ClientState → ClientState)
    → IsConsistent s
    → ((c : ClientState) → ((f c).id ≡ c.id) × ((f c).guid ≡ c.guid) × ((f c).online ≡ c.online))
    → IsConsistent (change_client s i f).1
change_client-IsConsistent s i f inv keeps = elim (Option-cases (lookup eq_ℕ s.clients i)) [
  | inl e ↦ rw (e, change_client) inv
  | inr (c, there) ↦
      let (e1, e2, e3) = keeps c in
      rw (there, change_client) (changed-IsConsistent s inv i c there (f c) e1 e2 e3)
]

-- A number that the handlers have: one of a client.
abbrev pub IsClient : ServerState → ℕ → Type 0
IsClient s i = (c : ClientState) × (lookup eq_ℕ s.clients i ≡ some c)

pub add_client-IsConsistent :
    (s : ServerState) (g : Bytes) → IsConsistent s → IsConsistent (add_client s g).1
unfolding add_client
add_client-IsConsistent s g inv = elim (Option-cases (lookup eq_guid s.client_guid_to_id g)) [
  | inl e ↦ rw (e, add_client) (added-IsConsistent s g inv e)
  | inr (i, e) ↦ rw (e, add_client) inv
]

-- A client that connects is online in a new session, whatever it had before.
pub client_connected-IsConsistent :
    (s : ServerState) (i : ℕ) (events : EventQueue) (conn : Connection)
    → IsConsistent s
    → IsClient s i
    → IsConsistent (client_connected s i events conn).1
unfolding client_connected
client_connected-IsConsistent s i events conn inv (c, there) =
    rw (there, client_connected, change_client)
      (replaced-IsConsistent s inv i c there (reset_session (record c { online = true }))
        (put eq_ℕ s.client_connections i conn) (put eq_ℕ s.client_events i events) refl refl
        (ap is_some (sym (lookup-put eq_ℕ eq_ℕ-IsEquality s.client_connections i conn)))
        (λ j other. lookup-put_other eq_ℕ eq_ℕ-IsEquality s.client_connections i conn j other)
        (λ j. elim (put-cases eq_ℕ eq_ℕ-IsEquality s.client_connections i conn j) [
          | inl (same, e) ↦
              rw (e, ← same) (ap is_some (lookup-put eq_ℕ eq_ℕ-IsEquality s.client_events i events))
          | inr (other, e) ↦
              ap is_some (lookup-put_other eq_ℕ eq_ℕ-IsEquality s.client_events i events j other)
              ∙ inv.queues j
              ∙ sym (ap is_some e)
        ]))

pub client_disconnected-IsConsistent :
    (s : ServerState) (i : ℕ) → IsConsistent s → IsConsistent (client_disconnected s i).1
unfolding client_disconnected
client_disconnected-IsConsistent s i inv =
    elim (Option-cases (lookup eq_ℕ s.client_connections i)) [
      | inl e ↦ rw (e, client_disconnected) inv
      | inr (conn, e) ↦ elim (Option-cases (lookup eq_ℕ s.client_events i)) [
        | inl e1 ↦ absurd (none_is_some (sym (ap is_some e1) ∙ inv.queues i ∙ ap is_some e))
        | inr (events, e1) ↦ elim (Option-cases (lookup eq_ℕ s.clients i)) [
          | inl e2 ↦ absurd (none≢some (sym (inv.strangers i e2) ∙ e))
          | inr (c, there) ↦
              rw (e, e1, there, client_disconnected, change_client) (disconnected s inv i c there)
        ]
      ]
    ]

-- One call of a method that changes the clients. The handlers connect clients that they have added.
pub data Step (s : ServerState) : ServerState → Type 0 where
  add : (g : Bytes) → Step s (add_client s g).1
  connect :
      (i : ℕ) (events : EventQueue) (conn : Connection)
      → IsClient s i
      → Step s (client_connected s i events conn).1
  disconnect : (i : ℕ) → Step s (client_disconnected s i).1
  authorize : (i : ℕ) → Step s (set_client_authorized s i).1
  send_channels : (i : ℕ) → Step s (set_client_sent_channels s i).1
  send_channel_batch : (i : ℕ) → Step s (set_client_next_channel_batch s i).1
  send_channel_relations : (i : ℕ) → Step s (set_client_sent_channel_relations s i).1
  send_scenes : (i : ℕ) → Step s (set_client_sent_scenes s i).1
  send_scene_batch : (i : ℕ) → Step s (set_client_next_scene_batch s i).1

pub data Reachable : ServerState → Type 0 where
  start : Reachable empty_state
  next : {s s' : ServerState} → Reachable s → Step s s' → Reachable s'

Step-IsConsistent : (s s' : ServerState) → Step s s' → IsConsistent s → IsConsistent s'
unfolding set_client_authorized set_client_sent_channels set_client_next_channel_batch
    set_client_sent_channel_relations set_client_sent_scenes set_client_next_scene_batch
Step-IsConsistent s _ (add g) inv = add_client-IsConsistent s g inv
Step-IsConsistent s _ (connect i events conn c) inv =
    client_connected-IsConsistent s i events conn inv c
Step-IsConsistent s _ (disconnect i) inv = client_disconnected-IsConsistent s i inv
Step-IsConsistent s _ (authorize i) inv =
    change_client-IsConsistent s i _ inv (λ c. (refl, refl, refl))
Step-IsConsistent s _ (send_channels i) inv =
    change_client-IsConsistent s i _ inv (λ c. (refl, refl, refl))
Step-IsConsistent s _ (send_channel_batch i) inv =
    change_client-IsConsistent s i _ inv (λ c. (refl, refl, refl))
Step-IsConsistent s _ (send_channel_relations i) inv =
    change_client-IsConsistent s i _ inv (λ c. (refl, refl, refl))
Step-IsConsistent s _ (send_scenes i) inv =
    change_client-IsConsistent s i _ inv (λ c. (refl, refl, refl))
Step-IsConsistent s _ (send_scene_batch i) inv =
    change_client-IsConsistent s i _ inv (λ c. (refl, refl, refl))

-- In every state reached from the start by the calls of `Step`, in any order, the client tables are
-- consistent.
pub Reachable-IsConsistent : (s : ServerState) → Reachable s → IsConsistent s
Reachable-IsConsistent _ start = empty_state-IsConsistent
Reachable-IsConsistent _ (next r step) = Step-IsConsistent _ _ step (Reachable-IsConsistent _ r)
