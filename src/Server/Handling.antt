-- ===== src/Server/Handling.antt =====
-- What the handlers of registrations do to the connections and to the tables of the state.
use suplalite.Common.{length, ℕ, ◌≡◌, refl, sym, ◌∙◌, Option, none, some, inl, inr}
use suplalite.Python.Result.{ok}
use suplalite.Python.Bytes.{Bytes}
use suplalite.Python.Text.{Str}
use suplalite.Python.Dict.{Dict, lookup, put, put-cases, lookup-put, lookup-put_other}
use suplalite.Proto.Constants.{proto_version, proto_version_min}
use suplalite.Server.Types.{ServerState, eq_ℕ}
use suplalite.Server.State.{add_client, client_connected}
use suplalite.Server.World.{
  World, Role, Context, Conn, new_context, change_conn, change_context, supersede_old, conn_of,
  ◌>>◌, ◌>>=◌,
}
use suplalite.Server.ClientRegistration.{register_client}
use suplalite.Server.Ownership.{superseded_old}
use suplalite.Server.Clients.{eq_ℕ-IsEquality}

abbrev pub renamed : Conn → Str → Role → Conn
renamed c name' role' = record c {
  context = record c.context { name = name'; replacement = some (name', role') };
}

-- The connection whose context has been replaced.
abbrev pub registered : Conn → Str → Role → Conn
registered c name' role' = record c { context = new_context name' role' }

pub change_context-there :
    (k : ℕ) (f : Context → Context) (w : World) (c : Conn)
    → lookup eq_ℕ w.conns k ≡ some c
    → change_context k f w
      ≡ (ok tt, record w { conns = put eq_ℕ w.conns k (record c { context = f c.context }) })
change_context-there k f w c there = rw (there, change_conn) refl

-- Only the last of two assignments counts.
pub lookup-put-put :
    (d : Dict ℕ Conn) (k : ℕ) (a b : Conn) (j : ℕ)
    → lookup eq_ℕ (put eq_ℕ (put eq_ℕ d k a) k b) j ≡ lookup eq_ℕ (put eq_ℕ d k b) j
lookup-put-put d k a b j = elim (put-cases eq_ℕ eq_ℕ-IsEquality (put eq_ℕ d k a) k b j) [
  | inl (same, e) ↦ e ∙ sym (rw (sym same) (lookup-put eq_ℕ eq_ℕ-IsEquality d k b))
  | inr (other, e) ↦
      e
      ∙ lookup-put_other eq_ℕ eq_ℕ-IsEquality d k a j other
      ∙ sym (lookup-put_other eq_ℕ eq_ℕ-IsEquality d k b j other)
]

pub supersede_old-conns :
    (old : Option ℕ) (w : World)
    → supersede_old old w ≡ (ok tt, record w { conns = superseded_old w.conns old })
supersede_old-conns none w = refl
supersede_old-conns (some k) w = refl

module _ (k : ℕ) (guid' : Bytes) (name' : Str) (w : World) (old : Option ℕ) (s : ServerState)
    (c : Conn) where
  abbrev i : ℕ
  i = (add_client w.state guid').0

  abbrev role : Role
  role = Role.client guid' i

  abbrev conns : Dict ℕ Conn
  conns = superseded_old w.conns old

  pub register_client-effect :
      client_connected (add_client w.state guid').1 i k k ≡ (ok old, s)
      → lookup eq_ℕ conns k ≡ some c
      → ((register_client k guid' name' w).1.state ≡ s)
        × ((register_client k guid' name' w).1.conns ≡ put eq_ℕ conns k (renamed c name' role))
        × ((register_client k guid' name' w).0
            ≡ ok (record {
              client_id = i;
              location_count = 1;
              channel_count = length s.channels;
              channel_group_count = 0;
              scene_count = length s.scenes;
              activity_timeout = c.context.activity_timeout;
              version = proto_version;
              version_min = proto_version_min;
            }))
        × ((register_client k guid' name' w).1.ending ≡ w.ending)
  unfolding register_client
  register_client-effect connected there =
      let again = lookup-put eq_ℕ eq_ℕ-IsEquality conns k (renamed c name' role) in
      rw
        (
          connected,
          supersede_old-conns old,
          there,
          again,
          change_context,
          change_conn,
          conn_of,
          ◌>>◌,
          ◌>>=◌,
          register_client,
        )
        (refl, refl, refl, refl)
