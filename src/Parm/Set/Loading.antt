-- ===== src/Parm/Set/Loading.antt =====
-- The load of the parameters into the core server.
use zss.Prelude.{
  ℕ, ◌≡◌, ◌≢◌, refl, ap, ◌⊎◌, inl, inr, Option, none, some, List, [], ◌∷◌, ◌++◌, Bytes, ◌==◌, arith,
  Bool-cases,
}
use zss.Parm.Set.{Entry, zis_load_parms_to_cm_server, rc_zisparm_ok, rc_zisparm_cms_call_failed}

module _ {C : Type 0} (cms_add_config_parm : C → Option Bytes → Option Bytes → ℕ × C) where
  -- The entries are added one after the other, each with code 0.
  unfoldable pub Accepts : C → List Entry → C → Type 0
  Accepts server [] server' = server ≡ server'
  Accepts server (e ∷ es) server' =
      ((cms_add_config_parm server e.key e.value).0 ≡ 0)
      × Accepts (cms_add_config_parm server e.key e.value).1 es server'

  -- The entry that the core server refused, with what was added in front of it.
  pub record Stops (server : C) (entries : List Entry) (rc : ℕ) (server' : C) : Type 0 where
    pub front : List Entry
    pub refused : Entry
    pub back : List Entry
    pub entries_eq : entries ≡ front ++ refused ∷ back
    pub reached : C
    pub accepted : Accepts server front reached
    pub reply : cms_add_config_parm reached refused.key refused.value ≡ (rc, server')
    pub is_error : rc ≢ 0

  -- All parameters are loaded in order, with status 0; or the core server refuses one, and then those
  -- in front of it and no others were loaded, with status 17 and the refusal as the reason.
  pub zis_load_parms_to_cm_server_lem :
      (entries : List Entry) (server : C)
      → ((server' : C) × (zis_load_parms_to_cm_server cms_add_config_parm entries server
            ≡ (rc_zisparm_ok, none, server'))
          × Accepts server entries server')
        ⊎ ((rc : ℕ) × (server' : C) × (zis_load_parms_to_cm_server cms_add_config_parm entries
                server
              ≡ (rc_zisparm_cms_call_failed, some rc, server'))
            × Stops server entries rc server')
  unfolding zis_load_parms_to_cm_server Accepts
  zis_load_parms_to_cm_server_lem [] server = inl (server, refl, refl)
  zis_load_parms_to_cm_server_lem (e ∷ es) server =
      let (rc, next) = cms_add_config_parm server e.key e.value in
      elim (Bool-cases (rc == 0)) [
        | inr z ↦ inr (
          rc,
          next,
          rw z,
          record {
            front = [];
            refused = e;
            back = es;
            entries_eq = refl;
            reached = server;
            accepted = refl;
            reply = refl;
            is_error = ground arith;
          },
        )
        | inl z ↦ elim (zis_load_parms_to_cm_server_lem es next) [
          | inl (s, i, a) ↦ inl (s, rw z i, (ground arith, a))
          | inr (r, s, i, o) ↦ inr (
            r,
            s,
            rw z i,
            record {
              front = e ∷ o.front;
              refused = o.refused;
              back = o.back;
              entries_eq = ap (◌∷◌ e) o.entries_eq;
              reached = o.reached;
              accepted = (ground arith, o.accepted);
              reply = o.reply;
              is_error = o.is_error;
            },
          )
        ]
      ]
