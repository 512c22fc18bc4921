-- ===== src/Server/Route/Servable.antt =====
-- When a call of the router reaches a service.
use zss.Prelude.{ℕ, ◌≤◌, ◌≡◌, ◌⊎◌, ◌↔◌, Bool, true, false, some, Bytes, bytes_eq_iff, arith}
use zss.Service.{ServiceAnchor}
use zss.Server.State.{ServiceMap, State}
use zss.Server.Route.{
  ServiceRouterParm, served, router_eyecatcher, router_version, service_any_version,
  zis_route_service,
}

-- The anchor at the address may be called with the function for the parameter.
pub record IsServable (cms_test_auth : Bytes → Bytes → Bool) (parm : ServiceRouterParm)
    (s : ServiceAnchor) (f : ℕ) : Type 0 where
  pub eyecatcher : parm.eyecatcher ≡ router_eyecatcher
  pub router_version_le : parm.version ≤ router_version
  pub new_enough :
      (parm.service_version ≤ s.service_version) ⊎ (parm.service_version ≡ service_any_version)
  pub active : s.active ≡ true
  pub authorized :
      (s.flags.specific_auth ≡ false) ⊎ (cms_test_auth s.saf_class_name s.saf_entity_name ≡ true)
  pub function : s.serve ≡ some f

module _ (t : ServiceMap) (cms_test_auth : Bytes → Bytes → Bool) (st : State t.Map)
    (parm : ServiceRouterParm) where
  -- With an anchor at the address, its serve function is called exactly if the caller's block is the router's, the path is in the
  -- table, and the anchor there is new enough, active, and open to the caller.
  pub zis_route_service-IsServable :
      (f a : ℕ) (s : ServiceAnchor)
      → st.service_at a ≡ some s
      → (zis_route_service t cms_test_auth st parm ≡ served f a)
        ↔ ((t.get st.table parm.target_service_path ≡ some a) × IsServable cms_test_auth parm s f)
  unfolding zis_route_service
  zis_route_service-IsServable f a s e = (
    λ h. ground (arith, bytes_eq_iff parm.eyecatcher router_eyecatcher),
    λ h. ground (arith, bytes_eq_iff parm.eyecatcher router_eyecatcher),
  )
