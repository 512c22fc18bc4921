-- ===== src/Server/Route.antt =====
-- `zisRouteService` of c/zis/server.c, the entry to every service of a plug-in.
pub mod Servable
use zss.Prelude.{
  ℕ, Bool, true, false, ◌&&◌, not, Option, none, some, Bytes, codes, bytes_eq, ◌==◌, ltb,
  if◌then◌else◌,
}
use zss.Service.{ServicePath, ServiceAnchor}
use zss.Server.State.{ServiceMap, State}

-- `ZISServiceRouterParm`, as it was copied from the caller; the parameter of the service itself is
-- passed through.
pub record ServiceRouterParm : Type 0 where
  pub eyecatcher : Bytes
  pub version : ℕ
  pub target_service_path : ServicePath
  pub service_version : ℕ

-- A return code, or the call of a serve function with the anchor at an address. `undefined` is the
-- use of an address that holds no anchor, or the call of a NULL function.
pub data Routed : Type 0 where
  refused : ℕ → Routed
  served : ℕ → ℕ → Routed
  undefined : Routed

abbrev pub router_eyecatcher : Bytes
router_eyecatcher = codes "ZISSREYE"

abbrev pub router_version : ℕ
router_version = 1

abbrev pub service_any_version : ℕ
service_any_version = 0xFFFFFFFF

abbrev pub rc_bad_eyecatcher : ℕ
rc_bad_eyecatcher = 12

abbrev pub rc_bad_router_version : ℕ
rc_bad_router_version = 13

abbrev pub rc_service_not_found : ℕ
rc_service_not_found = 14

abbrev pub rc_bad_service_version : ℕ
rc_bad_service_version = 15

abbrev pub rc_service_inactive : ℕ
rc_service_inactive = 16

abbrev pub rc_specific_auth_failed : ℕ
rc_specific_auth_failed = 17

-- The checks on the anchor that was found, and the call. `cms_test_auth` is `cmsTestAuth`.
unfoldable pub route_to_anchor :
    (Bytes → Bytes → Bool) → ServiceRouterParm → ℕ → ServiceAnchor → Routed
route_to_anchor cms_test_auth parm a s =
    if ltb s.service_version parm.service_version
      && not (parm.service_version == service_any_version)
    then refused rc_bad_service_version
    else if not s.active
    then refused rc_service_inactive
    else if s.flags.specific_auth && not (cms_test_auth s.saf_class_name s.saf_entity_name)
    then refused rc_specific_auth_failed
    else elim s.serve [ none ↦ undefined | some f ↦ served f a ]

module _ (t : ServiceMap) where
  open t use {Map, get}

  -- `zisRouteService`
  unfoldable pub zis_route_service : (Bytes → Bytes → Bool) → State Map → ServiceRouterParm → Routed
  unfolding route_to_anchor
  zis_route_service cms_test_auth st parm =
      if not (bytes_eq parm.eyecatcher router_eyecatcher)
      then refused rc_bad_eyecatcher
      else if ltb router_version parm.version
      then refused rc_bad_router_version
      else elim (get st.table parm.target_service_path) [
        | none ↦ refused rc_service_not_found
        | some a ↦ elim (st.service_at a) [
          | none ↦ undefined
          | some s ↦ route_to_anchor cms_test_auth parm a s
        ]
      ]
