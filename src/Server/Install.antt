-- ===== src/Server/Install.antt =====
-- The installation of a plug-in's services: `installServices` of c/zis/server.c, with the calls of
-- the plug-in's functions under recovery.
pub mod Keeps
pub mod Rounds
pub mod Loop
pub mod Plugins
pub mod Reach
pub mod Serves
use zss.Prelude.{
  ℕ, ◌+◌, Bool, true, false, Option, none, some, List, [], ◌∷◌, Bytes, ◌==◌, if◌then◌else◌,
}
use zss.Service.{
  Service, ServiceAnchor, zis_create_service_anchor, zis_update_service_anchor,
  is_service_anchor_compatible,
}
use zss.Plugin.{Plugin, PluginAnchor}
use zss.Server.State.{
  ServiceMap, PutReply, added, exists, no_storage, System, Outcome, returned, recovered, State,
  update, rc_zis_ok, rc_zis_error,
}
use zss.Server.Anchors.{find_service_anchor, modify, discard_service_anchor}

-- `callPluginInit`, `callPluginTerm`, `callServiceInit` and `callServiceTerm`: a NULL function is
-- not called; a code other than 0 and the recovery branch are both RC_ZIS_ERROR.
unfoldable pub call_function : System → Option ℕ → ℕ → ℕ
call_function sys none a = rc_zis_ok
call_function sys (some f) a = elim (sys.call f a) [
  | returned rc ↦ if rc == rc_zis_ok then rc_zis_ok else rc_zis_error
  | recovered ↦ rc_zis_error
]

-- How the round of a service ends: RC_ZIS_ERROR is returned; the round is left because the init
-- function failed; or the service is active. An anchor's address goes into `service->anchor`.
pub data Round (M : Type 0) : Type 0 where
  failed : Option ℕ → State M → Round M
  skipped : ℕ → State M → Round M
  activated : ℕ → State M → Round M

-- The anchor to use again, if there is one; one that is not compatible is discarded.
unfoldable pub find_usable_anchor : {M : Type 0} → State M → Option ℕ → Service → State M × Option ℕ
unfolding is_service_anchor_compatible discard_service_anchor
find_usable_anchor st none service = (st, none)
find_usable_anchor st (some a) service = elim (st.service_at a) [
  | none ↦ (st, none)
  | some s ↦
      if is_service_anchor_compatible service s
      then (st, some a)
      else (record st { service_at = discard_service_anchor st.service_at a }, none)
]

-- A new anchor at the address `st.next`, in front of the others of the plug-in anchor `p` at `w`.
unfoldable pub add_service_anchor :
    {M : Type 0} → State M → Bytes → ℕ → PluginAnchor → Service → State M
unfolding zis_create_service_anchor update
add_service_anchor st plugin_name w p service = record st {
  next = st.next + 1;
  service_at =
      update st.service_at st.next (zis_create_service_anchor plugin_name (some w) service);
  plugin_at = update st.plugin_at w (record p { services = st.next ∷ p.services });
}

-- The update of the anchor that is used again.
unfoldable pub update_service_anchor : {M : Type 0} → State M → ℕ → Service → State M
unfolding modify zis_update_service_anchor
update_service_anchor st a service = record st {
  service_at = modify (λ s. zis_update_service_anchor s service) st.service_at a;
}

-- The state word of the anchor becomes active.
unfoldable pub activate : {M : Type 0} → State M → ℕ → State M
unfolding modify
activate st a = record st { service_at = modify (λ s. record s { active = true }) st.service_at a }

module _ (t : ServiceMap) (sys : System) where
  open t use {Map, put, replace}

  -- The entry of the service table; the handle is used where the path is there already.
  unfoldable pub enter_table : Map → ServiceAnchor → ℕ → Option Map
  enter_table m s a = elim (put m s.path a) [
    | added n ↦ some n
    | exists ↦ some (replace m s.path a)
    | no_storage ↦ none
  ]

  -- The end of the round, with the anchor `s` at the address `a`.
  unfoldable pub publish_service : State Map → Option ServiceAnchor → ℕ → Service → Round Map
  unfolding call_function enter_table activate
  publish_service st none a service = skipped a st
  publish_service st (some s) a service =
      if call_function sys service.init a == rc_zis_ok
      then elim (enter_table st.table s a) [
        | none ↦ failed (some a) st
        | some n ↦ activated a (activate (record st { table = n }) a)
      ]
      else skipped a st

  -- The round with the anchor to use again, or none.
  unfoldable pub install_at : State Map → Bytes → ℕ → PluginAnchor → Option ℕ → Service → Round Map
  unfolding add_service_anchor update_service_anchor
  install_at st plugin_name w p none service =
      if sys.cm_alloc st.next
      then publish_service (add_service_anchor st plugin_name w p service)
          ((add_service_anchor st plugin_name w p service).service_at st.next) st.next service
      else failed none (record st { next = st.next + 1 })
  install_at st plugin_name w p (some a) service =
      publish_service (update_service_anchor st a service)
        ((update_service_anchor st a service).service_at a) a service

  -- One round of `installServices`, for a plug-in anchor `p` at the address `w`.
  unfoldable pub install_service : State Map → Bytes → ℕ → PluginAnchor → Service → Round Map
  unfolding find_service_anchor find_usable_anchor install_at publish_service
  install_service st plugin_name w p service =
      let (st', usable) =
        find_usable_anchor st (find_service_anchor st.service_at p.services service.name) service in
      install_at st' plugin_name w p usable service

  -- `installServices`: the code, the state, and the services with their anchors.
  unfoldable pub install_services :
      State Map → Bytes → ℕ → List Service → ℕ × State Map × List Service
  unfolding install_service
  install_services st plugin_name w [] = (rc_zis_ok, st, [])
  install_services st plugin_name w (s ∷ services) = elim (st.plugin_at w) [
    | none ↦ (rc_zis_error, st, s ∷ services)
    | some p ↦ elim (install_service st plugin_name w p s) [
      | failed none st' ↦ (rc_zis_error, st', s ∷ services)
      | failed (some a) st' ↦ (rc_zis_error, st', record s { anchor = some a } ∷ services)
      | skipped a st' ↦
          let (rc, st'', rest) = install_services st' plugin_name w services in
          (rc, st'', record s { anchor = some a } ∷ rest)
      | activated a st' ↦
          let (rc, st'', rest) = install_services st' plugin_name w services in
          (rc, st'', record s { anchor = some a } ∷ rest)
    ]
  ]
