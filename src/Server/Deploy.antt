-- ===== src/Server/Deploy.antt =====
-- The deployment of plug-ins, c/zis/server.c: loading, validation, LPA, installation, and the start
-- and stop of the server around them.
pub mod Additions
pub mod Cleaning
pub mod Gates
pub mod Order
pub mod Safety
use zss.Prelude.{
  ℕ, ◌+◌, ◌-◌, ◌≡◌, Bool, true, false, ◌&&◌, ◌||◌, not, Option, none, some, List, [], ◌∷◌, ◌++◌,
  length, drop, replicate, Bytes, codes, bytes_eq, has_prefix, ◌==◌, ltb, if◌then◌else◌,
}
use zss.Service.{Service, is_service_valid}
use zss.Plugin.{
  Plugin, PluginAnchor, zis_create_plugin_anchor, plugin_eyecatcher, max_plugin_version,
}
use zss.Parm.Set.{Entry, zis_iterate_parms}
use zss.Server.State.{
  ServiceMap, System, Entry as ModuleEntry, no_entry, entry, Descriptor, no_descriptor, descriptor,
  State, update, rc_zis_ok, rc_zis_error,
}
use zss.Server.Anchors.{CmsFlags, zis_is_lpa_dev_mode_on, find_plugin_anchor, clean_plugins}
use zss.Server.Install.{call_function, install_services}

-- The module in LPA is dropped on another version, and deleted in the development mode.
unfoldable pub discard_from_lpa : System → CmsFlags → Plugin → PluginAnchor → ℕ × PluginAnchor
unfolding zis_is_lpa_dev_mode_on
discard_from_lpa sys flags plugin p =
    let discarded = record p { module_info = 0; lpa = false } in
    if not p.lpa
    then (rc_zis_ok, p)
    else if zis_is_lpa_dev_mode_on flags
    then (if sys.lpa_delete p.module_info == 0 then (rc_zis_ok, discarded) else (rc_zis_error, p))
    else if p.plugin_version == plugin.plugin_version
    then (rc_zis_ok, p)
    else (rc_zis_ok, discarded)

-- `relocatePluginToLPAIfNeeded`: the code, the plug-in's new descriptor, and its anchor.
unfoldable pub relocate_plugin_to_lpa_if_needed :
    System → CmsFlags → Plugin → PluginAnchor → Bytes → ℕ × Plugin × PluginAnchor
unfolding discard_from_lpa
relocate_plugin_to_lpa_if_needed sys flags plugin p module_name =
    let (rc, q) = discard_from_lpa sys flags plugin p in
    let (add_rc, info) = sys.lpa_add module_name in
    if not (rc == rc_zis_ok)
    then (rc, plugin, q)
    else if not plugin.lpa
    then (rc_zis_ok, plugin, q)
    else if q.lpa
    then (rc_zis_ok, sys.lpa_descriptor q.module_info, q)
    else if add_rc == 0
    then (rc_zis_ok, sys.lpa_descriptor info, record q { module_info = info; lpa = true })
    else (rc_zis_error, plugin, q)

-- `getPluginByName`; whether there is one.
unfoldable pub has_plugin_name : List Plugin → Bytes → Bool
has_plugin_name [] name = false
has_plugin_name (p ∷ plugins) name = bytes_eq p.name name || has_plugin_name plugins name

-- `getPluginByNickname`
unfoldable pub get_plugin_by_nickname : List Plugin → Bytes → Option Plugin
get_plugin_by_nickname [] nickname = none
get_plugin_by_nickname (p ∷ plugins) nickname =
    if bytes_eq p.nickname nickname then some p else get_plugin_by_nickname plugins nickname

abbrev is_some {ℓ} : {A : Type ℓ} → Option A → Bool
is_some none = false
is_some (some a) = true

-- `isDuplicatePlugin`
unfoldable pub is_duplicate_plugin : List Plugin → Plugin → Bool
unfolding has_plugin_name get_plugin_by_nickname
is_duplicate_plugin plugins p =
    if has_plugin_name plugins p.name
    then true
    else is_some (get_plugin_by_nickname plugins p.nickname)

-- The loop over the services in `isPluginValid`: the index of the service that it reports.
unfoldable pub reported_service : ℕ → List Service → Option ℕ
unfolding is_service_valid
reported_service i [] = none
reported_service i (s ∷ services) =
    if is_service_valid s then reported_service (i + 1) services else some i

-- `isPluginValid`: the verdict, and the service that is reported. The `break` behind the report
-- leaves the loop over the services alone. `can_inspect` is the first return of `recoveryPush`.
unfoldable pub is_plugin_valid : System → Plugin → Bool × Option ℕ
unfolding reported_service
is_plugin_valid sys p =
    if not (sys.can_inspect p)
    then (false, none)
    else if not (bytes_eq p.eyecatcher plugin_eyecatcher)
    then (false, none)
    else if ltb max_plugin_version p.version
    then (false, none)
    else if ltb p.max_service_count (length p.services)
    then (false, none)
    else (true, reported_service 0 p.services)

-- `tryLoadingPlugin`
unfoldable pub try_loading_plugin : System → Bytes → Option Plugin
try_loading_plugin sys module_name = elim (sys.load_module module_name) [
  | no_entry ↦ none
  | entry ep ↦ elim (sys.get_descriptor ep) [ no_descriptor ↦ none | descriptor p ↦ some p ]
]

-- `isPluginSuitable`
unfoldable pub is_plugin_suitable : Bytes → Bytes → Bool → Bool
is_plugin_suitable dynlink module_name dyn_link_plugin_needed =
    if dyn_link_plugin_needed
    then bytes_eq module_name dynlink
    else not (bytes_eq module_name dynlink)

abbrev pub plugin_prefix : Bytes
plugin_prefix = codes "ZWES.PLUGIN."

abbrev pub module_name_size : ℕ
module_name_size = 8

-- `addPlugin`, with the anchor that is set behind it.
unfoldable pub add_plugin : {M : Type 0} → State M → Plugin → ℕ → State M
add_plugin st plugin w = record st { plugins = record plugin { anchor = some w } ∷ st.plugins }

module _ (t : ServiceMap) (sys : System) (flags : CmsFlags) where
  open t use {Map}

  -- The end of `installPlugin`: the plug-in is known to the server, its init function is called,
  -- and its services are installed. The code of `installServices` is not looked at.
  unfoldable pub start_plugin : State Map → Plugin → ℕ → PluginAnchor → ℕ × State Map
  unfolding call_function install_services add_plugin update
  start_plugin st plugin w p =
      let known = record st {
        plugin_at = update st.plugin_at w (record p { plugin_version = plugin.plugin_version });
      } in
      let (rc, st', services) = install_services t sys known plugin.name w plugin.services in
      if call_function sys plugin.init w == rc_zis_ok
      then (rc_zis_ok, add_plugin st' (record plugin { services = services }) w)
      else (rc_zis_error, add_plugin known plugin w)

  -- `installPlugin` behind the search for the anchor, which is at the address `w`.
  unfoldable pub install_with_anchor :
      State Map → Plugin → Bytes → ℕ → Option PluginAnchor → ℕ × State Map
  unfolding relocate_plugin_to_lpa_if_needed start_plugin update
  install_with_anchor st plugin module_name w none = (rc_zis_error, st)
  install_with_anchor st plugin module_name w (some p) =
      let (rc, plugin', p') = relocate_plugin_to_lpa_if_needed sys flags plugin p module_name in
      if rc == rc_zis_ok
      then start_plugin st plugin' w p'
      else (rc, record st { plugin_at = update st.plugin_at w p' })

  -- A new plug-in anchor at the address `st.next`, in front of the chain.
  unfoldable pub add_plugin_anchor : State Map → Plugin → State Map
  unfolding zis_create_plugin_anchor update
  add_plugin_anchor st plugin = record st {
    next = st.next + 1;
    plugin_at = update st.plugin_at st.next (zis_create_plugin_anchor plugin);
    chain = st.next ∷ st.chain;
  }

  -- `installPlugin`
  unfoldable pub install_plugin : State Map → Plugin → Bytes → ℕ × State Map
  unfolding find_plugin_anchor install_with_anchor add_plugin_anchor
  install_plugin st plugin module_name =
      elim (find_plugin_anchor st.plugin_at st.chain plugin.name) [
        | some w ↦ install_with_anchor st plugin module_name w (st.plugin_at w)
        | none ↦
            if sys.cm_alloc st.next
            then install_with_anchor (add_plugin_anchor st plugin) plugin module_name st.next
                ((add_plugin_anchor st plugin).plugin_at st.next)
            else (rc_zis_error, record st { next = st.next + 1 })
      ]

  -- `visitPluginParm` from the loading on, with the padded module name.
  unfoldable pub deploy_module : State Map → Bytes → State Map
  unfolding try_loading_plugin is_plugin_valid is_duplicate_plugin install_plugin
  deploy_module st module_name = elim (try_loading_plugin sys module_name) [
    | none ↦ st
    | some plugin ↦
        if not (is_plugin_valid sys plugin).0
        then st
        else if is_duplicate_plugin st.plugins plugin
        then st
        else (install_plugin st plugin module_name).1
  ]

  -- `visitPluginParm` for a parameter that names a plug-in, once the module is suitable.
  unfoldable pub deploy_value : Bytes → State Map → State Map
  unfolding deploy_module
  deploy_value value st =
      if ltb module_name_size (length value)
      then st
      else deploy_module st (value ++ replicate (module_name_size - length value) b' ')

  -- `visitPluginParm`; keys are never NULL in a set that was read without an error.
  unfoldable pub visit_plugin_parm :
      Bytes → Bool → Option Bytes → Option Bytes → State Map → State Map
  unfolding is_plugin_suitable deploy_value
  visit_plugin_parm dynlink looking_for_dynamic none value st = st
  visit_plugin_parm dynlink looking_for_dynamic (some name) none st = st
  visit_plugin_parm dynlink looking_for_dynamic (some name) (some value) st =
      if not (has_prefix plugin_prefix name)
      then st
      else if not (is_plugin_suitable dynlink value looking_for_dynamic)
      then st
      else deploy_value value st

  -- `deployPlugins`: the dynamic linkage plug-in first.
  unfoldable pub deploy_plugins : Bytes → List Entry → State Map → State Map
  unfolding visit_plugin_parm
  deploy_plugins dynlink entries st =
      zis_iterate_parms (visit_plugin_parm dynlink false) entries
        (zis_iterate_parms (visit_plugin_parm dynlink true) entries st)

  -- `initServer` behind `initGlobalResources`, on a table that could be made.
  unfoldable pub init_server : Bytes → List Entry → State Map → State Map
  unfolding deploy_plugins
  init_server dynlink entries st = deploy_plugins dynlink entries (clean_plugins sys flags st)

  -- `cleanupServer`; the term functions that `terminatePlugins` calls change nothing here.
  unfoldable pub cleanup_server : State Map → State Map
  cleanup_server st = clean_plugins sys flags st

-- `terminatePlugins`: the functions that are called, with their anchors, in order.
unfoldable pub service_terms : List Service → List (Option ℕ × Option ℕ)
service_terms [] = []
service_terms (s ∷ services) = (s.term, s.anchor) ∷ service_terms services

unfoldable pub terminate_plugins : List Plugin → List (Option ℕ × Option ℕ)
unfolding service_terms
terminate_plugins [] = []
terminate_plugins (p ∷ plugins) =
    service_terms p.services ++ (p.term, p.anchor) ∷ terminate_plugins plugins
