-- ===== src/Server/Anchors.antt =====
-- The anchors in common storage, which outlive the server: looking them up, and the cleaning at
-- start and stop. c/zis/server.c, and `zisIsLPADevModeOn` of c/zis/server-api.c.
pub mod WellFormed
pub mod Clean
use zss.Prelude.{
  ℕ, Bool, true, false, ◌&&◌, ◌||◌, not, Option, none, some, List, [], ◌∷◌, Bytes, bytes_eq, ◌==◌,
  leb, if◌then◌else◌,
}
use zss.Service.{ServiceAnchor, service_anchor_version}
use zss.Plugin.{PluginAnchor, plugin_anchor_version}
use zss.Server.State.{System, State, update, rc_zis_ok, rc_zis_error}

-- The test of `findPluginAnchor` on the anchor at an address of the chain.
abbrev pub is_plugin_anchor : Bytes → Option PluginAnchor → Bool
is_plugin_anchor name none = false
is_plugin_anchor name (some p) = bytes_eq name p.name && leb p.version plugin_anchor_version

-- `findPluginAnchor`
unfoldable pub find_plugin_anchor : (ℕ → Option PluginAnchor) → List ℕ → Bytes → Option ℕ
find_plugin_anchor plugin_at [] name = none
find_plugin_anchor plugin_at (a ∷ chain) name =
    if is_plugin_anchor name (plugin_at a) then some a else find_plugin_anchor plugin_at chain name

-- The test of `findServiceAnchor`.
abbrev pub is_service_anchor : Bytes → Option ServiceAnchor → Bool
is_service_anchor name none = false
is_service_anchor name (some s) =
    bytes_eq name s.path.service_name && leb s.version service_anchor_version && not s.discarded

-- `findServiceAnchor`
unfoldable pub find_service_anchor : (ℕ → Option ServiceAnchor) → List ℕ → Bytes → Option ℕ
find_service_anchor service_at [] name = none
find_service_anchor service_at (a ∷ chain) name =
    if is_service_anchor name (service_at a)
    then some a
    else find_service_anchor service_at chain name

-- A change of the anchor at an address.
unfoldable pub modify {ℓ} : {A : Type ℓ} → (A → A) → (ℕ → Option A) → ℕ → ℕ → Option A
unfolding update
modify f h a = elim (h a) [ none ↦ h | some x ↦ update h a (f x) ]

-- `discardServiceAnchor`
unfoldable pub discard_service_anchor : (ℕ → Option ServiceAnchor) → ℕ → ℕ → Option ServiceAnchor
unfolding modify
discard_service_anchor = modify (λ s. record s { discarded = true })

-- The body of the loop of `cleanPluginAnchor`.
abbrev pub deactivate : ServiceAnchor → ServiceAnchor
deactivate s = record s { active = false; serve = none }

-- `cleanPluginAnchor`, over the services of the anchor.
unfoldable pub clean_plugin_anchor : (ℕ → Option ServiceAnchor) → List ℕ → ℕ → Option ServiceAnchor
unfolding modify
clean_plugin_anchor service_at [] = service_at
clean_plugin_anchor service_at (a ∷ services) =
    clean_plugin_anchor (modify deactivate service_at a) services

-- The flags of the core server that the code looks at.
pub record CmsFlags : Type 0 where
  pub cold_start : Bool
  pub debug : Bool
  pub checkauth : Bool
  pub dev_mode : Bool
  pub dev_mode_lpa : Bool
  pub reset_lookup : Bool

-- `zisIsLPADevModeOn`, with ZIS_LPA_DEV_MODE at its default, 0.
unfoldable pub zis_is_lpa_dev_mode_on : CmsFlags → Bool
zis_is_lpa_dev_mode_on flags = flags.dev_mode_lpa || flags.dev_mode

-- `removePluginFromLPAIfNeeded`: the code and the anchor.
unfoldable pub remove_plugin_from_lpa_if_needed :
    System → CmsFlags → PluginAnchor → ℕ × PluginAnchor
unfolding zis_is_lpa_dev_mode_on
remove_plugin_from_lpa_if_needed sys flags p =
    if p.lpa && zis_is_lpa_dev_mode_on flags
    then (if sys.lpa_delete p.module_info == 0
        then (rc_zis_ok, record p { module_info = 0; lpa = false })
        else (rc_zis_error, p))
    else (rc_zis_ok, p)

-- The body of the loop of `cleanPlugins`, on the anchor at an address of the chain; the code of the
-- removal is not looked at.
unfoldable pub clean_anchor_at :
    {M : Type 0} → System → CmsFlags → ℕ → Option PluginAnchor → State M → State M
unfolding clean_plugin_anchor remove_plugin_from_lpa_if_needed update
clean_anchor_at sys flags a none st = st
clean_anchor_at sys flags a (some p) st = record st {
  service_at = clean_plugin_anchor st.service_at p.services;
  plugin_at = update st.plugin_at a (remove_plugin_from_lpa_if_needed sys flags p).1;
}

-- The loop over the chain.
unfoldable pub clean_chain : {M : Type 0} → System → CmsFlags → List ℕ → State M → State M
unfolding clean_anchor_at
clean_chain sys flags [] st = st
clean_chain sys flags (a ∷ chain) st =
    clean_chain sys flags chain (clean_anchor_at sys flags a (st.plugin_at a) st)

-- `cleanPlugins`
unfoldable pub clean_plugins : {M : Type 0} → System → CmsFlags → State M → State M
unfolding clean_chain
clean_plugins sys flags st = clean_chain sys flags st.chain st
