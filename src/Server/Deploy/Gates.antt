-- ===== src/Server/Deploy/Gates.antt =====
-- What a plug-in must pass before it is installed.
use zss.Prelude.{◌≤◌, ◌≡◌, ◌≢◌, true, some, List, length, All, Bytes}
use zss.Plugin.{Plugin, plugin_eyecatcher, max_plugin_version}
use zss.Server.State.{ServiceMap, System, State}
use zss.Server.Anchors.{CmsFlags}
use zss.Server.Deploy.{try_loading_plugin}

-- The checks on the plug-in itself.
pub record HasValidHeader (sys : System) (p : Plugin) : Type 0 where
  pub can_inspect : sys.can_inspect p ≡ true
  pub eyecatcher : p.eyecatcher ≡ plugin_eyecatcher
  pub version : p.version ≤ max_plugin_version
  pub service_count : length p.services ≤ p.max_service_count

-- No plug-in of the list has the name.
pub NoName : Bytes → List Plugin → Type 0
NoName name = All (λ p. p.name ≢ name)

pub NoNickname : Bytes → List Plugin → Type 0
NoNickname nickname = All (λ p. p.nickname ≢ nickname)

module _ (t : ServiceMap) (sys : System) (flags : CmsFlags) where
  -- What was loaded and passed all gates.
  pub record Passes (st : State t.Map) (name : Bytes) (p : Plugin) : Type 0 where
    pub loaded : try_loading_plugin sys name ≡ some p
    pub header : HasValidHeader sys p
    pub new_name : NoName p.name st.plugins
    pub new_nickname : NoNickname p.nickname st.plugins
