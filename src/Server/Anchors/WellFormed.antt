-- ===== src/Server/Anchors/WellFormed.antt =====
-- What holds of the anchors and the service table at all times.
use zss.Prelude.{ℕ, ◌≡◌, some, Occurs}
use zss.Service.{ServicePath, ServiceAnchor}
use zss.Plugin.{PluginAnchor}
use zss.Server.State.{ServiceMap, State}

-- The anchor at the address is in the chain of some plug-in anchor of the server.
pub record IsListed {M : Type 0} (st : State M) (a : ℕ) : Type 0 where
  pub owner : ℕ
  pub owner_anchor : PluginAnchor
  pub in_chain : Occurs owner st.chain
  pub owner_at : st.plugin_at owner ≡ some owner_anchor
  pub in_services : Occurs a owner_anchor.services

-- A path leads to an anchor of that path, which some plug-in anchor lists.
pub record IsTarget {M : Type 0} (st : State M) (path : ServicePath) (a : ℕ) : Type 0 where
  pub anchor : ServiceAnchor
  pub anchor_at : st.service_at a ≡ some anchor
  pub same_path : anchor.path ≡ path
  pub listed : IsListed st a

-- Every entry of the service table leads to such an anchor.
abbrev pub IsWellFormed : (t : ServiceMap) → State t.Map → Type 0
IsWellFormed t st = (path : ServicePath) (a : ℕ) → t.get st.table path ≡ some a → IsTarget st path a
