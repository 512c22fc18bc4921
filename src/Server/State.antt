-- ===== src/Server/State.antt =====
-- The state that c/zis/server.c keeps: the common storage with the anchors, the service table, and
-- the plug-ins of this start. `h/zis/server.h` has the structures.
use zss.Prelude.{ℕ, ◌≡◌, ◌≢◌, Bool, Option, none, some, List, Bytes, ◌==◌, if◌then◌else◌}
use zss.Service.{ServicePath, ServiceAnchor, path_eq}
use zss.Plugin.{PluginAnchor, Plugin}

-- The reply of `crossMemoryMapPut`: 0, 1 or -1.
pub data PutReply (M : Type 0) : Type 0 where
  added : M → PutReply M
  exists : PutReply M
  no_storage : PutReply M

-- `CrossMemoryMap`, which is not part of the repository, from paths to anchor addresses. `replace`
-- is an assignment through `crossMemoryMapGetHandle`.
pub record ServiceMap : Type 1 where
  pub Map : Type 0
  pub get : Map → ServicePath → Option ℕ
  pub put : Map → ServicePath → ℕ → PutReply Map
  pub replace : Map → ServicePath → ℕ → Map
  pub get-put :
      (m n : Map) (p q : ServicePath) (a : ℕ)
      → put m p a ≡ added n
      → get n q ≡ (if path_eq p q then some a else get m q)
  pub put_exists : (m : Map) (p : ServicePath) (a : ℕ) → put m p a ≡ exists → get m p ≢ none
  pub get-replace :
      (m : Map) (p q : ServicePath) (a : ℕ)
      → get m p ≢ none
      → get (replace m p a) q ≡ (if path_eq p q then some a else get m q)

-- How a call of a plug-in's function under recovery ends: with a code, or in the recovery branch.
pub data Outcome : Type 0 where
  returned : ℕ → Outcome
  recovered : Outcome

-- How a module is loaded: `loadByNameLocally` gives no entry point, or one, or abends.
pub data Entry : Type 0 where
  no_entry : Entry
  entry : ℕ → Entry

-- What the entry point returns.
pub data Descriptor : Type 0 where
  no_descriptor : Descriptor
  descriptor : Plugin → Descriptor

-- What the server calls outside the repository. `cm_alloc n` says whether request n for common
-- storage is met; its block has address n. A callback is told the address of its anchor; that it may
-- itself change anchors or the table is left out. `lpa_descriptor` is the reply of a module in LPA, which the code takes
-- to be no NULL.
pub record System : Type 0 where
  pub cm_alloc : ℕ → Bool
  pub call : ℕ → ℕ → Outcome
  pub lpa_add : Bytes → ℕ × ℕ
  pub lpa_delete : ℕ → ℕ
  pub load_module : Bytes → Entry
  pub get_descriptor : ℕ → Descriptor
  pub lpa_descriptor : ℕ → Plugin
  pub can_inspect : Plugin → Bool

-- The anchors live at addresses below `next`; `chain` is the list from `firstPlugin` of the server
-- anchor, `plugins` the list from `firstPlugin` of the context. Both lists grow at the front.
pub record State (M : Type 0) : Type 0 where
  pub next : ℕ
  pub service_at : ℕ → Option ServiceAnchor
  pub plugin_at : ℕ → Option PluginAnchor
  pub chain : List ℕ
  pub table : M
  pub plugins : List Plugin

-- A store with one cell written.
unfoldable pub update {ℓ} : {A : Type ℓ} → (ℕ → Option A) → ℕ → A → ℕ → Option A
update h a x b = if a == b then some x else h b

abbrev pub rc_zis_ok : ℕ
rc_zis_ok = 0

abbrev pub rc_zis_error : ℕ
rc_zis_error = 8
