-- ===== src/Server/Config.antt =====
-- The configuration of the server from its parameters, its global resources, and the modify
-- commands: c/zis/server.c. `get` is `zisGetParmValue` on the parameter set, `none` is NULL.
-- CMS_PROD_ID, `cmsMakeServerName` and `sscanf` are not part of the repository.
pub mod Behaviour
use zss.Prelude.{
  ℕ, zero, suc, ◌+◌, ◌-◌, ◌≡◌, Bool, true, false, ◌&&◌, not, Option, none, some, List, [], ◌∷◌,
  ◌++◌, length, take, replicate, Bytes, codes, bytes_eq, ◌==◌, ltb, leb, if◌then◌else◌,
}
use zss.Plugin.{Plugin}
use zss.Server.State.{rc_zis_ok, rc_zis_error}
use zss.Server.Anchors.{CmsFlags}
use zss.Server.Deploy.{get_plugin_by_nickname}

-- A string, or the one that stands for NULL.
abbrev or_else : Option Bytes → Bytes → Bytes
or_else none d = d
or_else (some v) d = v

abbrev pub cold_start_parm : Bytes
cold_start_parm = codes "COLD"

abbrev pub reset_lookup_parm : Bytes
reset_lookup_parm = codes "RESET(LOOKUP)"

-- A value that is there and empty.
abbrev is_empty_value : Option Bytes → Bool
is_empty_value none = false
is_empty_value (some v) = length v == 0

-- A value that is there and is YES.
abbrev is_yes : Option Bytes → Bool
is_yes none = false
is_yes (some v) = bytes_eq v (codes "YES")

-- `strlen(coldStartValue) == 0` for a RESET(LOOKUP) that is there; `none` is `strlen(NULL)`.
unfoldable pub reset_lookup_flag : Option Bytes → Option Bytes → Option Bool
reset_lookup_flag none cold = some false
reset_lookup_flag (some v) none = none
reset_lookup_flag (some v) (some cold) = some (length cold == 0)

-- `getCMSConfigFlags`
unfoldable pub get_cms_config_flags : Bytes → (Bytes → Option Bytes) → Option CmsFlags
unfolding reset_lookup_flag
get_cms_config_flags prod_id get =
    elim (reset_lookup_flag (get reset_lookup_parm) (get cold_start_parm)) [
      | none ↦ none
      | some reset ↦ some (record {
        cold_start = is_empty_value (get cold_start_parm);
        debug = is_empty_value (get (codes "DEBUG"));
        checkauth = is_yes (get (prod_id ++ codes ".CHECKAUTH"));
        dev_mode = is_yes (get (prod_id ++ codes ".DEV_MODE"));
        dev_mode_lpa = is_yes (get (prod_id ++ codes ".DEV_MODE.LPA"));
        reset_lookup = reset;
      })
    ]

-- `getCMServerName`: the string that names the server; `none` is the default name.
unfoldable pub get_cm_server_name : Bytes → (Bytes → Option Bytes) → Option Bytes
get_cm_server_name prod_id get = elim (get (codes "NAME")) [
  | some n ↦ some n
  | none ↦ get (prod_id ++ codes ".NAME")
]

-- A pool size of `updateCMServerSettings`, `scan` being `sscanf` with "%u".
unfoldable pub pool_size : (Bytes → Option ℕ) → ℕ → Option Bytes → ℕ
pool_size scan default none = default
pool_size scan default (some v) = elim (scan v) [ none ↦ default | some n ↦ n ]

-- `updateCMServerSettings`: the two sizes that `cmsSetPoolParameters` gets.
unfoldable pub update_cm_server_settings :
    (Bytes → Option ℕ) → Bytes → (Bytes → Option Bytes) → ℕ × ℕ
unfolding pool_size
update_cm_server_settings scan prod_id get = (
  pool_size scan 1024 (get (prod_id ++ codes ".PCSS_STACK_POOL_SIZE")),
  pool_size scan 8192 (get (prod_id ++ codes ".PCSS_RECOVERY_POOL_SIZE")),
)

-- `extractPARMLIBMemberName`: four characters of the module, IP, and the suffix of two; `none` is
-- RC_ZIS_ERROR.
unfoldable pub extract_parmlib_member_name : Bytes → Option Bytes → Option Bytes
extract_parmlib_member_name zis_module_name suffix =
    let s = or_else suffix (codes "00") in
    if length s == 2 then some (take 4 zis_module_name ++ (codes "IP" ++ s)) else none

-- `ZISServerAnchor`, as far as the start looks at it.
pub record ServerAnchor (M : Type 0) : Type 0 where
  pub dynlink : Bool
  pub versioned_context : Bool
  pub service_table : Option M

-- `initServiceTable` without ZIS_DEV_MODE; `made` is the reply of `makeCrossMemoryMap`. The test of
-- the reply stands under a test of the anchor that cannot hold.
unfoldable pub init_service_table : {M : Type 0} → Option M → ServerAnchor M → ℕ × ServerAnchor M
init_service_table made anchor = elim anchor.service_table [
  | some m ↦ (rc_zis_ok, anchor)
  | none ↦ (rc_zis_ok, record anchor { service_table = made })
]

-- `initGlobalResources`, with `createZISServerAnchor`, `enableDynLink` and `enableVersionedContext`.
-- The flag says whether `cmAlloc` gave the storage of a new anchor.
unfoldable pub init_global_resources :
    {M : Type 0} → Bool → Option M → Option (ServerAnchor M) → ℕ × Option (ServerAnchor M)
unfolding init_service_table
init_global_resources allocated made (some anchor) =
    let (rc, a) =
      init_service_table made (record anchor { dynlink = true; versioned_context = true }) in
    (rc, some a)
init_global_resources true made none =
    let (rc, a) =
      init_service_table made
        (record { dynlink = true; versioned_context = true; service_table = none }) in
    (rc, some a)
init_global_resources false made none = (rc_zis_error, none)

abbrev pub nickname_size : ℕ
nickname_size = 4

-- `handleModifyCommands`: the plug-in whose handler is called, if any. The test in front of the
-- copy cannot hold, so a longer target is written past the nickname: that is the outer `none`.
unfoldable pub handle_modify_commands : List Plugin → Option Bytes → Option (Option Plugin)
unfolding get_plugin_by_nickname
handle_modify_commands plugins target =
    let text = or_else target [] in
    if leb (length text) 0 && ltb nickname_size (length text)
    then some none
    else if ltb nickname_size (length text)
    then none
    else some
        (elim (get_plugin_by_nickname plugins
          (text ++ replicate (nickname_size - length text) b' ')) [
            | none ↦ none
            | some p ↦ elim p.handle_command [ none ↦ none | some f ↦ some p ]
          ])
