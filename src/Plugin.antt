-- ===== src/Plugin.antt =====
-- Plug-ins and their anchors: h/zis/plugin.h, c/zis/plugin.c. `services` is the used part of the
-- service table, `serviceCount` its length. The character classes are those of the C library.
pub mod Names
pub mod Table
use zss.Prelude.{
  ℕ, suc, ◌+◌, ◌≡◌, Bool, true, false, ◌&&◌, ◌||◌, not, Option, none, some, List, [], ◌∷◌, ◌++◌,
  length, Bytes, codes, ◌==◌, ltb, if◌then◌else◌,
}
use zss.Service.{Service}

-- `ZISPluginAnchor`; `services` is the chain from `firstService`, `module_info` the handle of the
-- module in LPA, 0 after a memset.
pub record PluginAnchor : Type 0 where
  pub version : ℕ
  pub lpa : Bool
  pub name : Bytes
  pub plugin_version : ℕ
  pub services : List ℕ
  pub module_info : ℕ

-- `ZISPlugin`
pub record Plugin : Type 0 where
  pub eyecatcher : Bytes
  pub version : ℕ
  pub lpa : Bool
  pub max_service_count : ℕ
  pub anchor : Option ℕ
  pub name : Bytes
  pub nickname : Bytes
  pub init : Option ℕ
  pub term : Option ℕ
  pub handle_command : Option ℕ
  pub plugin_version : ℕ
  pub services : List Service

abbrev pub plugin_eyecatcher : Bytes
plugin_eyecatcher = codes "ZISPLUGN"

-- ZIS_PLUGIN_VERSION and ZIS_PLUGIN_ANCHOR_VERSION.
abbrev pub max_plugin_version : ℕ
max_plugin_version = 1

abbrev pub plugin_anchor_version : ℕ
plugin_anchor_version = 1

-- `zisCreatePluginAnchor` behind the allocation.
unfoldable pub zis_create_plugin_anchor : Plugin → PluginAnchor
zis_create_plugin_anchor p = record {
  version = plugin_anchor_version;
  lpa = false;
  name = p.name;
  plugin_version = p.plugin_version;
  services = [];
  module_info = 0;
}

abbrev pub rc_zis_plugin_ok : ℕ
rc_zis_plugin_ok = 0

abbrev pub rc_zis_plugin_sevice_table_full : ℕ
rc_zis_plugin_sevice_table_full = 8

abbrev pub rc_zis_plugin_incompatible_sevice : ℕ
rc_zis_plugin_incompatible_sevice = 9

abbrev pub rc_zis_plugin_bad_service_name : ℕ
rc_zis_plugin_bad_service_name = 10

-- `isPluginNameValid` and `isServiceNameValid`, the same loop.
unfoldable pub is_name_valid : (ℕ → Bool) → Bytes → Bool
is_name_valid isprint [] = true
is_name_valid isprint (c ∷ cs) =
    let rest = is_name_valid isprint cs in if isprint c then rest else false

module _ (isprint isgraph isspace : ℕ → Bool) where
  -- The loop of `isNicknameValid`: the index and `spaceFound`.
  unfoldable pub nickname_loop : ℕ → Bool → Bytes → Bool
  nickname_loop i space_found [] = true
  nickname_loop i space_found (c ∷ cs) =
      let rest = nickname_loop (i + 1) (space_found || isspace c) cs in
      if not (isprint c)
      then false
      else if isgraph c && space_found
      then false
      else if isspace c && (i == 0)
      then false
      else rest

  -- `isNicknameValid`
  unfoldable pub is_nickname_valid : Bytes → Bool
  unfolding nickname_loop
  is_nickname_valid nickname = nickname_loop 0 false nickname

  -- `zisCreatePlugin`; the flag says whether `safeMalloc` gave the storage, `none` is NULL.
  unfoldable pub zis_create_plugin :
      Bool → Bytes → Bytes → Option ℕ → Option ℕ → Option ℕ → ℕ → ℕ → Bool → Option Plugin
  unfolding is_name_valid is_nickname_valid
  zis_create_plugin allocated name nickname init term command version service_count lpa =
      if not (is_name_valid isprint name)
      then none
      else if not (is_nickname_valid nickname)
      then none
      else if not allocated
      then none
      else some (record {
        eyecatcher = plugin_eyecatcher;
        version = max_plugin_version;
        lpa = lpa;
        max_service_count = service_count;
        anchor = none;
        name = name;
        nickname = nickname;
        init = init;
        term = term;
        handle_command = command;
        plugin_version = version;
        services = [];
      })

-- `zisPluginAddService`
unfoldable pub zis_plugin_add_service : (ℕ → Bool) → Plugin → Service → ℕ × Plugin
unfolding is_name_valid
zis_plugin_add_service isprint p s =
    if p.max_service_count == length p.services
    then (rc_zis_plugin_sevice_table_full, p)
    else if not s.flags.space_switch && not p.lpa
    then (rc_zis_plugin_incompatible_sevice, p)
    else if not (is_name_valid isprint s.name)
    then (rc_zis_plugin_bad_service_name, p)
    else (rc_zis_plugin_ok, record p { services = p.services ++ s ∷ [] })
