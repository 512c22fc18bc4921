-- ===== src/Tests/Config.antt =====
-- The configuration and the modify commands at concrete inputs.
use zss.Prelude.{
  ℕ, ◌≡◌, ◌≤◌, ◌<◌, ◌⊎◌, refl, true, false, Option, none, some, [], ◌∷◌, length, Bytes, codes,
  bytes_eq, if◌then◌else◌,
}
use zss.Plugin.{Plugin}
use zss.Server.State.{rc_zis_ok, rc_zis_error}
use zss.Server.Anchors.{CmsFlags}
use zss.Server.Config.{
  cold_start_parm, reset_lookup_parm, get_cms_config_flags, reset_lookup_flag,
  extract_parmlib_member_name, ServerAnchor, init_global_resources, handle_modify_commands,
  nickname_size,
}
use zss.Server.Config.Behaviour.{
  table_after, Reaches, init_global_resources_lem, handle_modify_commands_lem,
}

-- RESET(LOOKUP) on a cold start.
abbrev given : Bytes → Option Bytes
given n =
    if bytes_eq n cold_start_parm
    then some []
    else if bytes_eq n reset_lookup_parm
    then some []
    else none

abbrev prod : Bytes
prod = codes "ZWES"

abbrev flags : CmsFlags
flags = record {
  cold_start = true;
  debug = false;
  checkauth = false;
  dev_mode = false;
  dev_mode_lpa = false;
  reset_lookup = true;
}

given_flags : get_cms_config_flags prod given ≡ some flags
unfolding get_cms_config_flags reset_lookup_flag bytes_eq
given_flags = refl

member_of :
    extract_parmlib_member_name (codes "ZWESIS01") (some (codes "07")) ≡ some (codes "ZWESIP07")
unfolding extract_parmlib_member_name
member_of = refl

abbrev old : ServerAnchor ℕ
old = record { dynlink = false; versioned_context = false; service_table = none }

init_global_resources_lem_example :
    (((init_global_resources true (some 5) (some old)).0 ≡ rc_zis_error)
      × (some old ≡ none)
      × (true ≡ false))
    ⊎ (((init_global_resources true (some 5) (some old)).0 ≡ rc_zis_ok)
        × (a : ServerAnchor ℕ) × ((init_global_resources true (some 5) (some old)).1 ≡ some a)
        × (a.dynlink ≡ true)
        × (a.versioned_context ≡ true)
        × (a.service_table ≡ table_after (some 5) (some old)))
init_global_resources_lem_example = init_global_resources_lem true (some 5) (some old)

abbrev echo : Plugin
echo = record {
  eyecatcher = codes "ZISPLUGN";
  version = 1;
  lpa = false;
  max_service_count = 0;
  anchor = none;
  name = codes "ECHO";
  nickname = codes "ECH ";
  init = none;
  term = none;
  handle_command = some 9;
  plugin_version = 1;
  services = [];
}

handle_modify_commands_lem_example :
    ((nickname_size < length (codes "ECH"))
      × (handle_modify_commands (echo ∷ []) (some (codes "ECH")) ≡ none))
    ⊎ ((length (codes "ECH") ≤ nickname_size)
        × (o : Option Plugin) × (handle_modify_commands (echo ∷ []) (some (codes "ECH")) ≡ some o)
        × Reaches (codes "ECH") o)
handle_modify_commands_lem_example = handle_modify_commands_lem (echo ∷ []) (codes "ECH")
