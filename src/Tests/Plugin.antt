-- ===== src/Tests/Plugin.antt =====
-- Plug-ins and services at concrete inputs, with the ASCII character classes.
use zss.Prelude.{
  ℕ, ◌≡◌, ◌↔◌, refl, Bool, true, false, ◌&&◌, not, none, some, [], ◌∷◌, codes, ◌==◌, leb, arith,
}
use zss.Service.{Service, ServiceAnchor, zis_update_service_anchor, is_service_anchor_compatible}
use zss.Service.Auth.{ActsFor, zis_update_service_anchor-ActsFor}
use zss.Plugin.{Plugin, is_nickname_valid}
use zss.Plugin.Names.{IsPadded, is_nickname_valid-IsPadded}

abbrev isspace : ℕ → Bool
isspace c = c == b' '

abbrev isprint : ℕ → Bool
isprint c = leb 32 c && leb c 126

abbrev isgraph : ℕ → Bool
isgraph c = leb 33 c && leb c 126

classes : (c : ℕ) → isprint c ≡ true → isgraph c ≡ not (isspace c)
classes c h = ground arith

is_nickname_valid-IsPadded_example :
    (is_nickname_valid isprint isgraph isspace (b'E' ∷ codes "CH ") ≡ true) ↔ (
      (isprint b'E' ≡ true)
      × (isgraph b'E' ≡ true)
      × IsPadded isprint isgraph isspace classes (codes "CH "))
is_nickname_valid-IsPadded_example =
    is_nickname_valid-IsPadded isprint isgraph isspace classes b'E' (codes "CH ")

abbrev echo : Service
echo = record {
  eyecatcher = codes "ZISSRVCE";
  version = 2;
  flags = record { space_switch = true; specific_auth = false };
  anchor = none;
  name = codes "ECHO";
  init = none;
  term = none;
  serve = some 12;
  service_version = 3;
  saf_class_name = [];
  saf_entity_name = [];
}

abbrev sample : Plugin
sample = record {
  eyecatcher = codes "ZISPLUGN";
  version = 1;
  lpa = false;
  max_service_count = 1;
  anchor = none;
  name = codes "SAMPLE";
  nickname = codes "SMPL";
  init = none;
  term = none;
  handle_command = none;
  plugin_version = 1;
  services = [];
}

-- `echo` for one class of callers.
abbrev guarded : Service
guarded = record echo {
  saf_class_name = codes "FACILITY";
  saf_entity_name = codes "ZWES.IS";
  flags = record { space_switch = true; specific_auth = true };
}

-- An anchor of an earlier start.
abbrev anchor : ServiceAnchor
anchor = record {
  version = 2;
  flags = record { space_switch = true; specific_auth = false };
  active = false;
  discarded = false;
  path = record { plugin_name = codes "SAMPLE"; service_name = codes "ECHO" };
  service_version = 2;
  plugin_anchor = some 0;
  serve = some 8;
  saf_class_name = [];
  saf_entity_name = [];
}

guarded_anchor : is_service_anchor_compatible guarded anchor ≡ true
unfolding is_service_anchor_compatible
guarded_anchor = refl

zis_update_service_anchor-ActsFor_example :
    ActsFor guarded (zis_update_service_anchor anchor guarded)
zis_update_service_anchor-ActsFor_example =
    zis_update_service_anchor-ActsFor guarded anchor guarded_anchor
