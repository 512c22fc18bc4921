-- ===== src/Service.antt =====
-- Services and their anchors: h/zis/service.h, c/zis/service.c. Of the flag and state words the
-- bits that the code names are kept, as Booleans. Function pointers are numbers, NULL is `none`.
-- The header fields that nothing reads (key, subpool, size, reserved) are left out.
pub mod Auth
use zss.Prelude.{
  ℕ, ◌+◌, ◌≡◌, Bool, true, false, ◌&&◌, ◌||◌, Option, none, some, List, [], length, Bytes, codes,
  bytes_eq, ltb, leb, if◌then◌else◌,
}

pub record ServicePath : Type 0 where
  pub plugin_name : Bytes
  pub service_name : Bytes

-- The key of the service table is the whole path.
abbrev pub path_eq : ServicePath → ServicePath → Bool
path_eq p q = bytes_eq p.plugin_name q.plugin_name && bytes_eq p.service_name q.service_name

pub record ServiceFlags : Type 0 where
  pub space_switch : Bool
  pub specific_auth : Bool

-- `ZISService`
pub record Service : Type 0 where
  pub eyecatcher : Bytes
  pub version : ℕ
  pub flags : ServiceFlags
  pub anchor : Option ℕ
  pub name : Bytes
  pub init : Option ℕ
  pub term : Option ℕ
  pub serve : Option ℕ
  pub service_version : ℕ
  pub saf_class_name : Bytes
  pub saf_entity_name : Bytes

-- `ZISServiceAnchor`
pub record ServiceAnchor : Type 0 where
  pub version : ℕ
  pub flags : ServiceFlags
  pub active : Bool
  pub discarded : Bool
  pub path : ServicePath
  pub service_version : ℕ
  pub plugin_anchor : Option ℕ
  pub serve : Option ℕ
  pub saf_class_name : Bytes
  pub saf_entity_name : Bytes

abbrev pub service_eyecatcher : Bytes
service_eyecatcher = codes "ZISSRVCE"

-- ZIS_SERVICE_VERSION, ZIS_SERVICE_ANCHOR_VERSION and ZIS_SERVICE_ANCHOR_VERSION_SAF_SUPPORT.
abbrev pub max_service_version : ℕ
max_service_version = 2

abbrev pub service_anchor_version : ℕ
service_anchor_version = 2

abbrev pub saf_support_version : ℕ
saf_support_version = 2

-- `zisCreateService`; what the initialiser does not name is zero.
unfoldable pub zis_create_service :
    Bytes → ServiceFlags → Option ℕ → Option ℕ → Option ℕ → ℕ → Service
zis_create_service name flags init term serve version = record {
  eyecatcher = service_eyecatcher;
  version = max_service_version;
  flags = flags;
  anchor = none;
  name = name;
  init = init;
  term = term;
  serve = serve;
  service_version = version;
  saf_class_name = [];
  saf_entity_name = [];
}

-- `zisCreateSpaceSwitchService`
unfoldable pub zis_create_space_switch_service :
    Bytes → Option ℕ → Option ℕ → Option ℕ → ℕ → Service
unfolding zis_create_service
zis_create_space_switch_service name =
    zis_create_service name (record { space_switch = true; specific_auth = false })

-- `zisCreateCurrentPrimaryService`
unfoldable pub zis_create_current_primary_service :
    Bytes → Option ℕ → Option ℕ → Option ℕ → ℕ → Service
unfolding zis_create_service
zis_create_current_primary_service name =
    zis_create_service name (record { space_switch = false; specific_auth = false })

-- The sizes of `safClassName` and `safEntityName`, the NUL included.
abbrev pub saf_class_size : ℕ
saf_class_size = 9

abbrev pub saf_entity_size : ℕ
saf_entity_size = 256

-- `zisServiceUseSpecificAuth`; `none` is -1, with the service as it was.
unfoldable pub zis_service_use_specific_auth : Service → Bytes → Bytes → Option Service
zis_service_use_specific_auth s class_name entity_name =
    if ltb saf_class_size (length class_name + 1)
    then none
    else if ltb saf_entity_size (length entity_name + 1)
    then none
    else some (record s {
      saf_class_name = class_name;
      saf_entity_name = entity_name;
      flags = record { space_switch = s.flags.space_switch; specific_auth = true };
    })

-- `zisCreateServiceAnchor` behind the allocation, for a plugin of this name and anchor.
unfoldable pub zis_create_service_anchor : Bytes → Option ℕ → Service → ServiceAnchor
zis_create_service_anchor plugin_name plugin_anchor s = record {
  version = service_anchor_version;
  flags = s.flags;
  active = false;
  discarded = false;
  path = record { plugin_name = plugin_name; service_name = s.name };
  service_version = s.service_version;
  plugin_anchor = plugin_anchor;
  serve = s.serve;
  saf_class_name = s.saf_class_name;
  saf_entity_name = s.saf_entity_name;
}

-- `zisUpdateServiceAnchor`: the SAF names only if the anchor has room for them.
unfoldable pub zis_update_service_anchor : ServiceAnchor → Service → ServiceAnchor
zis_update_service_anchor a s =
    let updated = record a {
      flags = s.flags;
      serve = s.serve;
      service_version = s.service_version;
    } in
    if s.flags.specific_auth && leb saf_support_version a.version
    then record updated { saf_class_name = s.saf_class_name; saf_entity_name = s.saf_entity_name }
    else updated

-- `isServiceAnchorCompatible` of c/zis/server.c
unfoldable pub is_service_anchor_compatible : Service → ServiceAnchor → Bool
is_service_anchor_compatible s a =
    if s.flags.specific_auth && ltb a.version saf_support_version then false else true

-- `isServiceValid` of c/zis/server.c
unfoldable pub is_service_valid : Service → Bool
is_service_valid s =
    if bytes_eq s.eyecatcher service_eyecatcher
    then (if ltb max_service_version s.version then false else true)
    else false
