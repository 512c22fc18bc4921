-- ===== src/Tests/Server.antt =====
-- The server at concrete inputs: a map from paths to addresses, and a module with one plug-in and
-- one service.
use zss.Prelude.{
  ℕ, ◌≡◌, ◌≢◌, ◌↔◌, refl, inl, inr, true, false, Option, none, some, List, [], ◌∷◌, ◌++◌, Bytes,
  All, codes, ◌==◌, if◌then◌else◌, arith, Option-cases,
}
use zss.Service.{zis_create_service_anchor, Service, ServicePath, ServiceAnchor, path_eq}
use zss.Plugin.{Plugin, PluginAnchor, plugin_eyecatcher}
use zss.Parm.Set.{Entry}
use zss.Server.State.{
  update, ServiceMap, PutReply, added, exists, System, returned, entry, descriptor, State,
}
use zss.Server.Anchors.{CmsFlags}
use zss.Server.Anchors.Clean.{IsRefused}
use zss.Server.Route.{ServiceRouterParm, served, router_eyecatcher, zis_route_service}
use zss.Server.Route.Servable.{IsServable, zis_route_service-IsServable}
use zss.Server.Anchors.{modify, find_service_anchor}
use zss.Server.Install.Serves.{install_service-served}
use zss.Server.Install.{
  Round, failed, skipped, activated, call_function, find_usable_anchor, add_service_anchor,
  activate, enter_table, publish_service, install_at, install_service, install_services,
}
use zss.Server.Install.Keeps.{Inv}
use zss.Server.Install.Rounds.{Owned}
use zss.Server.Install.Loop.{install_services-Owned}
use zss.Server.Install.Reach.{Activates, install_service-Activates}
use zss.Server.Deploy.{deploy_plugins, init_server, cleanup_server}
use zss.Server.Deploy.Order.{
  plugin_modules, linkage_modules, other_modules, deploy_all, deploy_plugins-plugin_modules,
}
use zss.Server.Deploy.Safety.{init_server-Inv, cleanup_server-IsRefused}

-- The map as a function.
enter : (ServicePath → Option ℕ) → ServicePath → ℕ → ServicePath → Option ℕ
enter m p a q = if path_eq p q then some a else m q

try_enter : (ServicePath → Option ℕ) → ServicePath → ℕ → PutReply (ServicePath → Option ℕ)
try_enter m p a = elim (m p) [ none ↦ added (enter m p a) | some b ↦ exists ]

try_enter_added :
    (m n : ServicePath → Option ℕ) (p q : ServicePath) (a : ℕ)
    → try_enter m p a ≡ added n
    → n q ≡ (if path_eq p q then some a else m q)
unfolding try_enter enter
try_enter_added m n p q a e = elim (Option-cases (m p)) [
  | inl f ↦ let g : enter m p a ≡ n = ground arith in rw (← g)
  | inr (b, f) ↦ ground arith
]

try_enter_exists :
    (m : ServicePath → Option ℕ) (p : ServicePath) (a : ℕ) → try_enter m p a ≡ exists → m p ≢ none
unfolding try_enter
try_enter_exists m p a e = ground arith

abbrev table : ServiceMap
table = record {
  Map = ServicePath → Option ℕ;
  get = λ m p. m p;
  put = try_enter;
  replace = enter;
  get-put = try_enter_added;
  put_exists = try_enter_exists;
  get-replace = λ m p q a h. unfold enter in refl;
}

abbrev path : ServicePath
path = record { plugin_name = codes "PLUGIN"; service_name = codes "ECHO" }

abbrev echo : Service
echo = record {
  eyecatcher = codes "ZISSRVCE";
  version = 2;
  flags = record { space_switch = true; specific_auth = false };
  anchor = none;
  name = codes "ECHO";
  init = some 11;
  term = none;
  serve = some 12;
  service_version = 3;
  saf_class_name = [];
  saf_entity_name = [];
}

abbrev sample : Plugin
sample = record {
  eyecatcher = plugin_eyecatcher;
  version = 1;
  lpa = false;
  max_service_count = 1;
  anchor = none;
  name = codes "PLUGIN";
  nickname = codes "SMPL";
  init = none;
  term = none;
  handle_command = none;
  plugin_version = 1;
  services = echo ∷ [];
}

abbrev sys : System
sys = record {
  cm_alloc = λ n. true;
  call = λ f a. returned 0;
  lpa_add = λ name. (0, 7);
  lpa_delete = λ m. 0;
  load_module = λ name. entry 5;
  get_descriptor = λ ep. descriptor sample;
  lpa_descriptor = λ m. sample;
  can_inspect = λ p. true;
}

abbrev flags : CmsFlags
flags = record {
  cold_start = false;
  debug = false;
  checkauth = false;
  dev_mode = false;
  dev_mode_lpa = false;
  reset_lookup = false;
}

-- The first start.
abbrev blank : State table.Map
blank = record {
  next = 0;
  service_at = λ a. none;
  plugin_at = λ a. none;
  chain = [];
  table = λ p. none;
  plugins = [];
}

blank-Inv : Inv table blank
blank-Inv = record {
  targets = λ path a e. ground arith;
  free_services = λ b l. refl;
  free_plugins = λ b l. refl;
}

abbrev owner : PluginAnchor
owner = record {
  version = 1;
  lpa = false;
  name = codes "PLUGIN";
  plugin_version = 1;
  services = [];
  module_info = 0;
}

-- A plug-in anchor at address 0.
abbrev owning : State table.Map
owning = record blank {
  next = 1;
  plugin_at = λ a. if a == 0 then some owner else none;
  chain = 0 ∷ [];
}

owning-Owned : Owned table owning 0
owning-Owned = record {
  inv = record {
    targets = λ path a e. ground arith;
    free_services = λ b l. refl;
    free_plugins = λ b l. ground arith;
  };
  in_chain = inl refl;
  owner = owner;
  owner_at = refl;
}

abbrev parm : ServiceRouterParm
parm = record {
  eyecatcher = router_eyecatcher;
  version = 1;
  target_service_path = path;
  service_version = 1;
}

abbrev entries : List Entry
entries = record { key = some (codes "ZWES.PLUGIN.SAMPLE"); value = some (codes "SAMPLE") } ∷ []

abbrev dynlink : Bytes
dynlink = codes "ZWESISDL"

cleanup_server-IsRefused_example : IsRefused (
    zis_route_service table
      (λ c e. true)
      (cleanup_server table sys flags (init_server table sys flags dynlink entries blank))
      parm)
cleanup_server-IsRefused_example =
    cleanup_server-IsRefused table sys flags dynlink entries (λ c e. true) blank parm blank-Inv

init_server-Inv_example : Inv table (init_server table sys flags dynlink entries blank)
init_server-Inv_example = init_server-Inv table sys flags dynlink entries blank blank-Inv

install_service-Activates_example :
    Activates table echo (install_service table sys owning (codes "PLUGIN") 0 owner echo)
install_service-Activates_example =
    install_service-Activates table sys owning (codes "PLUGIN") 0 owner echo

install_services-Owned_example :
    Owned table (install_services table sys owning (codes "PLUGIN") 0 (echo ∷ [])).1 0
install_services-Owned_example =
    install_services-Owned table sys (echo ∷ []) owning (codes "PLUGIN") 0 owning-Owned

-- An active service at address 1.
abbrev active_echo : ServiceAnchor
active_echo = record {
  version = 2;
  flags = record { space_switch = true; specific_auth = false };
  active = true;
  discarded = false;
  path = path;
  service_version = 3;
  plugin_anchor = some 0;
  serve = some 12;
  saf_class_name = [];
  saf_entity_name = [];
}

abbrev serving : State table.Map
serving = record owning {
  service_at = λ a. if a == 1 then some active_echo else none;
  table = λ p. if path_eq path p then some 1 else none;
}

zis_route_service-IsServable_example :
    (zis_route_service table (λ c e. true) serving parm ≡ served 12 1)
    ↔ ((table.get serving.table path ≡ some 1) × IsServable (λ c e. true) parm active_echo 12)
zis_route_service-IsServable_example =
    zis_route_service-IsServable table (λ c e. true) serving parm 12 1 active_echo refl

deploy_plugins-plugin_modules_example :
    (deploy_plugins table sys flags dynlink entries blank
      ≡ deploy_all table sys flags
          (linkage_modules dynlink (plugin_modules entries)
            ++ other_modules dynlink (plugin_modules entries))
          blank)
    × All (λ m. m ≡ dynlink) (linkage_modules dynlink (plugin_modules entries))
    × All (λ m. m ≢ dynlink) (other_modules dynlink (plugin_modules entries))
deploy_plugins-plugin_modules_example =
    deploy_plugins-plugin_modules table sys flags dynlink entries blank

abbrev state_of : Round table.Map → State table.Map
state_of (failed a st) = st
state_of (skipped a st) = st
state_of (activated a st) = st

-- The installation of the service at address 1.
abbrev installed : State table.Map
installed = state_of (install_service table sys owning (codes "PLUGIN") 0 owner echo)

round_result :
    install_service table sys owning (codes "PLUGIN") 0 owner echo ≡ activated 1 installed
unfolding install_service find_service_anchor find_usable_anchor install_at publish_service
    call_function add_service_anchor enter_table activate try_enter enter update modify
    zis_create_service_anchor
round_result = refl

anchor_present : installed.service_at 1 ≡ some active_echo
unfolding install_service find_service_anchor find_usable_anchor install_at publish_service
    call_function add_service_anchor enter_table activate try_enter enter update modify
    zis_create_service_anchor
anchor_present = refl

install_service-served_example : zis_route_service table (λ c e. true) installed parm ≡ served 12 1
install_service-served_example =
    install_service-served table sys (λ c e. true) owning installed (codes "PLUGIN") 0 owner echo 1
      12 active_echo parm round_result anchor_present refl
      (record {
        eyecatcher = refl;
        router_version_le = omega arith;
        path = refl;
        service_version_le = omega arith;
      })
      (inl refl)
