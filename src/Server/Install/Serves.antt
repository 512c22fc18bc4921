-- ===== src/Server/Install/Serves.antt =====
-- From the installation of a service to its call.
use zss.Prelude.{ℕ, ◌≤◌, ◌≡◌, sym, ◌∙◌, ap, ◌⊎◌, inl, inr, Bool, true, false, some, Bytes}
use zss.Service.{Service, ServiceAnchor}
use zss.Service.Auth.{ActsFor}
use zss.Plugin.{PluginAnchor}
use zss.Server.State.{ServiceMap, System, State}
use zss.Server.Route.{
  ServiceRouterParm, served, router_eyecatcher, router_version, zis_route_service,
}
use zss.Server.Route.Servable.{zis_route_service-IsServable}
use zss.Server.Install.{activated, install_service}
use zss.Server.Install.Reach.{IsReachable, install_service-Activates}

-- The caller's block is the router's and asks for the service on the path of the anchor.
pub record IsRequest (parm : ServiceRouterParm) (service : Service) (s : ServiceAnchor)
    : Type 0 where
  pub eyecatcher : parm.eyecatcher ≡ router_eyecatcher
  pub router_version_le : parm.version ≤ router_version
  pub path : parm.target_service_path ≡ s.path
  pub service_version_le : parm.service_version ≤ service.service_version

-- The caller may use the service.
abbrev pub IsOpen : (Bytes → Bytes → Bool) → Service → Type 0
IsOpen auth service =
    (service.flags.specific_auth ≡ false)
    ⊎ (auth service.saf_class_name service.saf_entity_name ≡ true)

authorized :
    (auth : Bytes → Bytes → Bool) (service : Service) (s : ServiceAnchor)
    → ActsFor service s
    → IsOpen auth service
    → (s.flags.specific_auth ≡ false) ⊎ (auth s.saf_class_name s.saf_entity_name ≡ true)
authorized auth service s acts (inl e) = inl (acts.specific_auth ∙ e)
authorized auth service s acts (inr e) = elim acts.class_name [
  | inl f ↦ inl (acts.specific_auth ∙ f)
  | inr f ↦ elim acts.entity_name [
    | inl g ↦ inl (acts.specific_auth ∙ g)
    | inr g ↦ inr (rw (f, g) e)
  ]
]

-- Once a round of the installation has activated a service, a request on the path of its anchor
-- by a caller who may use the service reaches the service's own function, with that anchor.
pub install_service-served :
    (t : ServiceMap) (sys : System) (auth : Bytes → Bytes → Bool) (st st' : State t.Map)
    (name : Bytes) (w : ℕ) (p : PluginAnchor) (service : Service) (a f : ℕ) (s : ServiceAnchor)
    (parm : ServiceRouterParm)
    → install_service t sys st name w p service ≡ activated a st'
    → st'.service_at a ≡ some s
    → service.serve ≡ some f
    → IsRequest parm service s
    → IsOpen auth service
    → zis_route_service t auth st' parm ≡ served f a
install_service-served t sys auth st st' name w p service a f s parm e at serve r open_to =
    let reach : IsReachable t service a st' =
      rw e at (install_service-Activates t sys st name w p service) in
    let same : reach.anchor ≡ s = cc (reach.anchor_at, at) in
    let acts : ActsFor service s = rw same at reach.acts in
    (zis_route_service-IsServable t auth st' parm f a s at).1 (
      ap (t.get st'.table) (r.path ∙ ap (λ x. x.path) (sym same)) ∙ reach.target,
      record {
        eyecatcher = r.eyecatcher;
        router_version_le = r.router_version_le;
        new_enough = inl (rw (sym acts.service_version) at r.service_version_le);
        active = ap (λ x. x.active) (sym same) ∙ reach.active;
        authorized = authorized auth service s acts open_to;
        function = acts.serve ∙ serve;
      },
    )
