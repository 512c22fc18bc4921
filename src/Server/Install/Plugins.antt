-- ===== src/Server/Install/Plugins.antt =====
-- The installation of services leaves the plug-ins of the server alone.
use zss.Prelude.{
  ℕ, ◌≡◌, ◌⊎◌, refl, sym, ap, ◌∙◌, ◌==◌, Bool-cases, Option, none, some, List, [], ◌∷◌, Bytes, inl,
  inr, Option-cases,
}
use zss.Service.{Service, ServiceAnchor, is_service_anchor_compatible}
use zss.Server.Anchors.{find_service_anchor}
use zss.Plugin.{PluginAnchor}
use zss.Server.State.{ServiceMap, System, State}
use zss.Server.Install.{
  Round, failed, skipped, activated, find_usable_anchor, install_at, install_service,
  install_services, publish_service, add_service_anchor, enter_table, activate,
  update_service_anchor, call_function,
}

-- The state behind a round.
abbrev state_of : {M : Type 0} → Round M → State M
state_of (failed a st) = st
state_of (skipped a st) = st
state_of (activated a st) = st

find_usable_anchor-plugins :
    {M : Type 0} (st : State M) (o : Option ℕ) (s : Service)
    → (find_usable_anchor st o s).0.plugins ≡ st.plugins
unfolding find_usable_anchor
find_usable_anchor-plugins st none s = refl
find_usable_anchor-plugins st (some a) s = elim (Option-cases (st.service_at a)) [
  | inl e ↦ rw (e, find_usable_anchor) refl
  | inr (b, e) ↦ elim (Bool-cases (is_service_anchor_compatible s b)) [
    | inl f ↦ rw (e, find_usable_anchor) (rw f refl)
    | inr f ↦ rw (e, find_usable_anchor) (rw f refl)
  ]
]

Round-cases :
    {M : Type 0} (r : Round M)
    → ((st : State M) × (r ≡ failed none st))
      ⊎ ((a : ℕ) × (st : State M) × (r ≡ failed (some a) st))
      ⊎ ((a : ℕ) × (st : State M) × (r ≡ skipped a st))
      ⊎ ((a : ℕ) × (st : State M) × (r ≡ activated a st))
Round-cases (failed none st) = inl (st, refl)
Round-cases (failed (some a) st) = inr (inl (a, st, refl))
Round-cases (skipped a st) = inr (inr (inl (a, st, refl)))
Round-cases (activated a st) = inr (inr (inr (a, st, refl)))

module _ (t : ServiceMap) (sys : System) where
  publish_service-plugins :
      (st : State t.Map) (o : Option ServiceAnchor) (a : ℕ) (s : Service)
      → (state_of (publish_service t sys st o a s)).plugins ≡ st.plugins
  unfolding publish_service activate
  publish_service-plugins st none a s = refl
  publish_service-plugins st (some anchor) a s =
      elim (Bool-cases (call_function sys s.init a == 0)) [
        | inr e ↦ rw (e, publish_service) refl
        | inl e ↦ elim (Option-cases (enter_table t sys st.table anchor a)) [
          | inl f ↦ rw (e, publish_service) (rw f refl)
          | inr (n, f) ↦ rw (e, publish_service) (rw f refl)
        ]
      ]

  install_at-plugins :
      (st : State t.Map) (name : Bytes) (w : ℕ) (p : PluginAnchor) (o : Option ℕ) (s : Service)
      → (state_of (install_at t sys st name w p o s)).plugins ≡ st.plugins
  unfolding install_at add_service_anchor update_service_anchor
  install_at-plugins st name w p (some a) s = publish_service-plugins _ _ a s
  install_at-plugins st name w p none s = elim (Bool-cases (sys.cm_alloc st.next)) [
    | inl e ↦
        rw (e, install_at) (publish_service-plugins (add_service_anchor st name w p s) _ st.next s)
    | inr e ↦ rw (e, install_at) refl
  ]

  install_service-plugins :
      (st : State t.Map) (name : Bytes) (w : ℕ) (p : PluginAnchor) (s : Service)
      → (state_of (install_service t sys st name w p s)).plugins ≡ st.plugins
  unfolding install_service
  install_service-plugins st name w p s =
      let found = find_service_anchor st.service_at p.services s.name in
      let usable = find_usable_anchor st found s in
      install_at-plugins usable.0 name w p usable.1 s ∙ find_usable_anchor-plugins st found s

  -- The installation of services leaves the plug-ins of the server alone.
  pub install_services-plugins :
      (st : State t.Map) (name : Bytes) (w : ℕ) (services : List Service)
      → (install_services t sys st name w services).1.plugins ≡ st.plugins
  unfolding install_services
  install_services-plugins st name w [] = refl
  install_services-plugins st name w (s ∷ services) = elim (Option-cases (st.plugin_at w)) [
    | inl e ↦ rw (e, install_services) refl
    | inr (p, e) ↦
        let kept = install_service-plugins st name w p s in
        elim (Round-cases (install_service t sys st name w p s)) [
          | inl (st', h) ↦
              rw (e, install_services) (rw h (sym (ap (λ r. (state_of r).plugins) h) ∙ kept))
          | inr (inl (a, st', h)) ↦
              rw (e, install_services) (rw h (sym (ap (λ r. (state_of r).plugins) h) ∙ kept))
          | inr (inr (inl (a, st', h))) ↦
              rw (e, install_services)
                (rw h (
                  install_services-plugins st' name w services
                  ∙ sym (ap (λ r. (state_of r).plugins) h)
                  ∙ kept))
          | inr (inr (inr (a, st', h))) ↦
              rw (e, install_services)
                (rw h (
                  install_services-plugins st' name w services
                  ∙ sym (ap (λ r. (state_of r).plugins) h)
                  ∙ kept))
        ]
  ]
