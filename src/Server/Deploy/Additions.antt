-- ===== src/Server/Deploy/Additions.antt =====
-- What the installation of a plug-in leaves in the list of plug-ins.
use mathlib.Core.Path.{subst}
use zss.Prelude.{
  ℕ, ◌+◌, refl, sym, ap, ◌∙◌, ◌==◌, Option, ◌≡◌, ◌≢◌, ◌⊎◌, inl, inr, false, none, some, ◌∷◌, Bytes,
  arith, Bool-cases, Option-cases,
}
use zss.Plugin.{PluginAnchor, Plugin}
use zss.Server.State.{ServiceMap, System, State, update, rc_zis_ok, rc_zis_error}
use zss.Server.Anchors.{CmsFlags, find_plugin_anchor}
use zss.Server.Install.{call_function, install_services}
use zss.Server.Install.Plugins.{install_services-plugins}
use zss.Server.Deploy.{
  install_plugin, discard_from_lpa, relocate_plugin_to_lpa_if_needed, add_plugin, start_plugin,
  install_with_anchor, add_plugin_anchor,
}

module _ (t : ServiceMap) (sys : System) (flags : CmsFlags) where
  -- A plug-in is put in front of those of the server, with its anchor. It has the plug-in's names, unless
  -- its module goes to LPA, whose own descriptor then counts.
  abbrev pub Adds : State t.Map → Plugin → State t.Map → Type 0
  Adds st p st' =
      (q : Plugin) × (w : ℕ) × (st'.plugins ≡ record q { anchor = some w } ∷ st.plugins)
      × (p.lpa ≡ false → (q.name ≡ p.name) × (q.nickname ≡ p.nickname))

  -- The plug-in is installed, or the installation fails and adds none.
  abbrev pub Installs : State t.Map → Plugin → ℕ × State t.Map → Type 0
  Installs st p r = Adds st p r.1 ⊎ ((r.0 ≢ 0) × (r.1.plugins ≡ st.plugins))

  relocate-same :
      (p : Plugin) (a : PluginAnchor) (name : Bytes)
      → p.lpa ≡ false
      → (relocate_plugin_to_lpa_if_needed sys flags p a name).1 ≡ p
  unfolding relocate_plugin_to_lpa_if_needed
  relocate-same p a name h = elim (Bool-cases ((discard_from_lpa sys flags p a).0 == 0)) [
    | inl e ↦ rw (e, relocate_plugin_to_lpa_if_needed) (rw h refl)
    | inr e ↦ rw (e, relocate_plugin_to_lpa_if_needed) refl
  ]

  start_plugin-Adds :
      (st : State t.Map) (p : Plugin) (w : ℕ) (a : PluginAnchor)
      → (q : Plugin) × ((start_plugin t sys flags st p w a).1.plugins
          ≡ record q { anchor = some w } ∷ st.plugins)
        × (q.name ≡ p.name)
        × (q.nickname ≡ p.nickname)
  unfolding start_plugin add_plugin
  start_plugin-Adds st p w a =
      let known = record st {
        plugin_at = update st.plugin_at w (record a { plugin_version = p.plugin_version });
      } in
      let kept = install_services-plugins t sys known p.name w p.services in
      elim (Bool-cases (call_function sys p.init w == rc_zis_ok)) [
        | inl e ↦
            let q : Plugin = record p {
              services = (install_services t sys known p.name w p.services).2;
            } in
            (q, rw (e, start_plugin) (ap (λ l. record q { anchor = some w } ∷ l) kept), refl, refl)
        | inr e ↦ (p, rw (e, start_plugin) refl, refl, refl)
      ]

  install_with_anchor-Installs :
      (st : State t.Map) (p : Plugin) (name : Bytes) (w : ℕ) (o : Option PluginAnchor)
      → Installs st p (install_with_anchor t sys flags st p name w o)
  unfolding install_with_anchor
  install_with_anchor-Installs st p name w none = inr (λ h. ground (arith, h), refl)
  install_with_anchor-Installs st p name w (some a) =
      let moved = relocate_plugin_to_lpa_if_needed sys flags p a name in
      elim (Bool-cases (moved.0 == rc_zis_ok)) [
        | inl e ↦
            let (q, added, n, k) = start_plugin-Adds st moved.1 w moved.2 in
            inl (
              q,
              w,
              rw (e, install_with_anchor) added,
              λ h.
                  let same = relocate-same p a name h in
                  (n ∙ ap (λ x. x.name) same, k ∙ ap (λ x. x.nickname) same),
            )
        | inr e ↦ inr (
          rw (e, install_with_anchor) (λ h. ground (arith, e, h)),
          rw (e, install_with_anchor) refl,
        )
      ]

  pub install_plugin-Installs :
      (st : State t.Map) (p : Plugin) (name : Bytes)
      → Installs st p (install_plugin t sys flags st p name)
  unfolding install_plugin add_plugin_anchor
  install_plugin-Installs st p name =
      elim (Option-cases (find_plugin_anchor st.plugin_at st.chain p.name)) [
        | inr (w, e) ↦
            let found : install_plugin t sys flags st p name
                ≡ install_with_anchor t sys flags st p name w (st.plugin_at w) =
              rw (e, install_plugin) in
            subst (λ r. Installs st p r) (sym found)
              (install_with_anchor-Installs st p name w (st.plugin_at w))
        | inl e ↦ elim (Bool-cases (sys.cm_alloc st.next)) [
          | inr f ↦
              let full : install_plugin t sys flags st p name
                  ≡ (rc_zis_error, record st { next = st.next + 1 }) =
                rw (e, install_plugin) (rw f refl) in
              subst (λ r. Installs st p r) (sym full) (inr (λ h. ground (arith, h), refl))
          | inl f ↦
              let st' = add_plugin_anchor t sys flags st p in
              let made : install_plugin t sys flags st p name
                  ≡ install_with_anchor t sys flags st' p name st.next (st'.plugin_at st.next) =
                rw (e, install_plugin) (rw f refl) in
              subst (λ r. Installs st p r) (sym made)
                (install_with_anchor-Installs st' p name st.next (st'.plugin_at st.next))
        ]
      ]
