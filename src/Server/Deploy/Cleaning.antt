-- ===== src/Server/Deploy/Cleaning.antt =====
-- Writing the plug-in anchors, and the cleaning, keep the table well formed.
use zss.Prelude.{
  ℕ, ◌≡◌, refl, ap, ◌∙◌, inl, inr, Option, none, some, List, [], ◌∷◌, Occurs, ◌==◌, ==_iff, arith,
  Bool-cases,
}
use mathlib.Core.Path.{subst}
use zss.Plugin.{Plugin, PluginAnchor}
use zss.Server.State.{ServiceMap, System, State, update}
use zss.Server.Anchors.{
  CmsFlags, modify, deactivate, clean_plugin_anchor, clean_anchor_at, clean_chain,
  remove_plugin_from_lpa_if_needed,
}
use zss.Server.Anchors.WellFormed.{IsListed}
use zss.Server.Install.Keeps.{Inv, modify-Inv, update_eq, update_ne}

-- The context's list of plug-ins is no part of the invariant.
pub Inv-plugins :
    (t : ServiceMap) (st : State t.Map) (l : List Plugin)
    → Inv t st
    → Inv t (record st { plugins = l })
Inv-plugins t st l v = record {
  targets = λ path b e.
      let old = v.targets path b e in
      let k = old.listed in
      record {
        anchor = old.anchor;
        anchor_at = old.anchor_at;
        same_path = old.same_path;
        listed = record {
          owner = k.owner;
          owner_anchor = k.owner_anchor;
          in_chain = k.in_chain;
          owner_at = k.owner_at;
          in_services = k.in_services;
        };
      };
  free_services = v.free_services;
  free_plugins = v.free_plugins;
}

-- A plug-in anchor is written that lists the same services.
module _ (t : ServiceMap) (st : State t.Map) (w : ℕ) (p q : PluginAnchor) (v : Inv t st)
    (at : st.plugin_at w ≡ some p) (same : q.services ≡ p.services) where
  abbrev rewritten : State t.Map
  rewritten = record st { plugin_at = update st.plugin_at w q }

  relist : (b : ℕ) → IsListed st b → IsListed rewritten b
  relist b l = elim (Bool-cases (w == l.owner)) [
    | inl g ↦
        let e = (==_iff w l.owner).0 g in
        let i : l.owner_anchor.services ≡ q.services =
          ground (arith, ap st.plugin_at e, l.owner_at) in
        record {
          owner = w;
          owner_anchor = q;
          in_chain = rw e l.in_chain;
          owner_at = update_eq st.plugin_at w q;
          in_services = subst (λ (x : List ℕ). Occurs b x) i l.in_services;
        }
    | inr g ↦ record {
      owner = l.owner;
      owner_anchor = l.owner_anchor;
      in_chain = l.in_chain;
      owner_at = update_ne st.plugin_at w l.owner q (ground (arith, ==_iff w l.owner)) ∙ l.owner_at;
      in_services = l.in_services;
    }
  ]

  pub rewrite_plugin-Inv : Inv t rewritten
  rewrite_plugin-Inv = record {
    targets = λ path b e.
        let old = v.targets path b e in
        record {
          anchor = old.anchor;
          anchor_at = old.anchor_at;
          same_path = old.same_path;
          listed = relist b old.listed;
        };
    free_services = v.free_services;
    free_plugins = λ b l.
        update_ne st.plugin_at w b q (λ e. cc (at, ap st.plugin_at e, v.free_plugins b l))
        ∙ v.free_plugins b l;
  }

clean_plugin_anchor-Inv :
    (t : ServiceMap) (l : List ℕ) (st : State t.Map)
    → Inv t st
    → Inv t (record st { service_at = clean_plugin_anchor st.service_at l })
unfolding clean_plugin_anchor
clean_plugin_anchor-Inv t [] st v = v
clean_plugin_anchor-Inv t (a ∷ l) st v =
    clean_plugin_anchor-Inv t l (record st { service_at = modify deactivate st.service_at a })
      (modify-Inv t st deactivate a (λ s. refl) v)

module _ (t : ServiceMap) (sys : System) (flags : CmsFlags) where
  removed-services :
      (p : PluginAnchor) → (remove_plugin_from_lpa_if_needed sys flags p).1.services ≡ p.services
  unfolding remove_plugin_from_lpa_if_needed
  removed-services p = ground arith

  clean_anchor_at-Inv :
      (st : State t.Map) (a : ℕ) (o : Option PluginAnchor)
      → st.plugin_at a ≡ o
      → Inv t st
      → Inv t (clean_anchor_at sys flags a o st)
  unfolding clean_anchor_at
  clean_anchor_at-Inv st a none e v = v
  clean_anchor_at-Inv st a (some p) e v =
      rewrite_plugin-Inv t (record st { service_at = clean_plugin_anchor st.service_at p.services })
        a p _ (clean_plugin_anchor-Inv t p.services st v) e (removed-services p)

  pub clean_chain-Inv :
      (chain : List ℕ) (st : State t.Map) → Inv t st → Inv t (clean_chain sys flags chain st)
  unfolding clean_chain
  clean_chain-Inv [] st v = v
  clean_chain-Inv (a ∷ chain) st v =
      clean_chain-Inv chain _ (clean_anchor_at-Inv st a (st.plugin_at a) refl v)
