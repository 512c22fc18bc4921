-- ===== src/Server/Anchors/Clean.antt =====
-- After the cleaning no service can be called.
use zss.Prelude.{
  ℕ, ◌≡◌, refl, ap, ◌∙◌, inl, inr, Bool, false, Option, none, some, List, [], ◌∷◌, Bytes, Occurs,
  ◌==◌, ==_iff, arith, Bool-cases, Option-cases,
}
use zss.Service.{ServiceAnchor}
use zss.Plugin.{PluginAnchor}
use zss.Server.State.{ServiceMap, System, State, update}
use zss.Server.Anchors.{
  CmsFlags, modify, deactivate, clean_plugin_anchor, clean_anchor_at, clean_chain, clean_plugins,
  remove_plugin_from_lpa_if_needed,
}
use zss.Server.Anchors.WellFormed.{IsWellFormed}
use zss.Server.Route.{
  ServiceRouterParm, Routed, refused, served, undefined, route_to_anchor, zis_route_service,
}

-- What stands there cannot be called.
abbrev pub IsIdle : Option ServiceAnchor → Type 0
IsIdle none = Unit
IsIdle (some s) = (s.active ≡ false) × (s.serve ≡ none)

modify-IsIdle_self : (h : ℕ → Option ServiceAnchor) (a : ℕ) → IsIdle (modify deactivate h a a)
unfolding modify
modify-IsIdle_self h a = ground (arith, ==_iff a a)

modify-IsIdle :
    (h : ℕ → Option ServiceAnchor) (a b : ℕ) → IsIdle (h b) → IsIdle (modify deactivate h a b)
unfolding modify
modify-IsIdle h a b i = ground (arith, ==_iff a b)

clean_plugin_anchor-IsIdle :
    (l : List ℕ) (h : ℕ → Option ServiceAnchor) (b : ℕ)
    → IsIdle (h b)
    → IsIdle (clean_plugin_anchor h l b)
unfolding clean_plugin_anchor
clean_plugin_anchor-IsIdle [] h b i = i
clean_plugin_anchor-IsIdle (a ∷ l) h b i =
    clean_plugin_anchor-IsIdle l (modify deactivate h a) b (modify-IsIdle h a b i)

clean_plugin_anchor-Occurs :
    (l : List ℕ) (h : ℕ → Option ServiceAnchor) (b : ℕ)
    → Occurs b l
    → IsIdle (clean_plugin_anchor h l b)
unfolding clean_plugin_anchor
clean_plugin_anchor-Occurs [] h b o = absurd o
clean_plugin_anchor-Occurs (a ∷ l) h b (inl e) =
    clean_plugin_anchor-IsIdle l (modify deactivate h a) b (rw (← e) (modify-IsIdle_self h a))
clean_plugin_anchor-Occurs (a ∷ l) h b (inr o) =
    clean_plugin_anchor-Occurs l (modify deactivate h a) b o

module _ {M : Type 0} (sys : System) (flags : CmsFlags) where
  clean_anchor_at-IsIdle :
      (a : ℕ) (o : Option PluginAnchor) (st : State M) (b : ℕ)
      → IsIdle (st.service_at b)
      → IsIdle ((clean_anchor_at sys flags a o st).service_at b)
  unfolding clean_anchor_at
  clean_anchor_at-IsIdle a none st b i = i
  clean_anchor_at-IsIdle a (some p) st b i = clean_plugin_anchor-IsIdle p.services st.service_at b i

  -- The removal of the module leaves the list of services.
  clean_anchor_at-services :
      (a : ℕ) (o : Option PluginAnchor) (st : State M) (w : ℕ) (p : PluginAnchor)
      → st.plugin_at a ≡ o
      → st.plugin_at w ≡ some p
      → (q : PluginAnchor) × ((clean_anchor_at sys flags a o st).plugin_at w ≡ some q)
        × (q.services ≡ p.services)
  unfolding clean_anchor_at remove_plugin_from_lpa_if_needed update
  clean_anchor_at-services a none st w p e f = (p, f, refl)
  clean_anchor_at-services a (some r) st w p e f = elim (Bool-cases (a == w)) [
    | inl g ↦ (
      (remove_plugin_from_lpa_if_needed sys flags r).1,
      ground arith,
      ground (arith, ==_iff a w, ap st.plugin_at ((==_iff a w).0 g)),
    )
    | inr g ↦ (p, ground arith, refl)
  ]

  clean_chain-IsIdle :
      (chain : List ℕ) (st : State M) (b : ℕ)
      → IsIdle (st.service_at b)
      → IsIdle ((clean_chain sys flags chain st).service_at b)
  unfolding clean_chain
  clean_chain-IsIdle [] st b i = i
  clean_chain-IsIdle (a ∷ chain) st b i =
      clean_chain-IsIdle chain _ b (clean_anchor_at-IsIdle a (st.plugin_at a) st b i)

  clean_chain-Occurs :
      (chain : List ℕ) (st : State M) (w b : ℕ) (p : PluginAnchor)
      → Occurs w chain
      → st.plugin_at w ≡ some p
      → Occurs b p.services
      → IsIdle ((clean_chain sys flags chain st).service_at b)
  unfolding clean_chain
  clean_chain-Occurs [] st w b p o e i = absurd o
  clean_chain-Occurs (a ∷ chain) st w b p (inl o) e i =
      let f : st.plugin_at a ≡ some p = rw o e in
      clean_chain-IsIdle chain _ b
        (rw f (unfold clean_anchor_at in clean_plugin_anchor-Occurs p.services st.service_at b i))
  clean_chain-Occurs (a ∷ chain) st w b p (inr o) e i =
      let (q, f, g) = clean_anchor_at-services a (st.plugin_at a) st w p refl e in
      clean_chain-Occurs chain (clean_anchor_at sys flags a (st.plugin_at a) st) w b q o f (rw g i)

  clean_anchor_at-table :
      (a : ℕ) (o : Option PluginAnchor) (st : State M)
      → (clean_anchor_at sys flags a o st).table ≡ st.table
  unfolding clean_anchor_at
  clean_anchor_at-table a none st = refl
  clean_anchor_at-table a (some p) st = refl

  clean_chain-table :
      (chain : List ℕ) (st : State M) → (clean_chain sys flags chain st).table ≡ st.table
  unfolding clean_chain
  clean_chain-table [] st = refl
  clean_chain-table (a ∷ chain) st =
      clean_chain-table chain _ ∙ clean_anchor_at-table a (st.plugin_at a) st

-- An anchor stands there.
abbrev IsPresent : Option ServiceAnchor → Type 0
IsPresent none = ⊥
IsPresent (some s) = Unit

modify-IsPresent :
    (h : ℕ → Option ServiceAnchor) (a b : ℕ) → IsPresent (h b) → IsPresent (modify deactivate h a b)
unfolding modify
modify-IsPresent h a b i = ground (arith, ==_iff a b)

clean_plugin_anchor-IsPresent :
    (l : List ℕ) (h : ℕ → Option ServiceAnchor) (b : ℕ)
    → IsPresent (h b)
    → IsPresent (clean_plugin_anchor h l b)
unfolding clean_plugin_anchor
clean_plugin_anchor-IsPresent [] h b i = i
clean_plugin_anchor-IsPresent (a ∷ l) h b i =
    clean_plugin_anchor-IsPresent l (modify deactivate h a) b (modify-IsPresent h a b i)

clean_chain-IsPresent :
    {M : Type 0} (sys : System) (flags : CmsFlags) (chain : List ℕ) (st : State M) (b : ℕ)
    → IsPresent (st.service_at b)
    → IsPresent ((clean_chain sys flags chain st).service_at b)
unfolding clean_chain
clean_chain-IsPresent sys flags [] st b i = i
clean_chain-IsPresent sys flags (a ∷ chain) st b i =
    clean_chain-IsPresent sys flags chain _ b (cleaned (st.plugin_at a))
  where
    cleaned :
        (o : Option PluginAnchor) → IsPresent ((clean_anchor_at sys flags a o st).service_at b)
    cleaned none = unfold clean_anchor_at in i
    cleaned (some p) =
        unfold clean_anchor_at in clean_plugin_anchor-IsPresent p.services st.service_at b i

-- The router returned a code of its own.
abbrev pub IsRefused : Routed → Type 0
IsRefused (refused rc) = Unit
IsRefused (served f a) = ⊥
IsRefused undefined = ⊥

route_to_anchor-IsRefused :
    (auth : Bytes → Bytes → Bool) (parm : ServiceRouterParm) (a : ℕ) (s : ServiceAnchor)
    → s.active ≡ false
    → IsRefused (route_to_anchor auth parm a s)
unfolding route_to_anchor
route_to_anchor-IsRefused auth parm a s h = ground arith

zis_route_service-IsRefused :
    (t : ServiceMap) (auth : Bytes → Bytes → Bool) (st : State t.Map) (parm : ServiceRouterParm)
    → ((a : ℕ)
        → t.get st.table parm.target_service_path ≡ some a
        → (s : ServiceAnchor) × (st.service_at a ≡ some s) × (s.active ≡ false))
    → IsRefused (zis_route_service t auth st parm)
unfolding zis_route_service
zis_route_service-IsRefused t auth st parm h =
    elim (Option-cases (t.get st.table parm.target_service_path)) [
      | inl e ↦ ground arith
      | inr (a, e) ↦
          let (s, f, g) = h a e in ground (arith, route_to_anchor-IsRefused auth parm a s g)
    ]

idle_anchor :
    (o : Option ServiceAnchor)
    → IsIdle o
    → IsPresent o
    → (s : ServiceAnchor) × (o ≡ some s) × (s.active ≡ false)
idle_anchor none i p = absurd p
idle_anchor (some s) i p = (s, refl, i.0)

-- Once `cleanPlugins` has run on a well-formed state, the router returns a code of its own for
-- every caller: it calls no service function, and follows no address without an anchor.
pub clean_plugins-IsRefused :
    (t : ServiceMap) (sys : System) (flags : CmsFlags) (auth : Bytes → Bytes → Bool)
    (st : State t.Map) (parm : ServiceRouterParm)
    → IsWellFormed t st
    → IsRefused (zis_route_service t auth (clean_plugins sys flags st) parm)
unfolding clean_plugins
clean_plugins-IsRefused t sys flags auth st parm wf =
    zis_route_service-IsRefused t auth _ parm λ a e.
      let target = wf parm.target_service_path a (rw clean_chain-table at e) in
      let listed = target.listed in
      idle_anchor _
        (clean_chain-Occurs sys flags st.chain st listed.owner a listed.owner_anchor listed.in_chain
          listed.owner_at listed.in_services)
        (clean_chain-IsPresent sys flags st.chain st a (rw target.anchor_at tt))
