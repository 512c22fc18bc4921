-- ===== src/Server/Deploy/Safety.antt =====
-- From the start to the stop of the server: the table stays well formed, and after the stop nothing
-- can be called.
use zss.Prelude.{
  ℕ, ◌+◌, ◌≡◌, refl, ap, ◌∙◌, inl, inr, Bool, true, false, Option, none, some, List, [], ◌∷◌, Bytes,
  Occurs, ◌==◌, if◌then◌else◌, arith, Bool-cases, Option-cases,
}
use zss.Plugin.{Plugin, PluginAnchor}
use zss.Parm.Set.{Entry, zis_iterate_parms}
use zss.Server.State.{ServiceMap, System, State, update, rc_zis_ok}
use zss.Server.Anchors.{CmsFlags, find_plugin_anchor, is_plugin_anchor, clean_plugins}
use zss.Server.Anchors.Clean.{IsRefused, clean_plugins-IsRefused}
use zss.Server.Route.{ServiceRouterParm, zis_route_service}
use zss.Server.Install.{call_function}
use zss.Server.Install.Keeps.{Inv, Inv-later, update_eq, update_ne}
use zss.Server.Install.Rounds.{Owned}
use zss.Server.Install.Loop.{install_services-Owned}
use zss.Server.Deploy.{
  relocate_plugin_to_lpa_if_needed, add_plugin, start_plugin, install_with_anchor,
  add_plugin_anchor, install_plugin, try_loading_plugin, is_plugin_valid, is_duplicate_plugin,
  deploy_module, deploy_value, visit_plugin_parm, deploy_plugins, init_server, cleanup_server,
}
use zss.Server.Deploy.Cleaning.{Inv-plugins, rewrite_plugin-Inv, clean_chain-Inv}

module _ (t : ServiceMap) (sys : System) (flags : CmsFlags) where
  relocated-services :
      (plugin : Plugin) (p : PluginAnchor) (name : Bytes)
      → (relocate_plugin_to_lpa_if_needed sys flags plugin p name).2.services ≡ p.services
  unfolding relocate_plugin_to_lpa_if_needed
  relocated-services plugin p name = ground arith

  start_plugin-Inv :
      (st : State t.Map) (plugin : Plugin) (w : ℕ) (p q : PluginAnchor)
      → Inv t st
      → Occurs w st.chain
      → st.plugin_at w ≡ some p
      → q.services ≡ p.services
      → Inv t (start_plugin t sys flags st plugin w q).1
  unfolding start_plugin add_plugin
  start_plugin-Inv st plugin w p q v c e s =
      let r : PluginAnchor = record q { plugin_version = plugin.plugin_version } in
      let known = rewrite_plugin-Inv t st w p r v e s in
      let owned : Owned t (record st { plugin_at = update st.plugin_at w r }) w = record {
        inv = known;
        in_chain = c;
        owner = r;
        owner_at = update_eq st.plugin_at w r;
      } in
      let done = install_services-Owned t sys plugin.services _ plugin.name w owned in
      elim (Bool-cases (call_function sys plugin.init w == rc_zis_ok)) [
        | inl g ↦ rw (g, start_plugin) (Inv-plugins t _ _ done.inv)
        | inr g ↦ rw (g, start_plugin) (Inv-plugins t _ _ known)
      ]

  install_with_anchor-Inv :
      (st : State t.Map) (plugin : Plugin) (name : Bytes) (w : ℕ) (o : Option PluginAnchor)
      → Inv t st
      → Occurs w st.chain
      → st.plugin_at w ≡ o
      → Inv t (install_with_anchor t sys flags st plugin name w o).1
  unfolding install_with_anchor
  install_with_anchor-Inv st plugin name w none v c e = v
  install_with_anchor-Inv st plugin name w (some p) v c e =
      let (rc, plugin', q) = relocate_plugin_to_lpa_if_needed sys flags plugin p name in
      let same = relocated-services plugin p name in
      elim (Bool-cases (rc == rc_zis_ok)) [
        | inl g ↦ rw (g, install_with_anchor) (start_plugin-Inv st plugin' w p q v c e same)
        | inr g ↦ rw (g, install_with_anchor) (rewrite_plugin-Inv t st w p q v e same)
      ]

  add_plugin_anchor-Inv :
      (st : State t.Map) (plugin : Plugin)
      → Inv t st
      → Inv t (add_plugin_anchor t sys flags st plugin)
  unfolding add_plugin_anchor
  add_plugin_anchor-Inv st plugin v = record {
    targets = λ path b e.
        let old = v.targets path b e in
        let l = old.listed in
        record {
          anchor = old.anchor;
          anchor_at = old.anchor_at;
          same_path = old.same_path;
          listed = record {
            owner = l.owner;
            owner_anchor = l.owner_anchor;
            in_chain = inr l.in_chain;
            owner_at =
                update_ne st.plugin_at st.next l.owner _
                  (λ e. cc (l.owner_at, ap st.plugin_at e, v.free_plugins st.next (omega arith)))
                ∙ l.owner_at;
            in_services = l.in_services;
          };
        };
    free_services = λ b l. v.free_services b (omega arith);
    free_plugins =
        λ b l. update_ne st.plugin_at st.next b _ (omega arith) ∙ v.free_plugins b (omega arith);
  }

  find_plugin_anchor-Occurs :
      (h : ℕ → Option PluginAnchor) (l : List ℕ) (name : Bytes) (a : ℕ)
      → find_plugin_anchor h l name ≡ some a
      → Occurs a l
  unfolding find_plugin_anchor
  find_plugin_anchor-Occurs h [] name a e = cc
  find_plugin_anchor-Occurs h (x ∷ l) name a e = elim (Bool-cases (is_plugin_anchor name (h x))) [
    | inl g ↦ inl (ground arith)
    | inr g ↦ inr (find_plugin_anchor-Occurs h l name a (ground arith))
  ]

  install_plugin-Inv :
      (st : State t.Map) (plugin : Plugin) (name : Bytes)
      → Inv t st
      → Inv t (install_plugin t sys flags st plugin name).1
  unfolding install_plugin
  install_plugin-Inv st plugin name v =
      elim (Option-cases (find_plugin_anchor st.plugin_at st.chain plugin.name)) [
        | inr (w, e) ↦
            rw (e, install_plugin)
              (install_with_anchor-Inv st plugin name w (st.plugin_at w) v
                (find_plugin_anchor-Occurs st.plugin_at st.chain plugin.name w e) refl)
        | inl e ↦
            rw (e, install_plugin)
              (elim (Bool-cases (sys.cm_alloc st.next)) [
                | inl g ↦ rw g (
                    install_with_anchor-Inv (add_plugin_anchor t sys flags st plugin) plugin name
                      st.next _ (add_plugin_anchor-Inv st plugin v)
                      (unfold add_plugin_anchor in inl refl) refl)
                | inr g ↦ rw g (Inv-later t st (st.next + 1) (omega arith) v)
              ])
      ]

  deploy_module-Inv :
      (st : State t.Map) (name : Bytes) → Inv t st → Inv t (deploy_module t sys flags st name)
  unfolding deploy_module
  deploy_module-Inv st name v = elim (Option-cases (try_loading_plugin sys name)) [
    | inl e ↦ rw (e, deploy_module) v
    | inr (plugin, e) ↦
        rw (e, deploy_module)
          (elim (Bool-cases (is_plugin_valid sys plugin).0) [
            | inr g ↦ rw g v
            | inl g ↦ elim (Bool-cases (is_duplicate_plugin st.plugins plugin)) [
              | inl h ↦ rw (g, h) v
              | inr h ↦ rw (g, h) (install_plugin-Inv st plugin name v)
            ]
          ])
  ]

  if-Inv : (b : Bool) (x y : State t.Map) → Inv t x → Inv t y → Inv t (if b then x else y)
  if-Inv true x y u v = u
  if-Inv false x y u v = v

  deploy_value-Inv :
      (value : Bytes) (st : State t.Map) → Inv t st → Inv t (deploy_value t sys flags value st)
  unfolding deploy_value
  deploy_value-Inv value st v = if-Inv _ _ _ v (deploy_module-Inv st _ v)

  visit_plugin_parm-Inv :
      (dynlink : Bytes) (looking : Bool) (name value : Option Bytes) (st : State t.Map)
      → Inv t st
      → Inv t (visit_plugin_parm t sys flags dynlink looking name value st)
  unfolding visit_plugin_parm
  visit_plugin_parm-Inv dynlink looking none value st v = v
  visit_plugin_parm-Inv dynlink looking (some name) none st v = v
  visit_plugin_parm-Inv dynlink looking (some name) (some value) st v =
      if-Inv _ _ _ v (if-Inv _ _ _ v (deploy_value-Inv value st v))

  zis_iterate_parms-Inv :
      (dynlink : Bytes) (looking : Bool) (entries : List Entry) (st : State t.Map)
      → Inv t st
      → Inv t (zis_iterate_parms (visit_plugin_parm t sys flags dynlink looking) entries st)
  unfolding zis_iterate_parms
  zis_iterate_parms-Inv dynlink looking [] st v = v
  zis_iterate_parms-Inv dynlink looking (e ∷ entries) st v =
      zis_iterate_parms-Inv dynlink looking entries _
        (visit_plugin_parm-Inv dynlink looking e.key e.value st v)

  -- From a state with the invariant: cleaning what an earlier start has left and deploying the plug-ins, whatever they are and however
  -- their functions end, keeps every entry of the service table leading to a listed anchor of its
  -- path, and unused common storage free.
  pub init_server-Inv :
      (dynlink : Bytes) (entries : List Entry) (st : State t.Map)
      → Inv t st
      → Inv t (init_server t sys flags dynlink entries st)
  unfolding init_server deploy_plugins clean_plugins
  init_server-Inv dynlink entries st v =
      zis_iterate_parms-Inv dynlink false entries _
        (zis_iterate_parms-Inv dynlink true entries _ (clean_chain-Inv t sys flags st.chain st v))

  -- From a state with the invariant: after the server was started with any parameters and stopped again, the router refuses every
  -- call with a code of its own.
  pub cleanup_server-IsRefused :
      (dynlink : Bytes) (entries : List Entry) (auth : Bytes → Bytes → Bool) (st : State t.Map)
      (parm : ServiceRouterParm)
      → Inv t st
      → IsRefused (
          zis_route_service t auth
            (cleanup_server t sys flags (init_server t sys flags dynlink entries st))
            parm)
  unfolding cleanup_server
  cleanup_server-IsRefused dynlink entries auth st parm v =
      clean_plugins-IsRefused t sys flags auth _ parm (init_server-Inv dynlink entries st v).targets
