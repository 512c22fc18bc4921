-- ===== src/Server/Install/Rounds.antt =====
-- Every round of `installServices`, and the whole loop, keeps the invariant.
use zss.Prelude.{
  ℕ, ◌+◌, ◌≡◌, refl, sym, ap, ◌∙◌, inl, inr, true, Option, none, some, ◌∷◌, Bytes, Occurs, ◌==◌,
  if◌then◌else◌, arith, Bool-cases, Option-cases,
}
use zss.Service.{
  Service, ServicePath, ServiceAnchor, path_eq, zis_create_service_anchor,
  zis_update_service_anchor, is_service_anchor_compatible,
}
use zss.Plugin.{PluginAnchor}
use zss.Server.State.{ServiceMap, PutReply, added, exists, no_storage, System, State, rc_zis_ok}
use zss.Server.Anchors.{find_service_anchor, discard_service_anchor}
use zss.Server.Anchors.WellFormed.{IsListed}
use zss.Server.Install.{
  call_function, Round, failed, skipped, activated, find_usable_anchor, add_service_anchor,
  update_service_anchor, activate, enter_table, publish_service, install_at, install_service,
}
use zss.Server.Install.Keeps.{
  Inv, Inv-later, modify-Inv, enter-Inv, modify-some, add_service_anchor-Inv,
  add_service_anchor-IsListed, find_service_anchor-Occurs, update_eq,
}

-- The invariant, and a plug-in anchor at an address of the server's chain.
pub record Owned (t : ServiceMap) (st : State t.Map) (w : ℕ) : Type 0 where
  pub inv : Inv t st
  pub in_chain : Occurs w st.chain
  pub owner : PluginAnchor
  pub owner_at : st.plugin_at w ≡ some owner

-- Whatever the round did, its state is of that kind.
abbrev pub Keeps : (t : ServiceMap) → ℕ → Round t.Map → Type 0
Keeps t w (failed a st) = Owned t st w
Keeps t w (skipped a st) = Owned t st w
Keeps t w (activated a st) = Owned t st w

zis_update_service_anchor-path :
    (a : ServiceAnchor) (s : Service) → (zis_update_service_anchor a s).path ≡ a.path
unfolding zis_update_service_anchor
zis_update_service_anchor-path a s = ground arith

module _ (t : ServiceMap) (sys : System) where
  pub enter_table-get :
      (m n : t.Map) (s : ServiceAnchor) (a : ℕ) (q : ServicePath)
      → enter_table t sys m s a ≡ some n
      → t.get n q ≡ (if path_eq s.path q then some a else t.get m q)
  unfolding enter_table
  enter_table-get m n s a q e = reply (t.put m s.path a) refl e
    where
      reply :
          (r : PutReply t.Map)
          → t.put m s.path a ≡ r
          → (elim r [
            | added n' ↦ some n'
            | exists ↦ some (t.replace m s.path a)
            | no_storage ↦ none
          ])
            ≡ some n
          → t.get n q ≡ (if path_eq s.path q then some a else t.get m q)
      reply (added n') p h = t.get-put m n s.path q a (p ∙ ap added (cc h))
      reply exists p h =
          let i : t.replace m s.path a ≡ n = cc h in
          rw (← i) (t.get-replace m s.path q a (t.put_exists m s.path a p))
      reply no_storage p h = cc h

  -- A new entry, and the activation of its anchor.
  activate-Owned :
      (st : State t.Map) (n : t.Map) (w a : ℕ) (s : ServiceAnchor)
      → Owned t st w
      → IsListed st a
      → st.service_at a ≡ some s
      → enter_table t sys st.table s a ≡ some n
      → Owned t (activate (record st { table = n }) a) w
  unfolding activate
  activate-Owned st n w a s v l e h =
      let entered = enter-Inv t st n s a v.inv (λ q. enter_table-get st.table n s a q h) e l in
      record {
        inv =
            modify-Inv t (record st { table = n }) (λ s. record s { active = true }) a (λ s. refl)
              entered;
        in_chain = v.in_chain;
        owner = v.owner;
        owner_at = v.owner_at;
      }

  publish_service-Keeps :
      (st : State t.Map) (w a : ℕ) (s : ServiceAnchor) (o : Option ServiceAnchor)
      (service : Service)
      → Owned t st w
      → IsListed st a
      → st.service_at a ≡ some s
      → o ≡ some s
      → Keeps t w (publish_service t sys st o a service)
  unfolding publish_service
  publish_service-Keeps st w a s none service v l e f = v
  publish_service-Keeps st w a s (some r) service v l e f =
      let e' : st.service_at a ≡ some r = e ∙ sym f in
      elim (Bool-cases (call_function sys service.init a == rc_zis_ok)) [
        | inr g ↦ rw g v
        | inl g ↦ elim (Option-cases (enter_table t sys st.table r a)) [
          | inl h ↦ rw (g, publish_service) (rw (h, publish_service) v)
          | inr (n, h) ↦
              rw (g, publish_service) (rw (h, publish_service) (activate-Owned st n w a r v l e' h))
        ]
      ]

  install_new-Keeps :
      (st : State t.Map) (name : Bytes) (w : ℕ) (p : PluginAnchor) (service : Service)
      → Inv t st
      → Occurs w st.chain
      → st.plugin_at w ≡ some p
      → Keeps t w (
          publish_service t sys
            (add_service_anchor st name w p service)
            ((add_service_anchor st name w p service).service_at st.next)
            st.next
            service)
  unfolding add_service_anchor
  install_new-Keeps st name w p service v c e =
      let new = update_eq st.service_at st.next (zis_create_service_anchor name (some w) service) in
      publish_service-Keeps (add_service_anchor st name w p service) w st.next _ _ service
        (record {
          inv = add_service_anchor-Inv t st name w p service v e;
          in_chain = c;
          owner = record p { services = st.next ∷ p.services };
          owner_at = update_eq st.plugin_at w _;
        })
        (add_service_anchor-IsListed t st name w p service v e c) new new

  install_old-Keeps :
      (st : State t.Map) (w : ℕ) (p : PluginAnchor) (a : ℕ) (s : ServiceAnchor) (service : Service)
      → Inv t st
      → Occurs w st.chain
      → st.plugin_at w ≡ some p
      → Occurs a p.services
      → st.service_at a ≡ some s
      → Keeps t w (
          publish_service t sys
            (update_service_anchor st a service)
            ((update_service_anchor st a service).service_at a)
            a
            service)
  unfolding update_service_anchor
  install_old-Keeps st w p a s service v c e o h =
      let f = λ (x : ServiceAnchor). zis_update_service_anchor x service in
      let new = modify-some f st.service_at a a s h in
      publish_service-Keeps (update_service_anchor st a service) w a _ _ service
        (record {
          inv = modify-Inv t st f a (λ x. zis_update_service_anchor-path x service) v;
          in_chain = c;
          owner = p;
          owner_at = e;
        })
        (record { owner = w; owner_anchor = p; in_chain = c; owner_at = e; in_services = o }) new
        new

  -- The anchor to use again, if any, is in the plug-in's list.
  abbrev Usable : State t.Map → PluginAnchor → Option ℕ → Type 0
  Usable st p none = Unit
  Usable st p (some a) = Occurs a p.services × (s : ServiceAnchor) × (st.service_at a ≡ some s)

  install_at-Keeps :
      (st : State t.Map) (name : Bytes) (w : ℕ) (p : PluginAnchor) (o : Option ℕ)
      (service : Service)
      → Inv t st
      → Occurs w st.chain
      → st.plugin_at w ≡ some p
      → Usable st p o
      → Keeps t w (install_at t sys st name w p o service)
  unfolding install_at
  install_at-Keeps st name w p none service v c e u = elim (Bool-cases (sys.cm_alloc st.next)) [
    | inr g ↦
        rw (g, install_at)
          (record {
            inv = Inv-later t st (st.next + 1) (omega arith) v;
            in_chain = c;
            owner = p;
            owner_at = e;
          })
    | inl g ↦ rw (g, install_at) (install_new-Keeps st name w p service v c e)
  ]
  install_at-Keeps st name w p (some a) service v c e (o, s, h) =
      install_old-Keeps st w p a s service v c e o h

  -- What the search and the test of the anchor leave behind.
  record Chosen (st : State t.Map) (w : ℕ) (p : PluginAnchor) (r : State t.Map × Option ℕ)
      : Type 0 where
    inv : Inv t r.0
    in_chain : Occurs w r.0.chain
    owner_at : r.0.plugin_at w ≡ some p
    usable : Usable r.0 p r.1

  find_usable_anchor-Chosen :
      (st : State t.Map) (w : ℕ) (p : PluginAnchor) (o : Option ℕ) (service : Service)
      → Inv t st
      → Occurs w st.chain
      → st.plugin_at w ≡ some p
      → o ≡ find_service_anchor st.service_at p.services service.name
      → Chosen st w p (find_usable_anchor st o service)
  unfolding find_usable_anchor discard_service_anchor
  find_usable_anchor-Chosen st w p none service v c e f = record {
    inv = v;
    in_chain = c;
    owner_at = e;
    usable = tt;
  }
  find_usable_anchor-Chosen st w p (some a) service v c e f =
      elim (Option-cases (st.service_at a)) [
        | inl g ↦
            rw (g, find_usable_anchor) (record { inv = v; in_chain = c; owner_at = e; usable = tt })
        | inr (s, g) ↦ elim (Bool-cases (is_service_anchor_compatible service s)) [
          | inl h ↦
              rw (g, find_usable_anchor)
                (rw (h, find_usable_anchor)
                  (record {
                    inv = v;
                    in_chain = c;
                    owner_at = e;
                    usable = (
                      (find_service_anchor-Occurs st.service_at p.services service.name a
                          (sym f)).0,
                      s,
                      g,
                    );
                  }))
          | inr h ↦
              rw (g, find_usable_anchor)
                (rw (h, find_usable_anchor)
                  (record {
                    inv = modify-Inv t st (λ s. record s { discarded = true }) a (λ s. refl) v;
                    in_chain = c;
                    owner_at = e;
                    usable = tt;
                  }))
        ]
      ]

  pub install_service-Keeps :
      (st : State t.Map) (name : Bytes) (w : ℕ) (service : Service) (v : Owned t st w)
      → Keeps t w (install_service t sys st name w v.owner service)
  unfolding install_service
  install_service-Keeps st name w service v =
      let found = find_service_anchor st.service_at v.owner.services service.name in
      let k =
        find_usable_anchor-Chosen st w v.owner found service v.inv v.in_chain v.owner_at refl in
      install_at-Keeps (find_usable_anchor st found service).0 name w v.owner _ service k.inv
        k.in_chain k.owner_at k.usable
