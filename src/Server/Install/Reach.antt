-- ===== src/Server/Install/Reach.antt =====
-- A service that was activated can be reached through the service table.
use zss.Prelude.{
  ℕ, ◌≡◌, refl, sym, ◌∙◌, inl, inr, true, Option, none, some, List, Bytes, bytes_eq_iff, ◌==◌,
  ==_iff, arith, Bool-cases, Option-cases,
}
use zss.Service.{
  Service, ServiceAnchor, zis_create_service_anchor, zis_update_service_anchor,
  is_service_anchor_compatible,
}
use zss.Service.Auth.{ActsFor, zis_create_service_anchor-ActsFor, zis_update_service_anchor-ActsFor}
use zss.Plugin.{PluginAnchor}
use zss.Server.State.{ServiceMap, System, State, rc_zis_ok}
use zss.Server.Anchors.{find_service_anchor, is_service_anchor, modify}
use zss.Server.Install.{
  call_function, Round, failed, skipped, activated, find_usable_anchor, add_service_anchor,
  update_service_anchor, activate, enter_table, publish_service, install_at, install_service,
}
use zss.Server.Install.Keeps.{path_eq_refl, modify-some, update_eq, find_service_anchor-Occurs}
use zss.Server.Install.Rounds.{enter_table-get}

-- The anchor at the address is the target of its path, active, and acts for the service.
pub record IsReachable (t : ServiceMap) (service : Service) (a : ℕ) (st : State t.Map)
    : Type 0 where
  pub anchor : ServiceAnchor
  pub anchor_at : st.service_at a ≡ some anchor
  pub active : anchor.active ≡ true
  pub acts : ActsFor service anchor
  pub service_name : anchor.path.service_name ≡ service.name
  pub target : t.get st.table anchor.path ≡ some a

-- An activated round has such an anchor.
abbrev pub Activates : (t : ServiceMap) → Service → Round t.Map → Type 0
Activates t service (failed a st) = Unit
Activates t service (skipped a st) = Unit
Activates t service (activated a st) = IsReachable t service a st

module _ (t : ServiceMap) (sys : System) where
  activate-IsReachable :
      (st : State t.Map) (n : t.Map) (a : ℕ) (s : ServiceAnchor) (service : Service)
      → st.service_at a ≡ some s
      → ActsFor service s
      → s.path.service_name ≡ service.name
      → enter_table t sys st.table s a ≡ some n
      → IsReachable t service a (activate (record st { table = n }) a)
  unfolding activate
  activate-IsReachable st n a s service e acts name h = record {
    anchor = record s { active = true };
    anchor_at =
        modify-some (λ s. record s { active = true }) st.service_at a a s e
        ∙ rw ((==_iff a a).1 refl);
    active = refl;
    acts = record {
      space_switch = acts.space_switch;
      specific_auth = acts.specific_auth;
      serve = acts.serve;
      service_version = acts.service_version;
      class_name = acts.class_name;
      entity_name = acts.entity_name;
    };
    service_name = name;
    target = enter_table-get t sys st.table n s a s.path h ∙ rw (path_eq_refl s.path);
  }

  publish_service-Activates :
      (st : State t.Map) (a : ℕ) (s : ServiceAnchor) (o : Option ServiceAnchor) (service : Service)
      → st.service_at a ≡ some s
      → o ≡ some s
      → ActsFor service s
      → s.path.service_name ≡ service.name
      → Activates t service (publish_service t sys st o a service)
  unfolding publish_service
  publish_service-Activates st a s none service e f acts name = tt
  publish_service-Activates st a s (some r) service e f acts name =
      let i : s ≡ r = cc f in
      elim (Bool-cases (call_function sys service.init a == rc_zis_ok)) [
        | inr g ↦ rw g tt
        | inl g ↦ elim (Option-cases (enter_table t sys st.table r a)) [
          | inl h ↦ rw (g, publish_service) (rw (h, publish_service) tt)
          | inr (n, h) ↦
              rw (g, publish_service)
                (rw (h, publish_service)
                  (activate-IsReachable st n a r service (e ∙ sym f) (rw i at acts) (rw i at name)
                    h))
        ]
      ]

  -- The anchor to use again, if any, is compatible and has the service's name.
  abbrev Fitting : State t.Map → Service → Option ℕ → Type 0
  Fitting st service none = Unit
  Fitting st service (some a) =
      (s : ServiceAnchor) × (st.service_at a ≡ some s)
      × (is_service_anchor_compatible service s ≡ true)
      × (s.path.service_name ≡ service.name)

  install_new-Activates :
      (st : State t.Map) (name : Bytes) (w : ℕ) (p : PluginAnchor) (service : Service)
      → Activates t service (
          publish_service t sys
            (add_service_anchor st name w p service)
            ((add_service_anchor st name w p service).service_at st.next)
            st.next
            service)
  unfolding add_service_anchor
  install_new-Activates st name w p service =
      let new = update_eq st.service_at st.next (zis_create_service_anchor name (some w) service) in
      publish_service-Activates (add_service_anchor st name w p service) st.next
        (zis_create_service_anchor name (some w) service) _ service new new
        (zis_create_service_anchor-ActsFor name (some w) service)
        (unfold zis_create_service_anchor in refl)

  install_old-Activates :
      (st : State t.Map) (a : ℕ) (s : ServiceAnchor) (service : Service)
      → st.service_at a ≡ some s
      → is_service_anchor_compatible service s ≡ true
      → s.path.service_name ≡ service.name
      → Activates t service (
          publish_service t sys
            (update_service_anchor st a service)
            ((update_service_anchor st a service).service_at a)
            a
            service)
  unfolding update_service_anchor
  install_old-Activates st a s service h compatible name =
      let f = λ (x : ServiceAnchor). zis_update_service_anchor x service in
      let new : modify f st.service_at a a ≡ some (f s) =
        modify-some f st.service_at a a s h ∙ rw ((==_iff a a).1 refl) in
      publish_service-Activates (update_service_anchor st a service) a (f s) _ service new new
        (zis_update_service_anchor-ActsFor service s compatible)
        (unfold zis_update_service_anchor in ground (arith, name))

  install_at-Activates :
      (st : State t.Map) (name : Bytes) (w : ℕ) (p : PluginAnchor) (o : Option ℕ)
      (service : Service)
      → Fitting st service o
      → Activates t service (install_at t sys st name w p o service)
  unfolding install_at
  install_at-Activates st name w p none service u = elim (Bool-cases (sys.cm_alloc st.next)) [
    | inr g ↦ rw (g, install_at) tt
    | inl g ↦ rw (g, install_at) (install_new-Activates st name w p service)
  ]
  install_at-Activates st name w p (some a) service (s, h, c, n) =
      install_old-Activates st a s service h c n

  found_name :
      (service : Service) (s : ServiceAnchor)
      → is_service_anchor service.name (some s) ≡ true
      → s.path.service_name ≡ service.name
  found_name service s h = ground (arith, bytes_eq_iff service.name s.path.service_name)

  find_usable_anchor-Fitting :
      (st : State t.Map) (l : List ℕ) (o : Option ℕ) (service : Service)
      → o ≡ find_service_anchor st.service_at l service.name
      → Fitting (find_usable_anchor st o service).0 service (find_usable_anchor st o service).1
  unfolding find_usable_anchor
  find_usable_anchor-Fitting st l none service f = tt
  find_usable_anchor-Fitting st l (some a) service f = elim (Option-cases (st.service_at a)) [
    | inl g ↦ rw (g, find_usable_anchor) tt
    | inr (s, g) ↦
        let (o, m) = find_service_anchor-Occurs st.service_at l service.name a (sym f) in
        elim (Bool-cases (is_service_anchor_compatible service s)) [
          | inl h ↦
              rw (g, find_usable_anchor)
                (rw (h, find_usable_anchor) (s, g, h, found_name service s (rw g at m)))
          | inr h ↦ rw (g, find_usable_anchor) (rw (h, find_usable_anchor) tt)
        ]
  ]

  -- A round that ends with an active service leaves, at the address it reports, an active anchor of
  -- the service's name that acts for the service, and the service table leads from the anchor's
  -- path to it; this whether the anchor is new or one of an earlier start.
  pub install_service-Activates :
      (st : State t.Map) (name : Bytes) (w : ℕ) (p : PluginAnchor) (service : Service)
      → Activates t service (install_service t sys st name w p service)
  unfolding install_service
  install_service-Activates st name w p service =
      install_at-Activates
        (find_usable_anchor st (find_service_anchor st.service_at p.services service.name)
          service).0
        name w p _ service (find_usable_anchor-Fitting st p.services _ service refl)
