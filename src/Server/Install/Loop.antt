-- ===== src/Server/Install/Loop.antt =====
-- The loop of `installServices` over all services of a plug-in.
use zss.Prelude.{ℕ, ◌≡◌, refl, none, some, List, [], ◌∷◌, Bytes}
use zss.Service.{Service}
use zss.Server.State.{ServiceMap, System, State, rc_zis_error}
use zss.Server.Install.{Round, failed, skipped, activated, install_service, install_services}
use zss.Server.Install.Rounds.{Owned, Keeps, install_service-Keeps}

module _ (t : ServiceMap) (sys : System) where
  -- What the loop does with the round of one service.
  after_round : Bytes → ℕ → Service → List Service → Round t.Map → ℕ × State t.Map × List Service
  after_round name w s services (failed none st) = (rc_zis_error, st, s ∷ services)
  after_round name w s services (failed (some a) st) =
      (rc_zis_error, st, record s { anchor = some a } ∷ services)
  after_round name w s services (skipped a st) =
      let (rc, st', rest) = install_services t sys st name w services in
      (rc, st', record s { anchor = some a } ∷ rest)
  after_round name w s services (activated a st) =
      let (rc, st', rest) = install_services t sys st name w services in
      (rc, st', record s { anchor = some a } ∷ rest)

  install_services-round :
      (st : State t.Map) (name : Bytes) (w : ℕ) (s : Service) (services : List Service)
      (v : Owned t st w) (r : Round t.Map)
      → install_service t sys st name w v.owner s ≡ r
      → install_services t sys st name w (s ∷ services) ≡ after_round name w s services r
  unfolding install_services after_round
  install_services-round st name w s services v r e =
      rw (v.owner_at, install_services) (rw (e, install_services) (cases r))
    where
      cases :
          (r : Round t.Map)
          → (elim r [
            | failed none st' ↦ (rc_zis_error, st', s ∷ services)
            | failed (some a) st' ↦ (rc_zis_error, st', record s { anchor = some a } ∷ services)
            | skipped a st' ↦
                let (rc, st'', rest) = install_services t sys st' name w services in
                (rc, st'', record s { anchor = some a } ∷ rest)
            | activated a st' ↦
                let (rc, st'', rest) = install_services t sys st' name w services in
                (rc, st'', record s { anchor = some a } ∷ rest)
          ])
            ≡ after_round name w s services r
      cases (failed none st') = refl
      cases (failed (some a) st') = refl
      cases (skipped a st') = refl
      cases (activated a st') = refl

  after_round-Owned :
      (name : Bytes) (w : ℕ) (s : Service) (services : List Service) (r : Round t.Map)
      → ((st : State t.Map)
          → Owned t st w
          → Owned t (install_services t sys st name w services).1 w)
      → Keeps t w r
      → Owned t (after_round name w s services r).1 w
  unfolding after_round
  after_round-Owned name w s services (failed none st) ih k = k
  after_round-Owned name w s services (failed (some a) st) ih k = k
  after_round-Owned name w s services (skipped a st) ih k = ih st k
  after_round-Owned name w s services (activated a st) ih k = ih st k

  -- From a state with the invariant, installing the services of a plug-in whose anchor is in the
  -- server's chain keeps every entry of
  -- the service table leading to a listed anchor of its path, however the rounds end.
  pub install_services-Owned :
      (services : List Service) (st : State t.Map) (name : Bytes) (w : ℕ)
      → Owned t st w
      → Owned t (install_services t sys st name w services).1 w
  install_services-Owned [] st name w v = unfold install_services in v
  install_services-Owned (s ∷ services) st name w v =
      rw (install_services-round st name w s services v _ refl) (
        after_round-Owned name w s services (install_service t sys st name w v.owner s)
          (λ st' v'. install_services-Owned services st' name w v')
          (install_service-Keeps t sys st name w s v))
