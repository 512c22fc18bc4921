-- ===== src/Plugin/Table.antt =====
-- The service table of a plug-in under construction.
use zss.Prelude.{
  ℕ, ◌≤◌, ◌≡◌, ◌≢◌, ◌⊎◌, inl, inr, Bool, true, false, ◌&&◌, ◌||◌, not, Option, some, List, [], ◌∷◌,
  ◌++◌, length, length-append, All, Bytes, ◌==◌, arith, Bool-cases,
}
use zss.Service.{Service}
use zss.Plugin.{Plugin, is_name_valid, zis_create_plugin, zis_plugin_add_service, rc_zis_plugin_ok}

All-append :
    {A : Type 0} (P : A → Type 0) (xs : List A) (x : A) → All P xs → P x → All P (xs ++ x ∷ [])
All-append P [] x h p = (p, tt)
All-append P (y ∷ xs) x h p = (h.0, All-append P xs x h.1 p)

module _ (isprint : ℕ → Bool) where
  -- A service that the plug-in may hold: one that switches the space, unless the plug-in is in LPA,
  -- under a printable name.
  pub record Fits (lpa : Bool) (s : Service) : Type 0 where
    pub reachable : (s.flags.space_switch || lpa) ≡ true
    pub printable : is_name_valid isprint s.name ≡ true

  pub record IsSound (p : Plugin) : Type 0 where
    pub bounded : length p.services ≤ p.max_service_count
    pub fit : All (Fits p.lpa) p.services

  -- A new plug-in has room for its services and none yet, and both its names are valid.
  pub zis_create_plugin-IsSound :
      (isgraph isspace : ℕ → Bool) (allocated : Bool) (name nickname : Bytes)
      (init term command : Option ℕ) (version service_count : ℕ) (lpa : Bool) {p : Plugin}
      → zis_create_plugin isprint isgraph isspace allocated name nickname init term command version
          service_count lpa
        ≡ some p
      → IsSound p
  unfolding zis_create_plugin
  zis_create_plugin-IsSound isgraph isspace allocated name nickname init term command version n lpa
        e =
      record { bounded = ground arith; fit = ground arith }

  -- Adding a service to a plug-in whose services fit it and its table, whatever the outcome, keeps the table within its size and the services fit.
  pub zis_plugin_add_service-IsSound :
      (p : Plugin) (s : Service) → IsSound p → IsSound (zis_plugin_add_service isprint p s).1
  unfolding zis_plugin_add_service
  zis_plugin_add_service-IsSound p s v =
      elim (Bool-cases (p.max_service_count == length p.services)) [
        | inl e ↦ rw (e, zis_plugin_add_service) v
        | inr e ↦ elim (Bool-cases (not s.flags.space_switch && not p.lpa)) [
          | inl f ↦ rw (e, zis_plugin_add_service) (rw f v)
          | inr f ↦ elim (Bool-cases (is_name_valid isprint s.name)) [
            | inr g ↦ rw (e, zis_plugin_add_service) (rw (f, g) v)
            | inl g ↦
                rw (e, zis_plugin_add_service)
                  (rw (f, g)
                    (record {
                      bounded = omega_bound e;
                      fit =
                          All-append (Fits p.lpa) p.services s v.fit
                            (record { reachable = ground arith; printable = g });
                    }))
          ]
        ]
      ]
    where
      omega_bound :
          (p.max_service_count == length p.services) ≡ false
          → length (p.services ++ s ∷ []) ≤ p.max_service_count
      omega_bound e = ground (arith, v.bounded, length-append p.services (s ∷ []))

  -- A service is accepted exactly if there is room for it and it fits the plug-in; it is then the
  -- last of the table. Otherwise the table is as it was.
  pub zis_plugin_add_service_ok :
      (p : Plugin) (s : Service)
      → (((zis_plugin_add_service isprint p s).0 ≡ rc_zis_plugin_ok)
          × (length p.services ≢ p.max_service_count)
          × Fits p.lpa s
          × ((zis_plugin_add_service isprint p s).1.services ≡ p.services ++ s ∷ []))
        ⊎ (((zis_plugin_add_service isprint p s).0 ≢ rc_zis_plugin_ok)
            × ((length p.services ≡ p.max_service_count) ⊎ (¬ Fits p.lpa s))
            × ((zis_plugin_add_service isprint p s).1 ≡ p))
  unfolding zis_plugin_add_service
  zis_plugin_add_service_ok p s = ground arith
