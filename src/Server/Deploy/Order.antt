-- ===== src/Server/Deploy/Order.antt =====
-- In which order `deployPlugins` installs the modules.
use zss.Prelude.{
  ◌≡◌, refl, ap, ◌∙◌, sym, inl, inr, Bool, true, false, Option, none, some, List, [], ◌∷◌, ◌++◌,
  Bytes, bytes_eq, bytes_eq_iff, ◌≢◌, All, has_prefix, if◌then◌else◌, arith, Bool-cases,
}
use zss.Parm.Set.{Entry, zis_iterate_parms}
use zss.Server.State.{ServiceMap, System, State}
use zss.Server.Anchors.{CmsFlags}
use zss.Server.Deploy.{
  is_plugin_suitable, deploy_value, visit_plugin_parm, deploy_plugins, plugin_prefix,
}

-- The modules that the parameters name, in the order of the parameters.
unfoldable pub named_modules : Option Bytes → Option Bytes → List Bytes
named_modules none value = []
named_modules (some name) none = []
named_modules (some name) (some value) = if has_prefix plugin_prefix name then value ∷ [] else []

unfoldable pub plugin_modules : List Entry → List Bytes
unfolding named_modules
plugin_modules [] = []
plugin_modules (e ∷ es) = named_modules e.key e.value ++ plugin_modules es

-- The modules of a list that are the dynamic linkage module.
unfoldable pub linkage_modules : Bytes → List Bytes → List Bytes
linkage_modules dynlink [] = []
linkage_modules dynlink (m ∷ ms) =
    let rest = linkage_modules dynlink ms in if bytes_eq m dynlink then m ∷ rest else rest

-- All the others.
unfoldable pub other_modules : Bytes → List Bytes → List Bytes
other_modules dynlink [] = []
other_modules dynlink (m ∷ ms) =
    let rest = other_modules dynlink ms in if bytes_eq m dynlink then rest else m ∷ rest

-- Those of one of the two passes.
unfoldable chosen : Bytes → Bool → List Bytes → List Bytes
chosen dynlink true ms = linkage_modules dynlink ms
chosen dynlink false ms = other_modules dynlink ms

linkage_modules-dynlink :
    (dynlink : Bytes) (ms : List Bytes) → All (λ m. m ≡ dynlink) (linkage_modules dynlink ms)
unfolding linkage_modules
linkage_modules-dynlink dynlink [] = tt
linkage_modules-dynlink dynlink (m ∷ ms) = elim (Bool-cases (bytes_eq m dynlink)) [
  | inl e ↦ rw e ((bytes_eq_iff m dynlink).0 e, linkage_modules-dynlink dynlink ms)
  | inr e ↦ rw e (linkage_modules-dynlink dynlink ms)
]

other_modules-dynlink :
    (dynlink : Bytes) (ms : List Bytes) → All (λ m. m ≢ dynlink) (other_modules dynlink ms)
unfolding other_modules
other_modules-dynlink dynlink [] = tt
other_modules-dynlink dynlink (m ∷ ms) = elim (Bool-cases (bytes_eq m dynlink)) [
  | inl e ↦ rw e (other_modules-dynlink dynlink ms)
  | inr e ↦ rw e (
    λ h. let i = (bytes_eq_iff m dynlink).1 h in ground (arith, e, i),
    other_modules-dynlink dynlink ms,
  )
]

module _ (t : ServiceMap) (sys : System) (flags : CmsFlags) where
  unfoldable pub deploy_all : List Bytes → State t.Map → State t.Map
  deploy_all [] st = st
  deploy_all (m ∷ ms) st = deploy_all ms (deploy_value t sys flags m st)

  deploy_all-append :
      (xs ys : List Bytes) (st : State t.Map)
      → deploy_all (xs ++ ys) st ≡ deploy_all ys (deploy_all xs st)
  unfolding deploy_all
  deploy_all-append [] ys st = refl
  deploy_all-append (x ∷ xs) ys st = deploy_all-append xs ys (deploy_value t sys flags x st)

  chosen-append :
      (dynlink : Bytes) (looking : Bool) (xs ys : List Bytes)
      → chosen dynlink looking (xs ++ ys) ≡ chosen dynlink looking xs ++ chosen dynlink looking ys
  unfolding chosen linkage_modules other_modules
  chosen-append dynlink true [] ys = refl
  chosen-append dynlink false [] ys = refl
  chosen-append dynlink true (x ∷ xs) ys = ground (arith, chosen-append dynlink true xs ys)
  chosen-append dynlink false (x ∷ xs) ys = ground (arith, chosen-append dynlink false xs ys)

  visit_plugin_parm-chosen :
      (dynlink : Bytes) (looking : Bool) (name value : Option Bytes) (st : State t.Map)
      → visit_plugin_parm t sys flags dynlink looking name value st
        ≡ deploy_all (chosen dynlink looking (named_modules name value)) st
  unfolding visit_plugin_parm deploy_all chosen named_modules linkage_modules other_modules
      is_plugin_suitable
  visit_plugin_parm-chosen dynlink true none value st = refl
  visit_plugin_parm-chosen dynlink false none value st = refl
  visit_plugin_parm-chosen dynlink true (some name) none st = refl
  visit_plugin_parm-chosen dynlink false (some name) none st = refl
  visit_plugin_parm-chosen dynlink true (some name) (some value) st =
      elim (Bool-cases (has_prefix plugin_prefix name)) [
        | inr e ↦ rw e
        | inl e ↦ rw e (elim (Bool-cases (bytes_eq value dynlink)) [ inl f ↦ rw f | inr f ↦ rw f ])
      ]
  visit_plugin_parm-chosen dynlink false (some name) (some value) st =
      elim (Bool-cases (has_prefix plugin_prefix name)) [
        | inr e ↦ rw e
        | inl e ↦ rw e (elim (Bool-cases (bytes_eq value dynlink)) [ inl f ↦ rw f | inr f ↦ rw f ])
      ]

  zis_iterate_parms-chosen :
      (dynlink : Bytes) (looking : Bool) (entries : List Entry) (st : State t.Map)
      → zis_iterate_parms (visit_plugin_parm t sys flags dynlink looking) entries st
        ≡ deploy_all (chosen dynlink looking (plugin_modules entries)) st
  unfolding zis_iterate_parms plugin_modules
  zis_iterate_parms-chosen dynlink true [] st = unfold chosen linkage_modules deploy_all in refl
  zis_iterate_parms-chosen dynlink false [] st = unfold chosen other_modules deploy_all in refl
  zis_iterate_parms-chosen dynlink looking (e ∷ es) st =
      zis_iterate_parms-chosen dynlink looking es _
      ∙ ap (deploy_all (chosen dynlink looking (plugin_modules es)))
          (visit_plugin_parm-chosen dynlink looking e.key e.value st)
      ∙ sym (deploy_all-append (chosen dynlink looking (named_modules e.key e.value)) _ st)
      ∙ ap (λ l. deploy_all l st)
          (sym (chosen-append dynlink looking (named_modules e.key e.value) (plugin_modules es)))

  -- The modules that the parameters name are deployed one after the other: first all that are the
  -- dynamic linkage module, then all that are not, in the order of the parameters.
  pub deploy_plugins-plugin_modules :
      (dynlink : Bytes) (entries : List Entry) (st : State t.Map)
      → (deploy_plugins t sys flags dynlink entries st
          ≡ deploy_all
              (linkage_modules dynlink (plugin_modules entries)
                ++ other_modules dynlink (plugin_modules entries))
              st)
        × All (λ m. m ≡ dynlink) (linkage_modules dynlink (plugin_modules entries))
        × All (λ m. m ≢ dynlink) (other_modules dynlink (plugin_modules entries))
  unfolding deploy_plugins chosen
  deploy_plugins-plugin_modules dynlink entries st = (
    zis_iterate_parms-chosen dynlink false entries _
        ∙ ap (deploy_all (other_modules dynlink (plugin_modules entries)))
            (zis_iterate_parms-chosen dynlink true entries st)
        ∙ sym (deploy_all-append (linkage_modules dynlink (plugin_modules entries)) _ st),
    linkage_modules-dynlink dynlink (plugin_modules entries),
    other_modules-dynlink dynlink (plugin_modules entries),
  )
