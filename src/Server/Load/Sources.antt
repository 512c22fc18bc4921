-- ===== src/Server/Load/Sources.antt =====
-- What the parameter set of a start holds: the test parameter, the main parameters, and then the
-- PARMLIB member, each over what was there.
use zss.Prelude.{
  ℕ, ◌≤◌, ◌≡◌, refl, ◌⊎◌, inl, inr, Bool, true, false, Option, none, some, List, [], map, Bytes,
  codes, length, arith, Option-cases,
}
use zss.Parm.Set.{ParmSet, zis_make_parm_set, parm_set_size}
use zss.Parm.Set.Contents.{Contents, Represents, value_of, upsert}
use zss.Parm.Set.Refines.{zis_put_parm_value-upsert, zis_get_parm_value-value_of}
use zss.Parm.Record.{key_value}
use zss.Parm.Record.Lines.{joined, upsert_all}
use zss.Parm.MainParms.{zis_read_main_parms}
use zss.Parm.MainParms.Fields.{fields, Outcome, zis_read_main_parms-Outcome}
use zss.Parm.Parmlib.{
  ReadReply, ParmlibService, space_padded, read_buffer_default_size, iefprmlb_ok,
}
use zss.Parm.Parmlib.Reading.{IsAllocated, zis_read_parmlib-ReadsTo}
use zss.Server.State.{rc_zis_ok, rc_zis_error}
use zss.Server.Config.{extract_parmlib_member_name}
use zss.Server.Config.Behaviour.{length-extract_parmlib_member_name}
use zss.Server.Load.{
  parm_ddname, parm_member_suffix, no_status, load_member, load_parmlib, load_main, load_config,
}

abbrev test_name : Bytes
test_name = codes "TEST_ZIS_PARM"

abbrev test_value : Bytes
test_value = codes "THIS VALUE MUST BE AVAILABLE IN ANY SERVICE"

-- The test parameter, and the main parameters over it.
abbrev pub main_contents : Bytes → Contents
main_contents text = upsert_all (upsert test_name test_value []) (map key_value (fields text))

module _ {S : Type 0} (slh_alloc : S → ℕ → Option S) (sys : ParmlibService)
    (zis_module_name : Bytes) (allocated : IsAllocated (sys.allocate (space_padded parm_ddname)))
    (first_buffer : sys.safe_malloc31 read_buffer_default_size ≡ true) where
  -- The first reply for a member.
  abbrev pub reply_for : Bytes → ReadReply
  reply_for member =
      sys.read_member 1 (space_padded parm_ddname) (space_padded member) read_buffer_default_size

  -- The start has failed, or the set holds the contents with those of the records over them.
  abbrev pub Loaded : Contents → List Bytes → ℕ × Option (ParmSet S) → Type 0
  Loaded c records (rc, o) =
      (rc ≡ rc_zis_error)
      ⊎ ((rc ≡ rc_zis_ok)
          × (p : ParmSet S) × (o ≡ some p)
          × Represents p (upsert_all c (map key_value (joined [] records))))

  load_member-Loaded :
      (member : Bytes) (p : ParmSet S) (c : Contents)
      → length member ≤ 8
      → (reply_for member).rc ≡ iefprmlb_ok
      → Represents p c
      → (x : ℕ × Option (ParmSet S)) × (load_member slh_alloc sys zis_module_name member p ≡ some x)
        × Loaded c (reply_for member).records x
  unfolding load_member
  load_member-Loaded member p c l e h =
      let ((q, p'), i, o) =
        zis_read_parmlib-ReadsTo slh_alloc sys parm_ddname member no_status p (omega arith) l
          allocated first_buffer c e h in
      elim o [
        | inl (z, f, k) ↦ ((rc_zis_ok, some p'), ground arith, inr (refl, p', refl, k))
        | inr z ↦ ((rc_zis_error, some p'), ground arith, inl refl)
      ]

  load_parmlib-Loaded :
      (p : ParmSet S) (c : Contents) (member : Bytes)
      → extract_parmlib_member_name zis_module_name (value_of parm_member_suffix c) ≡ some member
      → (reply_for member).rc ≡ iefprmlb_ok
      → Represents p c
      → (x : ℕ × Option (ParmSet S)) × (load_parmlib slh_alloc sys zis_module_name p ≡ some x)
        × Loaded c (reply_for member).records x
  unfolding load_parmlib
  load_parmlib-Loaded p c member e d h =
      let suffix = zis_get_parm_value-value_of p parm_member_suffix c h in
      let short =
        length-extract_parmlib_member_name zis_module_name (value_of parm_member_suffix c) member
          e in
      let (x, i, o) = load_member-Loaded member p c short d h in
      (x, rw (suffix, e, load_parmlib) i, o)

  load_main-Loaded :
      (work_buffer : Bool) (text : Bytes) (p : ParmSet S) (c : Contents) (member : Bytes)
      → extract_parmlib_member_name zis_module_name
          (value_of parm_member_suffix (upsert_all c (map key_value (fields text))))
        ≡ some member
      → (reply_for member).rc ≡ iefprmlb_ok
      → Represents p c
      → (x : ℕ × Option (ParmSet S)) × (load_main slh_alloc sys zis_module_name work_buffer text p
          ≡ some x)
        × Loaded (upsert_all c (map key_value (fields text))) (reply_for member).records x
  unfolding load_main Outcome
  load_main-Loaded false text p c member e d h =
      ((rc_zis_error, some p), unfold zis_read_main_parms in refl, inl refl)
  load_main-Loaded true text p c member e d h =
      let ((rc, p'), i, o) = zis_read_main_parms-Outcome slh_alloc text p c h in
      elim o [
        | inl (z, k) ↦
            let (x, j, l) = load_parmlib-Loaded p' _ member e d k in (x, rw (i, z, load_main) j, l)
        | inr (z, refused) ↦ ((rc_zis_error, some p'), rw (i, z, load_main), inl refl)
      ]

  zis_make_parm_set-Represents :
      (heap : Option S)
      → (zis_make_parm_set slh_alloc heap ≡ some none)
        ⊎ ((p : ParmSet S) × (zis_make_parm_set slh_alloc heap ≡ some (some p))
            × Represents p (upsert test_name test_value []))
  unfolding zis_make_parm_set
  zis_make_parm_set-Represents none = inl refl
  zis_make_parm_set-Represents (some slh) = elim (Option-cases (slh_alloc slh parm_set_size)) [
    | inl e ↦ inl (rw (e, zis_make_parm_set))
    | inr (slh', e) ↦
        let ((rc, p), i, o) =
          zis_put_parm_value-upsert slh_alloc (record { slh = slh'; entries = [] })
            (codes "TEST_ZIS_PARM") (codes "THIS VALUE MUST BE AVAILABLE IN ANY SERVICE") [] refl in
        elim o [
          | inl (z, h, granted) ↦ inr (p, ground (arith, i, z, e), h)
          | inr (z, refused) ↦ inl (ground (arith, i, z, e))
        ]
  ]

  -- With the library, storage for the first buffer, and a first reply that delivers the member named
  -- by the MEM parameter of the main parameters: reading the configuration has no undefined
  -- behaviour. Unless it fails, the set holds the test parameter, the fields of the main parameters
  -- over it, and the parameters of the member over those.
  pub load_config-Loaded :
      (heap : Option S) (work_buffer : Bool) (text member : Bytes)
      → extract_parmlib_member_name zis_module_name
          (value_of parm_member_suffix (main_contents text))
        ≡ some member
      → (reply_for member).rc ≡ iefprmlb_ok
      → (x : ℕ × Option (ParmSet S)) × (load_config slh_alloc sys zis_module_name heap work_buffer
            text
          ≡ some x)
        × Loaded (main_contents text) (reply_for member).records x
  unfolding load_config
  load_config-Loaded heap work_buffer text member e d = elim (zis_make_parm_set-Represents heap) [
    | inl f ↦ ((rc_zis_error, none), rw (f, load_config), inl refl)
    | inr (p, f, h) ↦
        let (x, i, o) = load_main-Loaded work_buffer text p _ member e d h in
        (x, rw (f, load_config) i, o)
  ]
