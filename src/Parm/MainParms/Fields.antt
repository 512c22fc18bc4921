-- ===== src/Parm/MainParms/Fields.antt =====
-- What the text of the main parameters means: its fields, each a name with a value.
use zss.Prelude.{
  ℕ, zero, suc, ◌+◌, ◌<◌, ◌≡◌, refl, ◌⊎◌, inl, inr, ◌∙◌, true, Option, none, some, List, [], ◌∷◌,
  map, length, drop, length-drop, Bytes, ◌==◌, if◌then◌else◌, arith,
}
use zss.Parm.Set.{ParmSet, rc_zisparm_ok, rc_zisparm_slh_alloc_failed}
use zss.Parm.Set.Contents.{Contents, Represents, upsert}
use zss.Parm.Set.Refines.{zis_put_parm_value-upsert}
use zss.Parm.Set.Storage.{grants, parms_sizes, grants-append, grants-append_none, put_sizes}
use zss.Parm.Record.{key_value}
use zss.Parm.Record.Lines.{upsert_all}
use zss.Parm.MainParms.{up_to_comma, read_main_parms, zis_read_main_parms}

abbrev cons_head : ℕ → List Bytes → List Bytes
cons_head c [] = (c ∷ []) ∷ []
cons_head c (f ∷ fs) = (c ∷ f) ∷ fs

-- The text is split at its commas; an empty field at the end is no field.
unfoldable pub fields : Bytes → List Bytes
fields [] = []
fields (c ∷ cs) = let fs = fields cs in if c == b',' then [] ∷ fs else cons_head c fs

-- The first field, and the fields behind its comma.
fields-up_to_comma :
    (c : ℕ) (cs : Bytes)
    → fields (c ∷ cs)
      ≡ up_to_comma (c ∷ cs) ∷ fields (drop (length (up_to_comma (c ∷ cs)) + 1) (c ∷ cs))
unfolding fields up_to_comma
fields-up_to_comma c [] = ground arith
fields-up_to_comma c (d ∷ cs) = ground (arith, fields-up_to_comma d cs)

module _ {S : Type 0} (slh_alloc : S → ℕ → Option S) where
  -- The fields are put, or the heap refuses a request for their storage.
  unfoldable pub Outcome : S → Contents → Bytes → ℕ × ParmSet S → Type 0
  Outcome slh c text (rc, p) =
      ((rc ≡ rc_zisparm_ok) × Represents p (upsert_all c (map key_value (fields text))))
      ⊎ ((rc ≡ rc_zisparm_slh_alloc_failed)
          × (grants slh_alloc slh (parms_sizes c (map key_value (fields text))) ≡ none))

  read_main_parms-Outcome :
      (fuel : ℕ) (text : Bytes) (p : ParmSet S) (c : Contents)
      → length text < fuel
      → Represents p c
      → (x : ℕ × ParmSet S) × (read_main_parms slh_alloc fuel text p ≡ some x)
        × Outcome p.slh c text x
  unfolding read_main_parms Outcome upsert_all parms_sizes
  read_main_parms-Outcome zero text p c l h = elim l [ ]
  read_main_parms-Outcome (suc fuel) [] p c l h =
      ((rc_zisparm_ok, p), refl, inl (refl, unfold fields in h))
  read_main_parms-Outcome (suc fuel) (b ∷ bs) p c l h =
      let kv = key_value (up_to_comma (b ∷ bs)) in
      let rest = drop (length (up_to_comma (b ∷ bs)) + 1) (b ∷ bs) in
      let shorter : length rest < fuel =
        omega (arith, length-drop (length (up_to_comma (b ∷ bs)) + 1) (b ∷ bs)) in
      let ((rc, p'), q, o) = zis_put_parm_value-upsert slh_alloc p kv.0 kv.1 c h in
      elim o [
        | inr (e, f) ↦
            let g =
              grants-append_none slh_alloc p.slh (put_sizes c kv.0 kv.1)
                (parms_sizes (upsert kv.0 kv.1 c) (map key_value (fields rest))) f in
            ((rc, p'), ground arith, inr (e, rw (fields-up_to_comma b bs) g))
        | inl (e, h', f) ↦
            let (x, y, z) = read_main_parms-Outcome fuel rest p' (upsert kv.0 kv.1 c) shorter h' in
            let g =
              grants-append slh_alloc p.slh p'.slh (put_sizes c kv.0 kv.1)
                (parms_sizes (upsert kv.0 kv.1 c) (map key_value (fields rest))) f in
            (
              x,
              ground arith,
              rw (fields-up_to_comma b bs)
                  (elim z [ inl done ↦ inl done | inr (code, refused) ↦ inr (code, g ∙ refused) ]),
            )
      ]

  -- Given its work buffer and a set in which every entry is filled, the reading of the main parameters ends, has no undefined behaviour, and
  -- puts exactly the fields of the text in order, or stops with status 16, and the heap refuses one of the requests for
  -- their storage.
  pub zis_read_main_parms-Outcome :
      (text : Bytes) (p : ParmSet S) (c : Contents)
      → Represents p c
      → (x : ℕ × ParmSet S) × (zis_read_main_parms slh_alloc true text p ≡ some x)
        × Outcome p.slh c text x
  unfolding zis_read_main_parms
  zis_read_main_parms-Outcome text p c h =
      read_main_parms-Outcome (length text + 1) text p c (omega arith) h
