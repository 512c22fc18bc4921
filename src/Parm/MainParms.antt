-- ===== src/Parm/MainParms.antt =====
-- `zisReadMainParms` of c/zis/parm.c: the parameters of the started task, separated by commas.
pub mod Fields
use zss.Prelude.{
  ℕ, zero, suc, ◌+◌, ◌≡◌, Bool, true, false, Option, none, some, List, [], ◌∷◌, length, drop, Bytes,
  ◌==◌, if◌then◌else◌,
}
use zss.Parm.Set.{ParmSet, zis_put_parm_value, rc_zisparm_ok}
use zss.Parm.Record.{key_value}

abbrev pub rc_zisparm_alloc_failed : ℕ
rc_zisparm_alloc_failed = 18

-- The inner loop: the bytes from `startIdx` up to the next comma or the end.
unfoldable pub up_to_comma : Bytes → Bytes
up_to_comma [] = []
up_to_comma (c ∷ cs) = if c == b',' then [] else c ∷ up_to_comma cs

module _ {S : Type 0} (slh_alloc : S → ℕ → Option S) where
  -- The outer loop on fuel, over the text from `startIdx` on; `startIdx = endIdx` and the
  -- increment skip the parameter and its comma. `none` is undefined behaviour, or fuel that ran out.
  unfoldable pub read_main_parms : ℕ → Bytes → ParmSet S → Option (ℕ × ParmSet S)
  unfolding up_to_comma
  read_main_parms zero text p = none
  read_main_parms (suc fuel) [] p = some (rc_zisparm_ok, p)
  read_main_parms (suc fuel) (c ∷ cs) p =
      let parm = up_to_comma (c ∷ cs) in
      let (key, value) = key_value parm in
      elim (zis_put_parm_value slh_alloc p key value) [
        | none ↦ none
        | some (rc, p') ↦ elim (rc == rc_zisparm_ok) [
          | true ↦ read_main_parms fuel (drop (length parm + 1) (c ∷ cs)) p'
          | false ↦ some (rc, p')
        ]
      ]

  -- `zisReadMainParms`; the flag says whether `safeMalloc` gave the work buffer. The loop makes at
  -- most one round for each byte.
  unfoldable pub zis_read_main_parms : Bool → Bytes → ParmSet S → Option (ℕ × ParmSet S)
  unfolding read_main_parms
  zis_read_main_parms false text p = some (rc_zisparm_alloc_failed, p)
  zis_read_main_parms true text p = read_main_parms (length text + 1) text p
