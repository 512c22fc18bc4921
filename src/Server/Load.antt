-- ===== src/Server/Load.antt =====
-- `loadConfig` of c/zis/server.c: the parameter set of a start, from the main parameters and then
-- from the PARMLIB member. The main parameters are taken to be there.
pub mod Sources
use zss.Prelude.{ℕ, Bool, true, false, Option, none, some, List, Bytes, codes, ◌==◌, if◌then◌else◌}
use zss.Parm.Set.{ParmSet, rc_zisparm_ok, zis_make_parm_set, zis_get_parm_value}
use zss.Parm.MainParms.{zis_read_main_parms}
use zss.Parm.Parmlib.{ParmlibService, ParmStatus, Progress, zis_read_parmlib}
use zss.Server.State.{rc_zis_ok, rc_zis_error}
use zss.Server.Config.{extract_parmlib_member_name}

-- ZIS_PARM_DDNAME and ZIS_PARM_MEMBER_SUFFIX.
abbrev pub parm_ddname : Bytes
parm_ddname = codes "PARMLIB"

abbrev pub parm_member_suffix : Bytes
parm_member_suffix = codes "MEM"

-- `readStatus` before the call.
abbrev pub no_status : ParmStatus
no_status = record { internal_rc = 0; internal_rsn = 0 }

module _ {S : Type 0} (slh_alloc : S → ℕ → Option S) (sys : ParmlibService)
    (zis_module_name : Bytes) where
  -- The reading of the member, and the status of `loadConfig`.
  unfoldable pub load_member : Bytes → ParmSet S → Option (ℕ × Option (ParmSet S))
  unfolding zis_read_parmlib
  load_member member p = elim (zis_read_parmlib slh_alloc sys parm_ddname member no_status p) [
    | none ↦ none
    | some (q, p') ↦ some (if q.status == rc_zisparm_ok then rc_zis_ok else rc_zis_error, some p')
  ]

  -- From the name of the member on.
  unfoldable pub load_parmlib : ParmSet S → Option (ℕ × Option (ParmSet S))
  unfolding zis_get_parm_value extract_parmlib_member_name load_member
  load_parmlib p = elim (zis_get_parm_value p parm_member_suffix) [
    | none ↦ none
    | some suffix ↦ elim (extract_parmlib_member_name zis_module_name suffix) [
      | none ↦ some (rc_zis_error, some p)
      | some member ↦ load_member member p
    ]
  ]

  -- The reading of the main parameters, and what follows.
  unfoldable pub load_main : Bool → Bytes → ParmSet S → Option (ℕ × Option (ParmSet S))
  unfolding zis_read_main_parms load_parmlib
  load_main work_buffer text p = elim (zis_read_main_parms slh_alloc work_buffer text p) [
    | none ↦ none
    | some (rc, p') ↦ elim (rc == rc_zisparm_ok) [
      | true ↦ load_parmlib p'
      | false ↦ some (rc_zis_error, some p')
    ]
  ]

  -- `loadConfig`: the status and `context->parms`. The heap is what `makeShortLivedHeap` gave, the
  -- flag says whether `safeMalloc` gave the work buffer; `none` is undefined behaviour.
  unfoldable pub load_config : Option S → Bool → Bytes → Option (ℕ × Option (ParmSet S))
  unfolding zis_make_parm_set load_main
  load_config heap work_buffer text = elim (zis_make_parm_set slh_alloc heap) [
    | none ↦ none
    | some none ↦ some (rc_zis_error, none)
    | some (some p) ↦ load_main work_buffer text p
  ]
