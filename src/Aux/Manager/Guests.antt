-- ===== src/Aux/Manager/Guests.antt =====
-- How zis-aux/src/aux-manager.c starts, signals and stops a guest. `none` is the use of a cell that
-- is free.
use zss.Prelude.{
  ℕ, ◌-◌, Bool, true, false, not, Option, none, some, take, Bytes, bytes_eq, ◌==◌, if◌then◌else◌,
}
use zss.Aux.Return.{
  rc_zisaux_ok, rc_zisaux_comm_not_allocated, rc_zisaux_print_error, rc_zisaux_as_not_started,
  rc_zisaux_comm_not_found, rc_zisaux_as_not_stopped, rc_zisaux_bad_eyecatcher,
  rc_zisaux_not_manager_tcb,
}
use zss.Aux.{CommArea}
use zss.Aux.Manager.{
  LongHashtable, CellPool, Manager, Created, not_created, created, System, GuestFlags, flag_none,
  mgr_eyecatcher, put_area, new_comm_area, host_parm,
}

-- `makeASCREAttributes`: AS_ATTR_REUSASID next to AS_ATTR_NOSWAP.
unfoldable pub make_ascre_attributes : GuestFlags → Bool
make_ascre_attributes flags = not flags.reusasid_no

-- The last writes to the area of a new guest, `setCommAreaFlags` with them.
unfoldable pub assign_guest : CommArea → ℕ → ℕ → ℕ → GuestFlags → CommArea
assign_guest area stoken ascb asid flags = record area {
  stoken = stoken;
  ascb = ascb;
  parent_asid = asid;
  comm_pc_on = if flags.comm_pc_off then false else true;
}

module _ (t : LongHashtable) where
  open t use {Table, get, put, remove}

  module _ (pool : CellPool) (sys : System) where
    -- The reply of the system is entered.
    unfoldable pub enter_guest : Manager Table → ℕ → GuestFlags → ℕ → Created → ℕ × Manager Table
    unfolding put_area assign_guest
    enter_guest mgr nickname flags a not_created =
        (rc_zisaux_as_not_started, record mgr { comm_at = put_area mgr.comm_at a none })
    enter_guest mgr nickname flags a (created stoken ascb) = (
      rc_zisaux_ok,
      record mgr {
        nickname_to_comm = put mgr.nickname_to_comm nickname a;
        ascb_to_comm = put mgr.ascb_to_comm ascb a;
        comm_at =
            put_area mgr.comm_at a (some (assign_guest new_comm_area stoken ascb sys.asid flags));
      },
    )

    -- The guest is started with the area at an address: the parameter string, the address space,
    -- and the entries of the tables.
    unfoldable pub start_with :
        Manager Table → ℕ → Bytes → Option Bytes → GuestFlags → ℕ → ℕ × Manager Table
    unfolding put_area host_parm make_ascre_attributes enter_guest
    start_with mgr nickname module_name guest_parm flags a =
        let text = take (sys.parm_size - 1) (host_parm module_name a guest_parm) in
        if sys.print_fails
        then (rc_zisaux_print_error, record mgr { comm_at = put_area mgr.comm_at a none })
        else enter_guest mgr nickname flags a
            (sys.create mgr.host_stc text (make_ascre_attributes flags))

    -- `zisauxMgrStartGuest2`
    unfoldable pub zisaux_mgr_start_guest2 :
        Manager Table → ℕ → Bytes → Option Bytes → GuestFlags → ℕ × Manager Table
    unfolding start_with
    zisaux_mgr_start_guest2 mgr nickname module_name guest_parm flags =
        if not (bytes_eq mgr.eyecatcher mgr_eyecatcher)
        then (rc_zisaux_bad_eyecatcher, mgr)
        else if not (sys.tcb == mgr.manager_tcb)
        then (rc_zisaux_not_manager_tcb, mgr)
        else elim (pool.get mgr.comm_at) [
          | none ↦ (rc_zisaux_comm_not_allocated, mgr)
          | some a ↦ start_with mgr nickname module_name guest_parm flags a
        ]

    -- `zisauxMgrStartGuest`
    unfoldable pub zisaux_mgr_start_guest :
        Manager Table → ℕ → Bytes → Option Bytes → ℕ × Manager Table
    unfolding zisaux_mgr_start_guest2
    zisaux_mgr_start_guest mgr nickname module_name guest_parm =
        zisaux_mgr_start_guest2 mgr nickname module_name guest_parm flag_none

  -- `getCommArea`
  unfoldable pub get_comm_area : Manager Table → ℕ → Option ℕ
  get_comm_area mgr nickname = get mgr.nickname_to_comm nickname

  -- The end of `zisauxMgrStopGuest`: the entries are removed, the cell is freed.
  unfoldable pub left_guest : Manager Table → ℕ → ℕ → CommArea → Manager Table
  unfolding put_area
  left_guest mgr nickname a area = record mgr {
    nickname_to_comm = remove mgr.nickname_to_comm nickname;
    ascb_to_comm = remove mgr.ascb_to_comm area.ascb;
    comm_at = put_area mgr.comm_at a none;
  }

  -- `zisauxMgrStopGuest`. The wait for `termECB` ends, since the exit of the address space posts it.
  unfoldable pub zisaux_mgr_stop_guest : (ℕ → Bool) → Manager Table → ℕ → Option (ℕ × Manager Table)
  unfolding left_guest
  zisaux_mgr_stop_guest terminate mgr nickname =
      if not (bytes_eq mgr.eyecatcher mgr_eyecatcher)
      then some (rc_zisaux_bad_eyecatcher, mgr)
      else elim (get mgr.nickname_to_comm nickname) [
        | none ↦ some (rc_zisaux_comm_not_found, mgr)
        | some a ↦ elim (mgr.comm_at a) [
          | none ↦ none
          | some area ↦
              if not (terminate area.stoken)
              then some (rc_zisaux_as_not_stopped, mgr)
              else some (rc_zisaux_ok, left_guest mgr nickname a area)
        ]
      ]
