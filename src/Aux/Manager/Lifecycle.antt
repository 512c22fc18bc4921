-- ===== src/Aux/Manager/Lifecycle.antt =====
-- What a start and a stop of a guest leave in the manager.
use zss.Prelude.{
  ℕ, ◌≡◌, ◌≢◌, ◌⊎◌, refl, ap, ◌∙◌, inl, inr, Bool, true, false, not, Option, none, some, Bytes,
  bytes_eq, ◌==◌, ==_iff, Bool-cases, Option-cases, arith, if◌then◌else◌,
}
use zss.Aux.Return.{
  rc_zisaux_ok, rc_zisaux_comm_not_found, rc_zisaux_as_not_stopped, rc_zisaux_bad_eyecatcher,
}
use zss.Aux.{CommArea}
use zss.Aux.Manager.{
  LongHashtable, CellPool, Manager, Created, not_created, created, System, GuestFlags,
  mgr_eyecatcher, new_comm_area, put_area,
}
use zss.Aux.Manager.Guests.{
  assign_guest, enter_guest, start_with, zisaux_mgr_start_guest2, left_guest, zisaux_mgr_stop_guest,
}
use zss.Aux.Manager.Areas.{put_area-same, put_area-other, free-ne}
use zss.Aux.Manager.Reach.{Reach, Reach-IsSound}

module _ (t : LongHashtable) where
  open t use {Table, get, put, get-put, get-remove}

  -- A guest that was started: the nickname names a cell that was free, with a new area that
  -- names the manager's address space and allows the PC routine if the flags do.
  abbrev pub IsStarted : System → GuestFlags → ℕ → Manager Table → Manager Table → Type 0
  IsStarted sys flags nickname mgr mgr' =
      (a : ℕ) × (area : CommArea) × (mgr.comm_at a ≡ none)
      × (get mgr'.nickname_to_comm nickname ≡ some a)
      × (get mgr'.ascb_to_comm area.ascb ≡ some a)
      × (mgr'.comm_at ≡ put_area mgr.comm_at a (some area))
      × (mgr'.nickname_to_comm ≡ put mgr.nickname_to_comm nickname a)
      × (area.ready ≡ false)
      × (area.parent_asid ≡ sys.asid)
      × (area.comm_pc_on ≡ not flags.comm_pc_off)

  pc_allowed : (off : Bool) → (if off then false else true) ≡ not off
  pc_allowed off = ground arith

  enter_guest_lem :
      (pool : CellPool) (sys : System) (mgr : Manager Table) (nickname : ℕ) (flags : GuestFlags)
      (a : ℕ) (reply : Created)
      → mgr.comm_at a ≡ none
      → ((enter_guest t pool sys mgr nickname flags a reply).0 ≢ rc_zisaux_ok)
        ⊎ IsStarted sys flags nickname mgr (enter_guest t pool sys mgr nickname flags a reply).1
  unfolding enter_guest assign_guest
  enter_guest_lem pool sys mgr nickname flags a not_created free = inl (omega arith)
  enter_guest_lem pool sys mgr nickname flags a (created stoken ascb) free = inr (
    a,
    assign_guest new_comm_area stoken ascb sys.asid flags,
    free,
    get-put mgr.nickname_to_comm nickname nickname a ∙ rw ((==_iff nickname nickname).1 refl),
    get-put mgr.ascb_to_comm ascb ascb a ∙ rw ((==_iff ascb ascb).1 refl),
    refl,
    refl,
    refl,
    refl,
    pc_allowed flags.comm_pc_off,
  )

  -- A start returns an error, or the guest is started.
  pub start_guest2_lem :
      (pool : CellPool) (sys : System) (mgr : Manager Table) (nickname : ℕ) (module_name : Bytes)
      (guest_parm : Option Bytes) (flags : GuestFlags)
      → ((zisaux_mgr_start_guest2 t pool sys mgr nickname module_name guest_parm flags).0
          ≢ rc_zisaux_ok)
        ⊎ IsStarted sys flags nickname mgr
            (zisaux_mgr_start_guest2 t pool sys mgr nickname module_name guest_parm flags).1
  unfolding zisaux_mgr_start_guest2 start_with
  start_guest2_lem pool sys mgr nickname module_name guest_parm flags =
      elim (Bool-cases (bytes_eq mgr.eyecatcher mgr_eyecatcher)) [
        | inr e ↦ inl (ground arith)
        | inl e ↦ elim (Bool-cases (sys.tcb == mgr.manager_tcb)) [
          | inr f ↦ inl (ground arith)
          | inl f ↦ elim (Option-cases (pool.get mgr.comm_at)) [
            | inl g ↦ inl (ground arith)
            | inr (a, g) ↦ elim (Bool-cases sys.print_fails) [
              | inl i ↦ inl (ground arith)
              | inr i ↦
                  rw (e, zisaux_mgr_start_guest2)
                    (rw (f, zisaux_mgr_start_guest2)
                      (rw (g, zisaux_mgr_start_guest2)
                        (rw (i, start_with)
                          (enter_guest_lem pool sys mgr nickname flags a _
                            (pool.get_free mgr.comm_at a g)))))
            ]
          ]
        ]
      ]

  -- In every state that the manager reaches, a guest that is started under the nickname of another one takes
  -- the nickname over: no nickname names the cell of the other guest any more, and the cell is still in use.
  pub start_guest2-replaced :
      (pool : CellPool) (sys : System) (mgr : Manager Table) (nickname b : ℕ) (module_name : Bytes)
      (guest_parm : Option Bytes) (flags : GuestFlags)
      → Reach t mgr
      → get mgr.nickname_to_comm nickname ≡ some b
      → ((zisaux_mgr_start_guest2 t pool sys mgr nickname module_name guest_parm flags).0
          ≡ rc_zisaux_ok)
      → ((m : ℕ)
          → get
              (zisaux_mgr_start_guest2 t pool sys mgr nickname module_name guest_parm
                flags).1.nickname_to_comm
              m
            ≢ some b)
        × ((zisaux_mgr_start_guest2 t pool sys mgr nickname module_name guest_parm flags).1.comm_at
              b
            ≢ none)
  start_guest2-replaced pool sys mgr nickname b module_name guest_parm flags r named ok =
      let v = Reach-IsSound t r in
      let (old, used) = v.nickname_area nickname b named in
      elim (start_guest2_lem pool sys mgr nickname module_name guest_parm flags) [
        | inl bad ↦ absurd (bad ok)
        | inr (a, area, free, _, _, cells, names, _, _, _) ↦
            let other = free-ne mgr.comm_at a b old free used in
            (
              λ m h. elim (Bool-cases (nickname == m)) [
                | inl g ↦
                    let i = ap (λ n. get n m) names in
                    let j = get-put mgr.nickname_to_comm nickname m a in other (ground arith)
                | inr g ↦
                    let i = ap (λ n. get n m) names in
                    let j = get-put mgr.nickname_to_comm nickname m a in
                    let k : get mgr.nickname_to_comm m ≡ some b = ground arith in
                    let l = v.nickname_alone nickname m b named k in
                    ground (arith, ==_iff nickname m)
              ],
              λ h.
                  let i = ap (λ (c : ℕ → Option CommArea). c b) cells in
                  let j = put_area-other mgr.comm_at a b (some area) other in ground arith,
            )
      ]

  -- In every state that the manager reaches, a stop of a guest uses no free cell. It changes nothing and
  -- returns an error; or it returns 0, the nickname names no cell, and the cell that it named is free.
  pub stop_guest_lem :
      (terminate : ℕ → Bool) (mgr : Manager Table) (nickname : ℕ)
      → Reach t mgr
      → (rc : ℕ) × (mgr' : Manager Table) × (zisaux_mgr_stop_guest t terminate mgr nickname
          ≡ some (rc, mgr'))
        × (((rc ≢ rc_zisaux_ok) × (mgr' ≡ mgr))
            ⊎ ((rc ≡ rc_zisaux_ok)
                × (get mgr'.nickname_to_comm nickname ≡ none)
                × ((a : ℕ) × (get mgr.nickname_to_comm nickname ≡ some a)
                    × (mgr'.comm_at a ≡ none))))
  unfolding zisaux_mgr_stop_guest left_guest
  stop_guest_lem terminate mgr nickname r =
      elim (Bool-cases (bytes_eq mgr.eyecatcher mgr_eyecatcher)) [
        | inr e ↦
            (rc_zisaux_bad_eyecatcher, mgr, rw (e, zisaux_mgr_stop_guest), inl (omega arith, refl))
        | inl e ↦ elim (Option-cases (get mgr.nickname_to_comm nickname)) [
          | inl f ↦ (
            rc_zisaux_comm_not_found,
            mgr,
            rw (e, zisaux_mgr_stop_guest) (rw (f, zisaux_mgr_stop_guest)),
            inl (omega arith, refl),
          )
          | inr (a, f) ↦
              let (area, g) = (Reach-IsSound t r).nickname_area nickname a f in
              elim (Bool-cases (terminate area.stoken)) [
                | inr i ↦ (rc_zisaux_as_not_stopped, mgr, ground arith, inl (omega arith, refl))
                | inl i ↦ (
                  rc_zisaux_ok,
                  left_guest t mgr nickname a area,
                  ground arith,
                  inr (
                    refl,
                    get-remove mgr.nickname_to_comm nickname nickname
                        ∙ rw ((==_iff nickname nickname).1 refl),
                    (a, f, put_area-same mgr.comm_at a none),
                  ),
                )
              ]
        ]
      ]
