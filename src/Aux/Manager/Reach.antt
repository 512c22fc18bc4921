-- ===== src/Aux/Manager/Reach.antt =====
-- The histories of a manager: guests are started and stopped, and the hosts write to their areas.
use zss.Prelude.{
  ℕ, ◌≡◌, ◌⊎◌, ap, inl, inr, Bool, Option, none, some, Bytes, bytes_eq, ◌==◌, Bool-cases,
  Option-cases, arith,
}
use mathlib.Core.Option.{some-injective}
use mathlib.Core.Path.{subst}
use zss.Aux.{CommArea}
use zss.Aux.Manager.{
  LongHashtable, CellPool, Manager, Created, not_created, created, System, GuestFlags,
  mgr_eyecatcher, put_area, zisaux_mgr_init, zisaux_mgr_set_host_stc,
}
use zss.Aux.Manager.Guests.{
  enter_guest, start_with, assign_guest, left_guest, zisaux_mgr_start_guest2, zisaux_mgr_stop_guest,
}
use zss.Aux.Manager.Areas.{
  AreSound, empty-AreSound, AreSound-free, AreSound-enter, AreSound-leave, AreSound-write,
}

module _ (t : LongHashtable) where
  open t use {Table, empty, get, remove, get-remove}

  pub data Step : Manager Table → Manager Table → Type 0 where
    start :
        (pool : CellPool) (sys : System) (mgr : Manager Table) (nickname : ℕ) (module_name : Bytes)
        (guest_parm : Option Bytes) (flags : GuestFlags)
        → Step mgr (zisaux_mgr_start_guest2 t pool sys mgr nickname module_name guest_parm flags).1
    stop :
        (terminate : ℕ → Bool) (mgr mgr' : Manager Table) (nickname rc : ℕ)
        → zisaux_mgr_stop_guest t terminate mgr nickname ≡ some (rc, mgr')
        → Step mgr mgr'
    set_host :
        (mgr : Manager Table) (host_stc : Bytes) → Step mgr (zisaux_mgr_set_host_stc mgr host_stc)
    write_area :
        (mgr : Manager Table) (a : ℕ) (old new : CommArea)
        → mgr.comm_at a ≡ some old
        → new.ascb ≡ old.ascb
        → Step mgr (record mgr { comm_at = put_area mgr.comm_at a (some new) })

  pub data Reach : Manager Table → Type 0 where
    init :
        (tcb pool token rc : ℕ) (mgr : Manager Table)
        → zisaux_mgr_init (record {
          tcb = tcb;
          ascb_table = some empty;
          nickname_table = some empty;
          pool = some pool;
          token = token;
        })
          ≡ (rc, some mgr)
        → Reach mgr
    next : {mgr mgr' : Manager Table} → Reach mgr → Step mgr mgr' → Reach mgr'

  abbrev pub IsSound : Manager Table → Type 0
  IsSound mgr = AreSound t mgr.nickname_to_comm mgr.ascb_to_comm mgr.comm_at

  enter_guest-IsSound :
      (pool : CellPool) (sys : System) (mgr : Manager Table) (nickname : ℕ) (flags : GuestFlags)
      (a : ℕ) (reply : Created)
      → mgr.comm_at a ≡ none
      → IsSound mgr
      → IsSound (enter_guest t pool sys mgr nickname flags a reply).1
  unfolding enter_guest assign_guest
  enter_guest-IsSound pool sys mgr nickname flags a not_created free v =
      AreSound-free t mgr.nickname_to_comm mgr.ascb_to_comm mgr.comm_at a none free v
  enter_guest-IsSound pool sys mgr nickname flags a (created stoken ascb) free v =
      AreSound-enter t mgr.nickname_to_comm mgr.ascb_to_comm mgr.comm_at nickname a _ free v

  start_with-IsSound :
      (pool : CellPool) (sys : System) (mgr : Manager Table) (nickname : ℕ) (module_name : Bytes)
      (guest_parm : Option Bytes) (flags : GuestFlags) (a : ℕ)
      → mgr.comm_at a ≡ none
      → IsSound mgr
      → IsSound (start_with t pool sys mgr nickname module_name guest_parm flags a).1
  unfolding start_with
  start_with-IsSound pool sys mgr nickname module_name guest_parm flags a free v =
      elim (Bool-cases sys.print_fails) [
        | inl e ↦
            rw (e, start_with)
              (AreSound-free t mgr.nickname_to_comm mgr.ascb_to_comm mgr.comm_at a none free v)
        | inr e ↦ rw (e, start_with) (enter_guest-IsSound pool sys mgr nickname flags a _ free v)
      ]

  start_guest2-IsSound :
      (pool : CellPool) (sys : System) (mgr : Manager Table) (nickname : ℕ) (module_name : Bytes)
      (guest_parm : Option Bytes) (flags : GuestFlags)
      → IsSound mgr
      → IsSound (zisaux_mgr_start_guest2 t pool sys mgr nickname module_name guest_parm flags).1
  unfolding zisaux_mgr_start_guest2
  start_guest2-IsSound pool sys mgr nickname module_name guest_parm flags v =
      elim (Bool-cases (bytes_eq mgr.eyecatcher mgr_eyecatcher)) [
        | inr e ↦ rw (e, zisaux_mgr_start_guest2) v
        | inl e ↦ elim (Bool-cases (sys.tcb == mgr.manager_tcb)) [
          | inr f ↦ rw (e, zisaux_mgr_start_guest2) (rw (f, zisaux_mgr_start_guest2) v)
          | inl f ↦ elim (Option-cases (pool.get mgr.comm_at)) [
            | inl g ↦
                rw (e, zisaux_mgr_start_guest2)
                  (rw (f, zisaux_mgr_start_guest2) (rw (g, zisaux_mgr_start_guest2) v))
            | inr (a, g) ↦
                rw (e, zisaux_mgr_start_guest2)
                  (rw (f, zisaux_mgr_start_guest2)
                    (rw (g, zisaux_mgr_start_guest2)
                      (start_with-IsSound pool sys mgr nickname module_name guest_parm flags a
                        (pool.get_free mgr.comm_at a g) v)))
          ]
        ]
      ]

  -- How a stop ends: nothing is changed, or the guest's entries and its cell go.
  stop_guest-outcome :
      (terminate : ℕ → Bool) (mgr mgr' : Manager Table) (nickname rc : ℕ)
      → zisaux_mgr_stop_guest t terminate mgr nickname ≡ some (rc, mgr')
      → (mgr' ≡ mgr)
        ⊎ ((a : ℕ) × (area : CommArea) × (get mgr.nickname_to_comm nickname ≡ some a)
            × (mgr.comm_at a ≡ some area)
            × (mgr' ≡ left_guest t mgr nickname a area))
  unfolding zisaux_mgr_stop_guest
  stop_guest-outcome terminate mgr mgr' nickname rc h =
      elim (Option-cases (get mgr.nickname_to_comm nickname)) [
        | inl e ↦ inl (ground arith)
        | inr (a, e) ↦ elim (Option-cases (mgr.comm_at a)) [
          | inl f ↦ inl (ground arith)
          | inr (area, f) ↦ elim (Bool-cases (terminate area.stoken)) [
            | inr g ↦ inl (ground arith)
            | inl g ↦ elim (Bool-cases (bytes_eq mgr.eyecatcher mgr_eyecatcher)) [
              | inr i ↦ inl (ground arith)
              | inl i ↦ inr (a, area, e, f, ground arith)
            ]
          ]
        ]
      ]

  Step-IsSound : {mgr mgr' : Manager Table} → Step mgr mgr' → IsSound mgr → IsSound mgr'
  unfolding left_guest zisaux_mgr_set_host_stc
  Step-IsSound (start pool sys mgr nickname module_name guest_parm flags) v =
      start_guest2-IsSound pool sys mgr nickname module_name guest_parm flags v
  Step-IsSound (stop terminate mgr mgr' nickname rc h) v =
      elim (stop_guest-outcome terminate mgr mgr' nickname rc h) [
        | inl e ↦ rw e v
        | inr (a, area, e, f, g) ↦ rw g (
            AreSound-leave t mgr.nickname_to_comm mgr.ascb_to_comm mgr.comm_at nickname a area e f
              v)
      ]
  Step-IsSound (set_host mgr host_stc) v = v
  Step-IsSound (write_area mgr a old new used kept) v =
      AreSound-write t mgr.nickname_to_comm mgr.ascb_to_comm mgr.comm_at a old new used kept v

  -- From the initialised manager on, with any guests started and stopped and with any writes to
  -- the areas that keep the ASCB: a nickname names a cell in use that no other nickname names, and
  -- an ASCB names a cell in use that has this ASCB.
  pub Reach-IsSound : {mgr : Manager Table} → Reach mgr → IsSound mgr
  unfolding zisaux_mgr_init
  Reach-IsSound (init tcb pool token rc mgr e) =
      subst (λ (m : Manager Table). IsSound m) (some-injective _ _ (ap (λ r. r.1) e))
        (empty-AreSound t (λ _. none))
  Reach-IsSound (next r s) = Step-IsSound s (Reach-IsSound r)
