-- ===== src/Aux/Host.antt =====
-- The host of a guest in an auxiliary address space: zis-aux/src/aux-host.c. What the system and
-- the guest do is a parameter; messages and the trace level are left out.
pub mod Gate
pub mod Commands
pub mod Worker
pub mod Boot
use zss.Prelude.{
  ℕ, suc, ◌≡◌, ◌⊎◌, Bool, true, false, Option, none, some, List, [], ◌∷◌, Bytes, codes,
}
use zss.Aux.{ParmList}

-- ZISAUX_PE_OK and ZISAUX_PE_RC_*, the codes that a caller is released with.
abbrev pub pe_ok : ℕ
pe_ok = 0

abbrev pub pe_rc_schedule_error : ℕ
pe_rc_schedule_error = 8

abbrev pub pe_rc_term : ℕ
pe_rc_term = 9

abbrev pub pe_rc_cancel : ℕ
pe_rc_cancel = 10

abbrev pub pe_rc_worker_abend : ℕ
pe_rc_worker_abend = 11

abbrev pub pe_rc_env_error : ℕ
pe_rc_env_error = 12

abbrev pub pe_rc_host_abend : ℕ
pe_rc_host_abend = 13

abbrev pub max_request_count : ℕ
max_request_count = 16

abbrev pub caller_key : ℕ
caller_key = 4

abbrev pub context_eyecatcher : Bytes
context_eyecatcher = codes "ZISAUXC "

-- The queue of pause elements (PETs) that are free: `makeQueue`, `qInsert` and `qRemove`, which
-- gives NULL exactly if the queue is empty.
pub record PetQueue : Type 1 where
  pub Queue : Type 0
  pub empty : Queue
  pub insert : Queue → ℕ → Queue
  pub remove : Queue → Option (ℕ × Queue)
  pub size : Queue → ℕ
  pub size-empty : size empty ≡ 0
  pub size-insert : (q : Queue) (pet : ℕ) → size (insert q pet) ≡ suc (size q)
  pub size-remove :
      (q : Queue)
      → ((remove q ≡ none) × (size q ≡ 0))
        ⊎ ((pet : ℕ) × (rest : Queue) × (remove q ≡ some (pet, rest)) × (size q ≡ suc (size rest)))

-- How a pause ends: `pePause` fails, or the caller is released with a code, and the work has left
-- the list as it is then.
pub data Pause : Type 0 where
  not_paused : ℕ → Pause
  released : ℕ → ParmList → Pause

-- What happens to one request: `peTest` fails or tells whether the PET is paused, access to a
-- shared object is given or taken back, storage for the work element is there, and the work, which
-- is done while the caller is paused.
pub record Request : Type 0 where
  pub pe_test : ℕ → Option Bool
  pub get_access : ℕ → Bool
  pub remove_access : ℕ → Bool
  pub has_storage : Bool
  pub work : ParmList → Pause

-- The end of a request: refused with a code, answered with a code and a list that is written back,
-- or an abend.
pub data Answer : Type 0 where
  refused : ℕ → Answer
  answered : ℕ → ParmList → Answer
  abended : ℕ → Answer

-- The free PETs, and the shared objects that the host has got access to.
pub record Desk (Q : Type 0) : Type 0 where
  pub available_pets : Q
  pub accesses : List ℕ
