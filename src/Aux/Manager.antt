-- ===== src/Aux/Manager.antt =====
-- The manager of the auxiliary address spaces in the server: zis-aux/src/aux-manager.c. The hash
-- tables, the cell pool and the services of the system are not part of the repository. A reason
-- code is what the system gave and is left out.
pub mod Guests
pub mod Areas
pub mod Reach
pub mod Lifecycle
pub mod Requests
use zss.Prelude.{
  ℕ, zero, suc, ◌+◌, ◌*◌, ◌-◌, ◌%◌, ◌≡◌, Bool, true, false, not, Option, none, some, List, [], ◌∷◌,
  ◌++◌, take, Bytes, codes, bytes_eq, c_string, ◌==◌, ltb, if◌then◌else◌,
}
use Prim.Native.Nat.{◌/◌}
use zss.Aux.Return.{
  rc_zisaux_ok, rc_zisaux_error, rc_zisaux_cpool_alloc_failed, rc_zisaux_bad_eyecatcher,
  rc_zisaux_shr64_error,
}
use zss.Aux.{CommArea, comm_eyecatcher, comm_version}

-- `LongHashtable`, from keys to the addresses of communication areas.
pub record LongHashtable : Type 1 where
  pub Table : Type 0
  pub empty : Table
  pub get : Table → ℕ → Option ℕ
  pub put : Table → ℕ → ℕ → Table
  pub remove : Table → ℕ → Table
  pub get-empty : (k : ℕ) → get empty k ≡ none
  pub get-put : (t : Table) (k l a : ℕ) → get (put t k a) l ≡ (if k == l then some a else get t l)
  pub get-remove : (t : Table) (k l : ℕ) → get (remove t k) l ≡ (if k == l then none else get t l)

-- The cells of a pool that are in use. `cellpoolGet` gives the address of a free one, or NULL.
pub record CellPool : Type 0 where
  pub get : (ℕ → Option CommArea) → Option ℕ
  pub get_free : (h : ℕ → Option CommArea) (a : ℕ) → get h ≡ some a → h a ≡ none

-- `ZISAUXManager`; `comm_at` is the content of the cells.
pub record Manager (T : Type 0) : Type 0 where
  pub eyecatcher : Bytes
  pub host_stc : Bytes
  pub ascb_to_comm : T
  pub nickname_to_comm : T
  pub manager_tcb : ℕ
  pub comm_pool : ℕ
  pub shared_storage_token : ℕ
  pub comm_at : ℕ → Option CommArea

-- The reply of `addressSpaceCreateWithTerm`: the STOKEN and the ASCB of the new address space.
pub data Created : Type 0 where
  not_created : Created
  created : ℕ → ℕ → Created

-- What the manager is told by the system: its TCB, its ASID, whether `snprintf` fails, the size of
-- the parameter area of an address space, and how the calls for address spaces end.
pub record System : Type 0 where
  pub tcb : ℕ
  pub asid : ℕ
  pub print_fails : Bool
  pub parm_size : ℕ
  pub create : Bytes → Bytes → Bool → Created

-- What `zisauxMgrInit` is given: two tables, a pool and a token.
pub record Resources (T : Type 0) : Type 0 where
  pub tcb : ℕ
  pub ascb_table : Option T
  pub nickname_table : Option T
  pub pool : Option ℕ
  pub token : ℕ

-- ZIS_AUX_FLAG_REUSASID_NO and ZIS_AUX_FLAG_COMM_PC_OFF
pub record GuestFlags : Type 0 where
  pub reusasid_no : Bool
  pub comm_pc_off : Bool

abbrev pub flag_none : GuestFlags
flag_none = record { reusasid_no = false; comm_pc_off = false }

abbrev pub mgr_eyecatcher : Bytes
mgr_eyecatcher = codes "ZISAUXM "

abbrev pub default_host_stc : Bytes
default_host_stc = codes "ZWESAUX "

-- One cell is written, or freed.
unfoldable pub put_area : (ℕ → Option CommArea) → ℕ → Option CommArea → ℕ → Option CommArea
put_area h a o b = if a == b then o else h b

-- `zisauxMgrInit`. Without its tables and its pool the manager is `none`.
unfoldable pub zisaux_mgr_init : {T : Type 0} → Resources T → ℕ × Option (Manager T)
zisaux_mgr_init r = elim r.ascb_table [
  | none ↦ (rc_zisaux_error, none)
  | some ascbs ↦ elim r.nickname_table [
    | none ↦ (rc_zisaux_error, none)
    | some nicknames ↦ elim r.pool [
      | none ↦ (rc_zisaux_cpool_alloc_failed, none)
      | some pool ↦ (
        rc_zisaux_ok,
        some (record {
          eyecatcher = mgr_eyecatcher;
          host_stc = default_host_stc;
          ascb_to_comm = ascbs;
          nickname_to_comm = nicknames;
          manager_tcb = r.tcb;
          comm_pool = pool;
          shared_storage_token = r.token;
          comm_at = λ _. none;
        }),
      )
    ]
  ]
]

-- `zisauxMgrClean`: `release_all` says whether the shared storage could be released. A manager
-- that is zero is `none`.
unfoldable pub zisaux_mgr_clean : {T : Type 0} → (ℕ → Bool) → Manager T → ℕ × Option (Manager T)
zisaux_mgr_clean release_all mgr =
    if not (bytes_eq mgr.eyecatcher mgr_eyecatcher)
    then (rc_zisaux_bad_eyecatcher, some mgr)
    else if not (mgr.shared_storage_token == 0)
    then if release_all mgr.shared_storage_token then (rc_zisaux_ok, none) else (
      rc_zisaux_shr64_error,
      some (record mgr {
        comm_pool = 0;
        shared_storage_token = 0;
        comm_at = if mgr.comm_pool == 0 then mgr.comm_at else (λ _. none);
      }),
    )
    else (rc_zisaux_ok, none)

-- `allocCommArea`
abbrev pub new_comm_area : CommArea
new_comm_area = record {
  eyecatcher = comm_eyecatcher;
  ready = false;
  terminated = false;
  comm_pc_on = false;
  pc_number = 0;
  sequence_number = 0;
  stoken = 0;
  ascb = 0;
  parent_asid = 0;
  version = comm_version;
  term_ecb = none;
  comm_ecb = none;
}

-- `zisauxMgrSetHostSTC`
unfoldable pub zisaux_mgr_set_host_stc : {T : Type 0} → Manager T → Bytes → Manager T
zisaux_mgr_set_host_stc mgr host_stc = record mgr { host_stc = host_stc }

-- A digit as `%X` prints it.
unfoldable pub hex_digit : ℕ → ℕ
hex_digit d = if ltb d 10 then b'0' + d else b'A' + (d - 10)

-- `%08X` of an address, its last n digits.
unfoldable pub hex_digits : ℕ → ℕ → Bytes
unfolding hex_digit
hex_digits zero a = []
hex_digits (suc n) a = hex_digits n (a / 16) ++ hex_digit (a % 16) ∷ []

-- The parameter string of the host; `module_name` is the storage from the name on, which `%s` reads
-- up to a NUL.
unfoldable pub host_parm : Bytes → ℕ → Option Bytes → Bytes
unfolding hex_digits
host_parm module_name area guest_parm =
    codes ":=),MOD="
    ++ c_string module_name
    ++ codes ",COMM="
    ++ hex_digits 8 area
    ++ b',' ∷ elim guest_parm [ none ↦ [] | some value ↦ c_string value ]
