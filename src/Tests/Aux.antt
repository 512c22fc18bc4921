-- ===== src/Tests/Aux.antt =====
-- A manager with one guest at concrete inputs: tables and shared storage as functions, two cells.
use zss.Prelude.{
  ℕ, Bool, ◌≡◌, ◌≢◌, ◌⊎◌, refl, inl, inr, true, false, Option, none, some, [], ◌∷◌, ◌++◌, ◌-◌,
  length, take, drop, replicate, bytes_eq, Bytes, codes, ◌==◌, if◌then◌else◌, arith, Option-cases,
}
use zss.Aux.{command_text_size, CommArea, empty_buffer}
use zss.Aux.Manager.{
  LongHashtable, CellPool, Manager, System, created, flag_none, mgr_eyecatcher, zisaux_mgr_init,
  put_area,
}
use zss.Aux.Manager.Guests.{enter_guest, start_with, zisaux_mgr_start_guest2, zisaux_mgr_stop_guest}
use zss.Aux.Manager.Reach.{Reach, init, next, start, IsSound, Reach-IsSound}
use zss.Aux.Manager.Lifecycle.{start_guest2-replaced, stop_guest_lem}
use zss.Aux.Manager.Requests.{
  SharedStorage, zisaux_mgr_init_request_payload, zisaux_mgr_clean_request, zisaux_mgr_init_command,
}
use zss.Aux.Manager.Requests.Dangling.{dangling, init_request_payload-clean_request}
use zss.Aux.Manager.Requests.Limits.{init_command-stored}

-- Tables as functions.
pub map_put : (ℕ → Option ℕ) → ℕ → ℕ → ℕ → Option ℕ
map_put m k a l = if k == l then some a else m l

pub map_remove : (ℕ → Option ℕ) → ℕ → ℕ → Option ℕ
map_remove m k l = if k == l then none else m l

pub map_put_get :
    (m : ℕ → Option ℕ) (k l a : ℕ) → map_put m k a l ≡ (if k == l then some a else m l)
unfolding map_put
map_put_get m k l a = refl

pub map_remove_get :
    (m : ℕ → Option ℕ) (k l : ℕ) → map_remove m k l ≡ (if k == l then none else m l)
unfolding map_remove
map_remove_get m k l = refl

abbrev pub function_table : LongHashtable
function_table = record {
  Table = ℕ → Option ℕ;
  empty = λ k. none;
  get = λ m k. m k;
  put = map_put;
  remove = map_remove;
  get-empty = λ k. refl;
  get-put = map_put_get;
  get-remove = map_remove_get;
}

-- The cells 4096 and 8192.
free_cell : (ℕ → Option CommArea) → Option ℕ
free_cell h = elim (h 4096) [
  | none ↦ some 4096
  | some _ ↦ elim (h 8192) [ none ↦ some 8192 | some _ ↦ none ]
]

free_cell_free : (h : ℕ → Option CommArea) (a : ℕ) → free_cell h ≡ some a → h a ≡ none
unfolding free_cell
free_cell_free h a e = elim (Option-cases (h 4096)) [
  | inl f ↦ let g : 4096 ≡ a = ground arith in rw (← g) f
  | inr (x, f) ↦ elim (Option-cases (h 8192)) [
    | inl g ↦ let i : 8192 ≡ a = ground arith in rw (← i) g
    | inr (y, g) ↦ ground arith
  ]
]

abbrev two_cells : CellPool
two_cells = record { get = free_cell; get_free = free_cell_free }

abbrev aux_system : System
aux_system = record {
  tcb = 1;
  asid = 7;
  print_fails = false;
  parm_size = 100;
  create = λ stc parm reuse. created 11 22;
}

abbrev pub new_manager : Manager (ℕ → Option ℕ)
new_manager = record {
  eyecatcher = mgr_eyecatcher;
  host_stc = codes "ZWESAUX ";
  ascb_to_comm = λ k. none;
  nickname_to_comm = λ k. none;
  manager_tcb = 1;
  comm_pool = 3;
  shared_storage_token = 9;
  comm_at = λ a. none;
}

abbrev guest_module : Bytes
guest_module = codes "GUEST" ++ 0 ∷ []

-- The guest 5 was started.
abbrev one_guest : Manager (ℕ → Option ℕ)
one_guest =
    (zisaux_mgr_start_guest2 function_table two_cells aux_system new_manager 5 guest_module none
      flag_none).1

one_guest-Reach : Reach function_table one_guest
unfolding zisaux_mgr_init
one_guest-Reach =
    next (init 1 3 9 0 new_manager refl)
      (start two_cells aux_system new_manager 5 guest_module none flag_none)

Reach-IsSound_example : IsSound function_table one_guest
Reach-IsSound_example = Reach-IsSound function_table one_guest-Reach

start_guest2_code :
    (zisaux_mgr_start_guest2 function_table two_cells aux_system one_guest 5 guest_module none
      flag_none).0
    ≡ 0
unfolding zisaux_mgr_start_guest2 bytes_eq start_with free_cell enter_guest put_area
start_guest2_code = refl

one_guest_named : function_table.get one_guest.nickname_to_comm 5 ≡ some 4096
unfolding zisaux_mgr_start_guest2 bytes_eq start_with free_cell enter_guest map_put
one_guest_named = refl

start_guest2-replaced_example :
    ((m : ℕ)
      → function_table.get
          (zisaux_mgr_start_guest2 function_table two_cells aux_system one_guest 5 guest_module none
            flag_none).1.nickname_to_comm
          m
        ≢ some 4096)
    × ((zisaux_mgr_start_guest2 function_table two_cells aux_system one_guest 5 guest_module none
            flag_none).1.comm_at
          4096
        ≢ none)
start_guest2-replaced_example =
    start_guest2-replaced function_table two_cells aux_system one_guest 5 4096 guest_module none
      flag_none one_guest-Reach one_guest_named start_guest2_code

stop_guest_lem_example :
    (rc : ℕ) × (mgr : Manager (ℕ → Option ℕ)) × (zisaux_mgr_stop_guest function_table
        (λ stoken. true)
        one_guest
        5
      ≡ some (rc, mgr))
    × (((rc ≢ 0) × (mgr ≡ one_guest))
        ⊎ ((rc ≡ 0)
            × (function_table.get mgr.nickname_to_comm 5 ≡ none)
            × ((a : ℕ) × (function_table.get one_guest.nickname_to_comm 5 ≡ some a)
                × (mgr.comm_at a ≡ none))))
stop_guest_lem_example = stop_guest_lem function_table (λ stoken. true) one_guest 5 one_guest-Reach

-- Shared storage for one object, whose state is whether it is allocated. Access is refused.
release_one : Bool → Option Bool
release_one true = some false
release_one false = none

abbrev one_object : SharedStorage
one_object = record {
  Storage = Bool;
  alloc = λ s token size. some (1, true);
  get_access = λ s token a. none;
  remove_access = λ s token a. s;
  release = λ s token a. release_one s;
  write = λ s a b. s;
  read = λ s a. [];
}

abbrev long_data : Bytes
long_data = replicate 300 7

init_request_payload-clean_request_example :
    (zisaux_mgr_init_request_payload one_object new_manager false empty_buffer long_data
      ≡ (40, dangling one_object new_manager 1, false))
    × (zisaux_mgr_clean_request one_object new_manager false (dangling one_object new_manager 1)
        ≡ (40, dangling one_object new_manager 1, false))
unfolding release_one
init_request_payload-clean_request_example =
    init_request_payload-clean_request one_object new_manager false true false empty_buffer
      long_data 1 refl (omega arith) refl refl refl refl

-- A text of 130 bytes in front of storage that is all 9.
abbrev long_text : Bytes
long_text = replicate 130 b'A'

init_command-stored_example :
    ((zisaux_mgr_init_command (replicate 200 9) 0 long_text).0 ≡ 0)
    × ((zisaux_mgr_init_command (replicate 200 9) 0 long_text).1.length ≡ length long_text)
    × (take (length long_text) (zisaux_mgr_init_command (replicate 200 9) 0 long_text).1.text
        ≡ long_text)
    × (drop command_text_size (zisaux_mgr_init_command (replicate 200 9) 0 long_text).1.text
        ≡ drop command_text_size long_text
          ++ drop (length long_text - command_text_size) (drop command_text_size (replicate 200 9)))
init_command-stored_example = init_command-stored (replicate 200 9) 0 long_text (omega arith)
