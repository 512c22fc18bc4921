-- ===== src/Aux/Host/Boot.antt =====
-- The start and the end of a host: its configuration and `run` of zis-aux/src/aux-host.c. What the
-- system and the guest do is a parameter; `none` is undefined behaviour.
pub mod Parms
pub mod Order
use zss.Prelude.{
  ℕ, ◌≡◌, Bool, true, false, not, ◌&&◌, ◌||◌, Option, none, some, List, [], ◌∷◌, ◌++◌, length,
  Bytes, codes, bytes_eq, ◌==◌, ltb, if◌then◌else◌,
}
use zss.Aux.Return.{rc_zisaux_ok, rc_zisaux_error}
use zss.Parm.Set.{ParmSet, rc_zisparm_ok, zis_get_parm_value}
use zss.Parm.MainParms.{zis_read_main_parms}
use zss.Parm.Parmlib.{ParmlibService, ParmStatus, zis_read_parmlib}
use zss.Aux.{CommArea, comm_eyecatcher, comm_version}
use zss.Aux.Host.Commands.{Unsafe, returned, recovered}
use zss.Aux.Host.{pe_rc_cancel}
use zss.Aux.Host.Worker.{Context, is_communication_pc_enabled, launch_comm_task}

-- `checkEnv`: `testAuth`, the key of the TCB, and `isDubStatusOk`, whose status 4 is a failure.
unfoldable pub check_env : ℕ → ℕ → ℕ → ℕ → ℕ
check_env auth_status tcb_key server_key dub_status =
    if not (auth_status == 0)
    then rc_zisaux_error
    else if not (tcb_key == server_key)
    then rc_zisaux_error
    else if dub_status == 4
    then rc_zisaux_error
    else rc_zisaux_ok

-- `sscanf` with %p gives an address or nothing; the storage at an address holds the bytes of an area, or
-- cannot be read.
pub record Storage : Type 0 where
  pub scan_pointer : Bytes → Option ℕ
  pub area_at : ℕ → Option CommArea

-- `getMasterCommAreaAddress`: the inner `none` is NULL.
unfoldable pub get_master_comm_area_address :
    {S : Type 0} → Storage → ParmSet S → Option (Option (ℕ × CommArea))
get_master_comm_area_address storage parms = elim (zis_get_parm_value parms (codes "COMM")) [
  | none ↦ none
  | some none ↦ some none
  | some (some address_string) ↦ elim (storage.scan_pointer address_string) [
    | none ↦ some none
    | some a ↦ elim (storage.area_at a) [
      | none ↦ none
      | some area ↦
          if not (bytes_eq area.eyecatcher comm_eyecatcher)
          then some none
          else some (some (a, area))
    ]
  ]
]

-- What `loadMasterParm` leaves: a code, the parameters, and the address of the area with whether
-- its version asks for the legacy interface.
pub record Loaded (S : Type 0) : Type 0 where
  pub rc : ℕ
  pub parms : ParmSet S
  pub master_comm_area : Option ℕ
  pub legacy_api : Bool

module _ {S : Type 0} (slh_alloc : S → ℕ → Option S) (storage : Storage) where
  -- The end of `loadMasterParm`.
  unfoldable pub find_comm_area : ParmSet S → Option (Loaded S)
  unfolding get_master_comm_area_address
  find_comm_area parms = elim (get_master_comm_area_address storage parms) [
    | none ↦ none
    | some none ↦ some (record {
      rc = rc_zisaux_error;
      parms = parms;
      master_comm_area = none;
      legacy_api = false;
    })
    | some (some (a, area)) ↦ some (record {
      rc = rc_zisaux_ok;
      parms = parms;
      master_comm_area = some a;
      legacy_api = ltb area.version comm_version;
    })
  ]

  -- `loadMasterParm`: `master_parm` is the text that `addressSpaceExtractParm` gives, or a failure,
  -- and the flag tells whether there is a work buffer.
  unfoldable pub load_master_parm : Option Bytes → Bool → ParmSet S → Option (Loaded S)
  unfolding find_comm_area
  load_master_parm master_parm has_buffer parms =
      let failed : ParmSet S → Option (Loaded S) = λ p.
        some (record {
          rc = rc_zisaux_error;
          parms = p;
          master_comm_area = none;
          legacy_api = false;
        }) in
      elim master_parm [
        | none ↦ failed parms
        | some text ↦ elim (zis_read_main_parms slh_alloc has_buffer text parms) [
          | none ↦ none
          | some (rc, parms') ↦
              if not (rc == rc_zisparm_ok) then failed parms' else find_comm_area parms'
        ]
      ]

  -- The end of `loadConfig`: the member PARM names is read; a failure is only reported.
  unfoldable pub load_parm_member : ParmlibService → ParmStatus → Loaded S → Option (Loaded S)
  load_parm_member sys status loaded = elim (zis_get_parm_value loaded.parms (codes "PARM")) [
    | none ↦ none
    | some none ↦ some loaded
    | some (some member) ↦
        elim (zis_read_parmlib slh_alloc sys (codes "PARMLIB") member status loaded.parms) [
          | none ↦ none
          | some (progress, parms') ↦ some (record loaded { parms = parms' })
        ]
  ]

  -- `loadConfig`: the texts of the main parameters and of the manager's.
  unfoldable pub load_config :
      ParmlibService
      → ParmStatus
      → Bytes
      → Bool
      → Option Bytes
      → Bool
      → ParmSet S
      → Option (Loaded S)
  unfolding load_master_parm load_parm_member
  load_config sys status main_text has_main_buffer master_parm has_buffer parms =
      elim (zis_read_main_parms slh_alloc has_main_buffer main_text parms) [
        | none ↦ none
        | some (rc, parms') ↦
            if not (rc == rc_zisparm_ok)
            then some (record {
              rc = rc_zisaux_error;
              parms = parms';
              master_comm_area = none;
              legacy_api = false;
            })
            else elim (load_master_parm master_parm has_buffer parms') [
              | none ↦ none
              | some loaded ↦
                  if not (loaded.rc == rc_zisaux_ok)
                  then some loaded
                  else load_parm_member sys status loaded
            ]
      ]

-- The size of an `EightCharString`.
abbrev pub module_name_size : ℕ
module_name_size = 8

-- `getUserModuleName`: the bytes that are copied to the front of the name.
unfoldable pub get_user_module_name : {S : Type 0} → ParmSet S → Option (ℕ × Bytes)
get_user_module_name parms = elim (zis_get_parm_value parms (codes "MOD")) [
  | none ↦ none
  | some none ↦ some (rc_zisaux_error, [])
  | some (some name) ↦
      if ltb module_name_size (length name)
      then some (rc_zisaux_error, [])
      else some (rc_zisaux_ok, name)
]

-- The functions of a guest that `run` calls, as their calls end. NULL is `none`.
pub record Hooks : Type 0 where
  pub init : Option (Unsafe ℕ)
  pub term : Option (Unsafe ℕ)

-- How the module is loaded: no entry point, or one that gives a descriptor or not; an abend gives
-- nothing either.
unfoldable pub load_user_module :
    {S : Type 0} → (Bytes → Option (Option Hooks)) → ParmSet S → Option (ℕ × Option Hooks)
unfolding get_user_module_name
load_user_module load parms = elim (get_user_module_name parms) [
  | none ↦ none
  | some (rc, name) ↦
      if not (rc == rc_zisaux_ok) then some (rc_zisaux_error, none) else elim (load name) [
        | none ↦ some (rc_zisaux_error, none)
        | some none ↦ some (rc_zisaux_error, none)
        | some (some hooks) ↦ some (rc_zisaux_ok, some hooks)
      ]
]

-- `callUserModuleInit` and `callUserModuleTerm`, but for the flag.
unfoldable pub call_hook : Option (Unsafe ℕ) → ℕ
call_hook none = rc_zisaux_ok
call_hook (some recovered) = rc_zisaux_error
call_hook (some (returned rc)) = if rc == rc_zisaux_ok then rc_zisaux_ok else rc_zisaux_error

-- What a run does, in its order.
pub data Event : Type 0 where
  guest_started guest_ended base_shut_down : Event
  ready_set term_set : Bool → Event
  main_loop_done : Event

-- `setReadyFlag` and `setTermFlag`
unfoldable pub set_ready_flag : Context → Bool → Context
set_ready_flag context value = record context {
  master_comm_area = record context.master_comm_area { ready = value };
}

unfoldable pub set_term_flag : Context → Bool → Context
set_term_flag context value = record context {
  master_comm_area = record context.master_comm_area { terminated = value };
}

-- The end of `run`, from the main loop on; `main_loop` is what the tasks do to the context meanwhile.
unfoldable pub run_main_loop : Hooks → (Context → Context) → Context → ℕ × Context × List Event
unfolding call_hook set_ready_flag set_term_flag
run_main_loop hooks main_loop context =
    let after = set_ready_flag (main_loop (set_ready_flag context true)) false in
    let status = if after.term_command_received then rc_zisaux_ok else rc_zisaux_error in
    let term_rc = call_hook hooks.term in
    let front = ready_set true ∷ main_loop_done ∷ ready_set false ∷ guest_ended ∷ [] in
    if not (term_rc == rc_zisaux_ok)
    then (if status == rc_zisaux_ok then term_rc else status, after, front)
    else (
      status,
      set_term_flag (record after { is_shut_down = true }) true,
      front ++ base_shut_down ∷ term_set true ∷ [],
    )

-- `run` from `callUserModuleInit` on.
unfoldable pub run_guest : Hooks → (Context → Context) → Context → ℕ × Context × List Event
unfolding call_hook run_main_loop
run_guest hooks main_loop context =
    let init_rc = call_hook hooks.init in
    if not (init_rc == rc_zisaux_ok)
    then (init_rc, context, guest_started ∷ [])
    else let (status, context', events) =
        run_main_loop hooks main_loop (record context { guest_initialized = true }) in
      (status, context', guest_started ∷ events)

-- `establishCommunicationPC`: the numbers of the PC routine, or a failure.
unfoldable pub establish_communication_pc : Option (ℕ × ℕ) → Context → ℕ × Context
establish_communication_pc none context = (rc_zisaux_error, context)
establish_communication_pc (some (pc_number, sequence_number)) context = (
  rc_zisaux_ok,
  record context {
    master_comm_area = record context.master_comm_area {
      pc_number = pc_number;
      sequence_number = sequence_number;
    };
  },
)

-- `run` behind `loadConfig`: the task for signals, the PC routine if it is enabled, the module, and
-- its run. `loaded_module` is what `loadUserModule` gives.
unfoldable pub run_host :
    Bool
    → Option (ℕ × ℕ)
    → ℕ × Option Hooks
    → (Context → Context)
    → Context
    → ℕ × Context × List Event
unfolding launch_comm_task is_communication_pc_enabled establish_communication_pc run_guest
run_host task_is_made pc loaded_module main_loop context =
    let task_rc = launch_comm_task task_is_made context in
    let (pc_rc, context') =
      if is_communication_pc_enabled context
      then establish_communication_pc pc context
      else (rc_zisaux_ok, context) in
    if not (task_rc == rc_zisaux_ok)
    then (task_rc, context, [])
    else if not (pc_rc == rc_zisaux_ok)
    then (pc_rc, context', [])
    else elim loaded_module.1 [
      | none ↦ (loaded_module.0, context', [])
      | some hooks ↦ run_guest hooks main_loop context'
    ]

-- `handleCancel` on the context, and the code that `notifyAllPendingCallers` releases every PET of
-- the host with.
unfoldable pub handle_cancel : Context → Context × ℕ
unfolding set_ready_flag set_term_flag
handle_cancel context = (set_term_flag (set_ready_flag context false) true, pe_rc_cancel)
