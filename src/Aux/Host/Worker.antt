-- ===== src/Aux/Host/Worker.antt =====
-- The task of a host that does the work of a request: the lower half of zis-aux/src/aux-host.c.
pub mod Path
use zss.Prelude.{
  ℕ, ◌≡◌, Bool, true, false, not, Option, none, some, List, [], Bytes, ◌==◌, if◌then◌else◌,
}
use zss.Aux.Return.{
  rc_zisaux_ok, rc_zisaux_error, rc_zisaux_alloc_failed, rc_zisaux_handler_error,
  rc_zisaux_user_handler_error, rc_zisaux_bad_function_code,
}
use zss.Aux.{
  CommArea, comm_signal_term, Command, CommandResponse, empty_command, empty_response, Buffer,
  empty_buffer, ParmList, func_command, func_work, func_term,
}
use zss.Aux.Host.{
  pe_ok, pe_rc_schedule_error, pe_rc_term, pe_rc_worker_abend, pe_rc_env_error, Pause, not_paused,
  released,
}
use zss.Aux.Host.Commands.{
  Unsafe, returned, recovered, CommandHandler, Reply, bad_pointer, replied, handle_aux_command,
}

-- `handleWork` of a `ZISAUXModuleDescriptor`: its return code and the response it leaves.
abbrev pub WorkHandler : Type 0
WorkHandler = Buffer → Buffer → Unsafe (ℕ × Buffer)

-- The handlers of a guest.
pub record Guest : Type 0 where
  pub handle_command : Option CommandHandler
  pub handle_work : Option WorkHandler

-- The flags of a `ZISAUXContext`, its communication area, and whether `stcBaseShutdown` was called.
pub record Context : Type 0 where
  pub term_command_received : Bool
  pub guest_initialized : Bool
  pub legacy_api : Bool
  pub master_comm_area : CommArea
  pub is_shut_down : Bool

-- `callUserModuleWorkHandler`
unfoldable pub call_user_module_work_handler : Option WorkHandler → Buffer → Buffer → ℕ × ℕ × Buffer
call_user_module_work_handler handler payload response = elim handler [
  | none ↦ (rc_zisaux_ok, 0, response)
  | some handle_work ↦ elim (handle_work payload response) [
    | recovered ↦ (rc_zisaux_handler_error, rc_zisaux_error, response)
    | returned r ↦
        if r.0 == rc_zisaux_ok
        then (rc_zisaux_ok, 0, r.1)
        else (rc_zisaux_user_handler_error, r.0, r.1)
  ]
]

-- `terminateAUX`
unfoldable pub terminate_aux : Context → Context
terminate_aux context =
    if context.legacy_api
    then record context { term_command_received = true; is_shut_down = true }
    else record context {
      master_comm_area = record context.master_comm_area { comm_ecb = some comm_signal_term };
    }

-- `commTaskMain`, when its wait for the ECB ends.
unfoldable pub comm_task_main : Context → Context
comm_task_main context = record context {
  master_comm_area = record context.master_comm_area { comm_ecb = none };
  term_command_received = true;
  is_shut_down = true;
}

-- `isCommunicationPCEnabled`
unfoldable pub is_communication_pc_enabled : Context → Bool
is_communication_pc_enabled context =
    if context.legacy_api then true else context.master_comm_area.comm_pc_on

-- `launchCommTask`; the flag tells whether the task is made.
unfoldable pub launch_comm_task : Bool → Context → ℕ
launch_comm_task is_made context =
    if context.legacy_api
    then rc_zisaux_ok
    else if is_made
    then rc_zisaux_ok
    else rc_zisaux_alloc_failed

-- `handleWorkRequest`
unfoldable pub handle_work_request : Guest → ParmList → ParmList
unfolding call_user_module_work_handler
handle_work_request guest list =
    let (rc, rsn, response) =
      call_user_module_work_handler guest.handle_work list.payload list.response in
    record list { response = response; aux_rc = rc; aux_rsn = rsn }

-- `handleUknownRequest`
unfoldable pub handle_unknown_request : ParmList → ParmList
handle_unknown_request list = record list {
  aux_rc = rc_zisaux_bad_function_code;
  aux_rsn = list.function;
}

-- How `recoveryPush` of the task ends, a return after an abend included; the abend leaves the list
-- as the work had it then.
pub data Recovery : Type 0 where
  entered not_entered : Recovery
  after_abend : ParmList → Recovery

-- What happens to the task of a request: whether it is made, its recovery, and whether
-- `peRelease` succeeds.
pub record Task : Type 0 where
  pub is_made : Bool
  pub recovery : Recovery
  pub releases : Bool

-- A list that is zero.
abbrev pub empty_list : ParmList
empty_list = record {
  eyecatcher = [];
  version = 0;
  function = 0;
  command = empty_command;
  command_response = empty_response;
  payload = empty_buffer;
  response = empty_buffer;
  aux_rc = 0;
  aux_rsn = 0;
}

module _ {S : Type 0} (slh_alloc : S → ℕ → Option S) (heap : Option S) where
  -- `handleCommandRequest`. `none` is fuel that ran out or a pointer that is NULL.
  unfoldable pub handle_command_request : Guest → ParmList → Option ParmList
  unfolding handle_aux_command
  handle_command_request guest list =
      elim (handle_aux_command slh_alloc heap guest.handle_command true list.command
        list.command_response) [
          | none ↦ none
          | some bad_pointer ↦ none
          | some (replied rc rsn response level) ↦
              some (record list { command_response = response; aux_rc = rc; aux_rsn = rsn })
        ]

  -- The switch of `handleCommRequest`.
  unfoldable pub handle_comm_request : Guest → Context → ParmList → Option (Context × ParmList)
  unfolding handle_command_request handle_work_request terminate_aux handle_unknown_request
  handle_comm_request guest context list =
      if list.function == func_command
      then elim (handle_command_request guest list) [
        | none ↦ none
        | some list' ↦ some (context, list')
      ]
      else if list.function == func_work
      then some (context, handle_work_request guest list)
      else if list.function == func_term
      then some (terminate_aux context, record list { aux_rc = rc_zisaux_ok })
      else some (context, handle_unknown_request list)

  -- `workElementHandler` and `asyncRequestHanler`: how the caller is released. A caller that could
  -- not be released stays paused until the host ends, with the code that its PET was allocated with.
  unfoldable pub work_element_handler : Guest → Task → Context → ParmList → Option (Context × Pause)
  unfolding handle_comm_request
  work_element_handler guest task context list =
      let release : ℕ → ParmList → Pause =
        λ code l. if task.releases then released code l else released pe_rc_term l in
      if not task.is_made
      then some (context, release pe_rc_schedule_error list)
      else elim task.recovery [
        | entered ↦ elim (handle_comm_request guest context list) [
          | none ↦ none
          | some (context', list') ↦ some (
            context',
            if task.releases then released pe_ok list' else released pe_rc_term empty_list,
          )
        ]
        | not_entered ↦ some (context, release pe_rc_env_error list)
        | after_abend list' ↦ some (context, release pe_rc_worker_abend list')
      ]

  -- What a paused caller sees of the work; what is undefined ends as an abend.
  unfoldable pub work_of : Guest → Task → Context → ParmList → Pause
  unfolding work_element_handler
  work_of guest task context list = elim (work_element_handler guest task context list) [
    | none ↦ not_paused 0
    | some r ↦ r.1
  ]
