-- ===== src/Aux/Host/Gate.antt =====
-- The PC routine of a host, which runs in the caller: the checks of a request in
-- zis-aux/src/aux-host.c, and the pause until a task of the host has done the work.
pub mod Accounting
pub mod Admission
use zss.Prelude.{
  ℕ, zero, suc, ◌+◌, ◌≡◌, Bool, true, false, not, ◌&&◌, ◌||◌, Option, none, some, List, [], ◌∷◌,
  Bytes, codes, bytes_eq, ◌==◌, ltb, if◌then◌else◌,
}
use zss.Aux.Return.{
  rc_zisaux_ok, rc_zisaux_pc_env_not_established, rc_zisaux_pc_abend_detected,
  rc_zisaux_pc_recovery_env_failed, rc_zisaux_pc_env_not_terminated, rc_zisaux_pc_parm_invalid,
  rc_zisaux_comm_area_invalid, rc_zisaux_alloc_failed, rc_zisaux_comm_srvc_parm_invalid,
  rc_zisaux_unsupported_version, rc_zisaux_request_limit_reached, rc_zisaux_aux_termination,
  rc_zisaux_request_tcb_abend, rc_zisaux_bad_pet, rc_zisaux_handler_not_scheduled,
  rc_zisaux_host_abended, rc_zisaux_bad_caller_key, rc_zisaux_shr64_error,
  rc_zisaux_caller_not_recognized,
}
use zss.Aux.{
  Buffer, ParmList, service_parm_eyecatcher, service_parm_version, func_command, func_work,
  func_term,
}
use zss.Aux.Host.{
  pe_ok, pe_rc_schedule_error, pe_rc_term, pe_rc_worker_abend, pe_rc_host_abend, caller_key,
  context_eyecatcher, PetQueue, Pause, not_paused, released, Request, Answer, refused, answered,
  abended, Desk,
}

-- What the PC routine sees of a `ZISAUXContext`.
pub record Target : Type 0 where
  pub eyecatcher : Bytes
  pub parent_asid : ℕ

-- `AUXPCParmList`. The caller's list lies in the caller's storage: two readings of it need not give the
-- same.
pub record PcParmList : Type 0 where
  pub eyecatcher : Bytes
  pub latent_parm_list : Option Target
  pub service_parm_list : Option (ParmList × ParmList)

abbrev pub pc_parm_eyecatcher : Bytes
pc_parm_eyecatcher = codes "AUXPCPRM"

-- `isAUXContextValid`
unfoldable pub is_aux_context_valid : Target → Bool
is_aux_context_valid target = bytes_eq target.eyecatcher context_eyecatcher

-- `isCommServiceParmListValid`
unfoldable pub is_comm_service_parm_list_valid : ParmList → Bool
is_comm_service_parm_list_valid list =
    if not (bytes_eq list.eyecatcher service_parm_eyecatcher)
    then false
    else if not
        (list.function == func_command || list.function == func_work || list.function == func_term)
    then false
    else true

-- `isCallerParentServer`; `sasn` is `getSASN`.
unfoldable pub is_caller_parent_server : ℕ → Target → Bool
is_caller_parent_server sasn target = target.parent_asid == sasn

-- One access is taken off.
unfoldable pub remove_one : ℕ → List ℕ → List ℕ
remove_one a [] = []
remove_one a (x ∷ xs) = let rest = remove_one a xs in if x == a then xs else x ∷ rest

-- The status that a release code stands for.
unfoldable pub status_of_release : ℕ → ℕ → ℕ
status_of_release code aux_rc =
    if code == pe_ok
    then aux_rc
    else if code == pe_rc_term
    then rc_zisaux_aux_termination
    else if code == pe_rc_worker_abend
    then rc_zisaux_request_tcb_abend
    else if code == pe_rc_schedule_error
    then rc_zisaux_handler_not_scheduled
    else if code == pe_rc_host_abend
    then rc_zisaux_host_abended
    else rc_zisaux_ok

module _ (request : Request) where
  -- Access to the object of a buffer, if it has one.
  unfoldable pub access_buffer : List ℕ → Buffer → Bool × List ℕ
  access_buffer accesses buffer = elim buffer.address [
    | none ↦ (true, accesses)
    | some a ↦ if request.get_access a then (true, a ∷ accesses) else (false, accesses)
  ]

  -- `copyServiceParmList` behind the copy itself.
  unfoldable pub copy_service_parm_list : List ℕ → ParmList → ℕ × List ℕ
  unfolding access_buffer
  copy_service_parm_list accesses list =
      let (payload_ok, with_payload) = access_buffer accesses list.payload in
      let (response_ok, with_both) = access_buffer with_payload list.response in
      if not payload_ok
      then (rc_zisaux_shr64_error, with_payload)
      else if not response_ok
      then (rc_zisaux_shr64_error, with_both)
      else (rc_zisaux_ok, with_both)

  -- The access to the object of a buffer is given back.
  unfoldable pub leave_buffer : List ℕ → Buffer → Bool × List ℕ
  unfolding remove_one
  leave_buffer accesses buffer = elim buffer.address [
    | none ↦ (true, accesses)
    | some a ↦ if request.remove_access a then (true, remove_one a accesses) else (false, accesses)
  ]

  -- `cleanServiceParmListCopy`
  unfoldable pub clean_service_parm_list_copy : List ℕ → ParmList → ℕ × List ℕ
  unfolding leave_buffer
  clean_service_parm_list_copy accesses list =
      let (payload_ok, without_payload) = leave_buffer accesses list.payload in
      let (response_ok, without_both) = leave_buffer without_payload list.response in
      (if payload_ok && response_ok then rc_zisaux_ok else rc_zisaux_shr64_error, without_both)

  -- `isPETValid`
  unfoldable pub is_pet_valid : ℕ → Bool
  is_pet_valid pet = elim (request.pe_test pet) [ none ↦ false | some paused ↦ not paused ]

  -- The end of `scheduleCommRequestProcessing`: the copy is written back to the caller and cleaned.
  unfoldable pub finish_request : {Q : Type 0} → Desk Q → ℕ → ParmList → Desk Q × Answer
  unfolding clean_service_parm_list_copy
  finish_request desk status list =
      let (clean_rc, accesses) = clean_service_parm_list_copy desk.accesses list in
      let status' =
        if clean_rc == rc_zisaux_ok
        then status
        else if status == rc_zisaux_ok
        then clean_rc
        else status in
      (record desk { accesses = accesses }, answered status' list)

-- ZISAUX_ABEND_CC_PAUSE_FAILED
abbrev pub abend_cc_pause_failed : ℕ
abend_cc_pause_failed = 200

module _ (t : PetQueue) where
  open t use {Queue, insert}

  -- The loop of `makeContext` over the PETs from number i on: each is allocated and put into the
  -- queue. `none` is an allocation that failed.
  unfoldable pub make_request_pets : (ℕ → Bool) → ℕ → ℕ → Queue → Option Queue
  make_request_pets pe_alloc zero i queue = some queue
  make_request_pets pe_alloc (suc n) i queue =
      let rest = make_request_pets pe_alloc n (i + 1) (insert queue i) in
      if pe_alloc i then rest else none

module _ (t : PetQueue) (request : Request) where
  open t use {Queue, insert, remove}

  -- The caller is paused, and goes on with its PET free again.
  unfoldable pub resume_caller : Desk Queue → ℕ → Pause → Desk Queue × Answer
  unfolding finish_request status_of_release
  resume_caller desk pet (not_paused rc) = (desk, abended abend_cc_pause_failed)
  resume_caller desk pet (released code list) =
      finish_request request (record desk { available_pets = insert desk.available_pets pet })
        (status_of_release code list.aux_rc) list

  -- `scheduleCommRequestProcessing`, the list as it is copied. A refusal leaves the caller's list
  -- alone.
  unfoldable pub schedule_comm_request_processing : Desk Queue → ParmList → Desk Queue × Answer
  unfolding is_pet_valid copy_service_parm_list finish_request resume_caller
  schedule_comm_request_processing desk list = elim (remove desk.available_pets) [
    | none ↦ (desk, refused rc_zisaux_request_limit_reached)
    | some (pet, rest) ↦
        let (copy_rc, accesses) = copy_service_parm_list request desk.accesses list in
        let desk' : Desk Queue = record { available_pets = rest; accesses = accesses } in
        if not (is_pet_valid request pet)
        then (record desk { available_pets = rest }, refused rc_zisaux_bad_pet)
        else if not (copy_rc == rc_zisaux_ok)
        then (desk', refused copy_rc)
        else if not request.has_storage
        then finish_request request desk' rc_zisaux_alloc_failed list
        else resume_caller desk' pet (request.work list)
  ]

  -- The checks of `handleUnsafePCSS` on the caller's list, and the request.
  unfoldable pub check_service_parm_list : Desk Queue → ParmList → ParmList → Desk Queue × Answer
  unfolding is_comm_service_parm_list_valid schedule_comm_request_processing
  check_service_parm_list desk checked list =
      if not (is_comm_service_parm_list_valid checked)
      then (desk, refused rc_zisaux_comm_srvc_parm_invalid)
      else if ltb service_parm_version checked.version
      then (desk, refused rc_zisaux_unsupported_version)
      else schedule_comm_request_processing desk list

  -- The checks of `handleUnsafePCSS` on the context.
  unfoldable pub check_target : ℕ → Desk Queue → Target → ParmList → ParmList → Desk Queue × Answer
  unfolding is_aux_context_valid is_caller_parent_server check_service_parm_list
  check_target sasn desk target checked list =
      if not (is_aux_context_valid target)
      then (desk, refused rc_zisaux_comm_area_invalid)
      else if not (is_caller_parent_server sasn target)
      then (desk, refused rc_zisaux_caller_not_recognized)
      else check_service_parm_list desk checked list

  -- `handleUnsafePCSS`, with the tests of `isAUXPCParmListValid`.
  unfoldable pub handle_unsafe_pcss : ℕ → Desk Queue → PcParmList → Desk Queue × Answer
  unfolding check_target
  handle_unsafe_pcss sasn desk parm_list =
      if not (bytes_eq parm_list.eyecatcher pc_parm_eyecatcher)
      then (desk, refused rc_zisaux_pc_parm_invalid)
      else elim parm_list.latent_parm_list [
        | none ↦ (desk, refused rc_zisaux_pc_parm_invalid)
        | some target ↦ elim parm_list.service_parm_list [
          | none ↦ (desk, refused rc_zisaux_pc_parm_invalid)
          | some (checked, list) ↦ check_target sasn desk target checked list
        ]
      ]

-- How `recoveryPush` of the PC routine ends.
pub data Push : Type 0 where
  pushed push_failed : Push

module _ (t : PetQueue) (request : Request) where
  open t use {Queue}

  -- The code and the list of an answer; an abend comes back to the recovery branch.
  unfoldable pub code_of_answer : Answer → ℕ × Option ParmList
  code_of_answer (refused rc) = (rc, none)
  code_of_answer (answered rc list) = (rc, some list)
  code_of_answer (abended code) = (rc_zisaux_pc_abend_detected, none)

  -- `handleCommunicationPCSS`: the caller's key, whether the environment is established and
  -- terminated, and the request. A failure of the termination replaces a code that is not 0.
  unfoldable pub handle_communication_pcss :
      ℕ → Bool → Push → Bool → ℕ → Desk Queue → PcParmList → Desk Queue × ℕ × Option ParmList
  unfolding handle_unsafe_pcss code_of_answer
  handle_communication_pcss key has_env push env_ends sasn desk parm_list =
      if not (key == caller_key)
      then (desk, rc_zisaux_bad_caller_key, none)
      else if not has_env
      then (desk, rc_zisaux_pc_env_not_established, none)
      else elim push [
        | push_failed ↦ (
          desk,
          if env_ends then rc_zisaux_pc_recovery_env_failed else rc_zisaux_pc_env_not_terminated,
          none,
        )
        | pushed ↦
            let (desk', answer) = handle_unsafe_pcss t request sasn desk parm_list in
            let (rc, list) = code_of_answer answer in
            (
              desk',
              if env_ends
                  then rc
                  else if rc == rc_zisaux_ok
                  then rc
                  else rc_zisaux_pc_env_not_terminated,
              list,
            )
      ]
