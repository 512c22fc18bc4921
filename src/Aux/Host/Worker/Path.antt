-- ===== src/Aux/Host/Worker/Path.antt =====
-- A request on its way: from the manager in the server through the PC routine to the task of the
-- host and back.
use zss.Prelude.{
  ℕ, ◌≤◌, ◌≡◌, ◌≢◌, ◌∙◌, refl, ap, inl, true, false, Option, none, some, List, [], ◌∷◌, take, Bytes,
  codes, bytes_eq, bytes_eq_refl, ltb, arith,
}
use zss.Aux.Return.{rc_zisaux_ok}
use zss.Aux.{CommArea, Command, command_text_size, unknown, CommandResponse, ParmList}
use zss.Aux.Tokens.Words.{words}
use zss.Aux.Manager.{LongHashtable, Manager, mgr_eyecatcher}
use zss.Aux.Manager.Guests.{get_comm_area}
use zss.Aux.Manager.Requests.{command_parm_list, usable_area, zisaux_mgr_send_command}
use zss.Aux.Host.{
  pe_ok, pe_rc_env_error, caller_key, context_eyecatcher, PetQueue, Pause, released, Request, Desk,
}
use zss.Aux.Host.Gate.{
  Target, PcParmList, pc_parm_eyecatcher, status_of_release, pushed, code_of_answer,
  handle_communication_pcss,
}
use zss.Aux.Host.Gate.Admission.{IsAdmissible, handle_unsafe_pcss-scheduled}
use zss.Aux.Host.Gate.Accounting.{IsWorked, schedule-worked}
use zss.Aux.Host.Commands.{returned, CommandHandler}
use zss.Aux.Host.Commands.Replies.{Grants, handle_aux_command-done}
use zss.Aux.Host.Worker.{
  Guest, Context, Task, entered, not_entered, handle_command_request, handle_comm_request,
  work_element_handler, work_of,
}

-- The parameter list of the PC routine, over a list that the caller does not change meanwhile.
abbrev pub pc_parm_list : Target → ParmList → PcParmList
pc_parm_list target list = record {
  eyecatcher = pc_parm_eyecatcher;
  latent_parm_list = some target;
  service_parm_list = some (list, list);
}

-- A host behind its PC routine: its context and what happens to the request there.
pub record Host (Q : Type 0) : Type 0 where
  pub target : Target
  pub request : Request
  pub desk : Desk Q
  pub guest : Guest
  pub task : Task
  pub context : Context

-- The PC routines of the system, by their PC and sequence numbers, and what a caller sees of a call of a
-- number that is not in use.
pub record PcTable (Q : Type 0) : Type 0 where
  pub host_at : ℕ → ℕ → Option (Host Q)
  pub unknown_pc : ParmList → ℕ × ParmList

module _ (q : PetQueue) (sasn : ℕ) where
  -- The PC routine of a host, in an environment that is established and ended.
  abbrev pub serve : Host q.Queue → ParmList → ℕ × ParmList
  serve host list =
      let (desk', rc, back) =
        handle_communication_pcss q host.request caller_key true pushed true sasn host.desk
          (pc_parm_list host.target list) in
      (rc, elim back [ none ↦ list | some list' ↦ list' ])

  -- The PC call of the manager, which the numbers lead to a host.
  abbrev pub pc_routine : PcTable q.Queue → ℕ → ℕ → ParmList → ℕ × ParmList
  pc_routine table pc_number sequence_number list = elim (table.host_at pc_number sequence_number) [
    | none ↦ table.unknown_pc list
    | some host ↦ serve host list
  ]

  serve-answered :
      (host : Host q.Queue) (code : ℕ) (list list' : ParmList)
      → IsAdmissible sasn (pc_parm_list host.target list) host.target list list
      → q.size host.desk.available_pets ≢ 0
      → IsWorked host.request list code list'
      → serve host list ≡ (status_of_release code list'.aux_rc, list')
  unfolding handle_communication_pcss code_of_answer
  serve-answered host code list list' v free w =
      let e =
        handle_unsafe_pcss-scheduled q host.request sasn host.desk (pc_parm_list host.target list)
          host.target list list v in
      let f = schedule-worked q host.request host.desk list list' code free w in
      let g = ap (λ r. r.1) e ∙ f.0 in rw g refl

  pc_routine-answered :
      (table : PcTable q.Queue) (pc_number sequence_number : ℕ) (host : Host q.Queue) (code : ℕ)
      (list list' : ParmList)
      → table.host_at pc_number sequence_number ≡ some host
      → IsAdmissible sasn (pc_parm_list host.target list) host.target list list
      → q.size host.desk.available_pets ≢ 0
      → IsWorked host.request list code list'
      → pc_routine table pc_number sequence_number list
        ≡ (status_of_release code list'.aux_rc, list')
  pc_routine-answered table pc_number sequence_number host code list list' found v free w =
      rw (found, pc_routine) (serve-answered host code list list' v free w)

-- What the request needs of the system, and that its work is the task's.
pub record IsGranted (request : Request) (work : ParmList → Pause) : Type 0 where
  pub valid : (pet : ℕ) → request.pe_test pet ≡ some false
  pub access : (a : ℕ) → request.get_access a ≡ true
  pub access_end : (a : ℕ) → request.remove_access a ≡ true
  pub storage : request.has_storage ≡ true
  pub same_work : (list : ParmList) → request.work list ≡ work list

IsGranted-IsWorked :
    (request : Request) (work : ParmList → Pause) (list list' : ParmList) (code : ℕ)
    → IsGranted request work
    → work list ≡ released code list'
    → IsWorked request list code list'
IsGranted-IsWorked request work list list' code v e = record {
  valid = v.valid;
  access = v.access;
  access_end = v.access_end;
  storage = v.storage;
  done = v.same_work list ∙ e;
}

module _ {S : Type 0} (slh_alloc : S → ℕ → Option S) (slh : S) (q : PetQueue) (sasn : ℕ)
    (table : PcTable q.Queue) (host : Host q.Queue) where
  open host use {target, request, desk, guest, task, context}

  -- If no task can be entered for a request, because its recovery cannot be established, the caller gets the return code 0 and its list
  -- as it was, as if the work were done. The numbers are those of the host, the request is admissible with the code 0 in its list, a PET is free, and the system grants what the request needs.
  pub pc_routine-unserved :
      (pc_number sequence_number : ℕ) (list : ParmList)
      → table.host_at pc_number sequence_number ≡ some host
      → IsAdmissible sasn (pc_parm_list target list) target list list
      → q.size desk.available_pets ≢ 0
      → IsGranted request (work_of slh_alloc (some slh) guest task context)
      → task.is_made ≡ true
      → task.recovery ≡ not_entered
      → task.releases ≡ true
      → pc_routine q sasn table pc_number sequence_number list ≡ (rc_zisaux_ok, list)
  unfolding work_of work_element_handler status_of_release
  pc_routine-unserved pc_number sequence_number list found v free g made recovery releases =
      let e : work_of slh_alloc (some slh) guest task context list ≡ released pe_rc_env_error list =
        ground arith in
      pc_routine-answered q sasn table pc_number sequence_number host pe_rc_env_error list list
        found v free (IsGranted-IsWorked request _ list list pe_rc_env_error g e)

  -- The list that the task leaves of a command.
  abbrev done_list : Command → CommandResponse → ParmList
  done_list command after = record (command_parm_list command) {
    command_response = after;
    aux_rc = 0;
    aux_rsn = 0;
  }

  work_of-done :
      (command : Command) (handler : CommandHandler) (after : CommandResponse) (verb : Bytes)
      (args : List Bytes)
      → Grants slh_alloc slh command
      → guest.handle_command ≡ some handler
      → words b' ' (take command.length command.text) ≡ verb ∷ args
      → verb ≢ codes "LOG"
      → handler command
          (record { route_info = command.route_info; command_verb = verb; args = args })
          (record { status = unknown; text = [] })
        ≡ returned (0, after)
      → task.is_made ≡ true
      → task.recovery ≡ entered
      → task.releases ≡ true
      → work_of slh_alloc (some slh) guest task context (command_parm_list command)
        ≡ released pe_ok (done_list command after)
  unfolding work_of work_element_handler handle_comm_request handle_command_request
  work_of-done command handler after verb args grants h split own reply made recovery releases =
      let e =
        handle_aux_command-done slh_alloc slh handler true command
          (record { status = unknown; text = [] }) after verb args grants split own reply in
      ground (arith, e, h, made, recovery, releases)

  -- A command of a guest's own that its handler carries out makes the whole way: the manager's call returns 0
  -- with the guest's response and the reason code 0. The nickname names an area in use that is ready, allows the PC
  -- routine and has the PC and sequence number of the host, the text fits, the manager's server is the parent of the host, a PET is free, the system grants what
  -- the request needs, the heap grants the storage for the tokens of this command, and the task is made, entered and able to release the caller.
  pub send_command-done :
      (t : LongHashtable) (mgr : Manager t.Table) (nickname a : ℕ) (area : CommArea)
      (command : Command) (handler : CommandHandler) (after : CommandResponse) (verb : Bytes)
      (args : List Bytes)
      → mgr.eyecatcher ≡ mgr_eyecatcher
      → t.get mgr.nickname_to_comm nickname ≡ some a
      → mgr.comm_at a ≡ some area
      → table.host_at area.pc_number area.sequence_number ≡ some host
      → area.ready ≡ true
      → area.comm_pc_on ≡ true
      → command.length ≤ command_text_size
      → target.eyecatcher ≡ context_eyecatcher
      → target.parent_asid ≡ sasn
      → q.size desk.available_pets ≢ 0
      → IsGranted request (work_of slh_alloc (some slh) guest task context)
      → Grants slh_alloc slh command
      → guest.handle_command ≡ some handler
      → words b' ' (take command.length command.text) ≡ verb ∷ args
      → verb ≢ codes "LOG"
      → handler command
          (record { route_info = command.route_info; command_verb = verb; args = args })
          (record { status = unknown; text = [] })
        ≡ returned (0, after)
      → task.is_made ≡ true
      → task.recovery ≡ entered
      → task.releases ≡ true
      → zisaux_mgr_send_command t (pc_routine q sasn table) mgr nickname command
        ≡ some (rc_zisaux_ok, some (0, after))
  unfolding zisaux_mgr_send_command usable_area get_comm_area status_of_release
  send_command-done t mgr nickname a area command handler after verb args eye named used found ready
        pc fits ctx parent free g grants h split own reply made recovery releases =
      let list = command_parm_list command in
      let v : IsAdmissible sasn (pc_parm_list target list) target list list = record {
        pc_eyecatcher = refl;
        latent = refl;
        service = refl;
        context = ctx;
        parent = parent;
        eyecatcher = refl;
        function = inl refl;
        version = omega arith;
      } in
      let done =
        work_of-done command handler after verb args grants h split own reply made recovery
          releases in
      let called =
        pc_routine-answered q sasn table area.pc_number area.sequence_number host pe_ok list
          (done_list command after) found v free
          (IsGranted-IsWorked request _ list (done_list command after) pe_ok g done) in
      let called' : pc_routine q sasn table area.pc_number area.sequence_number list
          ≡ (rc_zisaux_ok, done_list command after) =
        called in
      let same_eye : bytes_eq mgr.eyecatcher mgr_eyecatcher ≡ true =
        ap (λ b. bytes_eq b mgr_eyecatcher) eye ∙ bytes_eq_refl mgr_eyecatcher in
      let usable : usable_area t mgr nickname ≡ some (rc_zisaux_ok, some area) =
        rw (same_eye, usable_area)
          (rw (named, usable_area, get_comm_area)
            (rw (used, usable_area) (rw ready (rw pc refl)))) in
      let short : ltb command_text_size command.length ≡ false = ground arith in
      rw (usable, zisaux_mgr_send_command)
        (rw short
          (ap (λ (r : ℕ × ParmList). some (r.0, some (r.1.aux_rsn, r.1.command_response))) called'))
