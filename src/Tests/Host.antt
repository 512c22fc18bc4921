-- ===== src/Tests/Host.antt =====
-- The host of a guest at concrete inputs: a queue of PETs as a list, a heap that is never full, and
-- a guest that answers one command.
use zss.Prelude.{
  ℕ, map, take, ◌&&◌, suc, ◌+◌, ◌≡◌, ◌⊎◌, refl, inl, inr, true, false, Option, none, some, List, [],
  ◌∷◌, ◌++◌, length, length-append, replicate, Bytes, codes, c_string, ◌==◌, if◌then◌else◌, arith,
  ltb,
}
use zss.Parm.Set.Storage.{grants, parms_sizes}
use zss.Parm.Record.{key_value}
use zss.Parm.Set.{ParmSet, zis_get_parm_value}
use zss.Parm.MainParms.Fields.{fields}
use zss.Aux.{CommArea, comm_version, Command, CommandResponse, processed, ParmList}
use zss.Aux.Tokens.{auxutil_tokenize_string}
use zss.Aux.Tokens.Words.{Refuses, words, tokenize_string-words}
use zss.Aux.Manager.{Manager, new_comm_area, host_parm}
use zss.Aux.Manager.Requests.{command_parm_list, zisaux_mgr_send_command}
use zss.Aux.Host.{context_eyecatcher, PetQueue, not_paused, Request, refused, Desk}
use zss.Aux.Host.Gate.{Target, PcParmList, schedule_comm_request_processing, handle_unsafe_pcss}
use zss.Aux.Host.Gate.Admission.{IsAdmissible, IsDecided, handle_unsafe_pcss-IsDecided}
use zss.Aux.Host.Gate.Accounting.{after_requests, schedule-exhausted}
use zss.Aux.Host.Commands.{returned, CommandHandler, bad_pointer, replied, handle_aux_command}
use zss.Aux.Host.Commands.Replies.{Grants, handle_aux_command-failed}
use zss.Aux.Host.Worker.{Guest, Context, Task, entered, not_entered, work_of}
use zss.Aux.Host.Worker.Path.{
  Host, PcTable, pc_parm_list, pc_routine, IsGranted, pc_routine-unserved, send_command-done,
}
use zss.Aux.Host.Boot.{Storage, Loaded, load_master_parm, Hooks}
use zss.Aux.Host.Boot.Parms.{IsPlain, HasOwnNames, load_master_parm-host_parm}
use zss.Tests.Aux.{function_table, new_manager}

-- A queue of PETs.
take_pet : List ℕ → Option (ℕ × List ℕ)
take_pet [] = none
take_pet (p ∷ ps) = some (p, ps)

take_pet_size :
    (q : List ℕ)
    → ((take_pet q ≡ none) × (length q ≡ 0))
      ⊎ ((pet : ℕ) × (rest : List ℕ) × (take_pet q ≡ some (pet, rest))
          × (length q ≡ suc (length rest)))
unfolding take_pet
take_pet_size [] = inl (refl, refl)
take_pet_size (p ∷ ps) = inr (p, ps, refl, refl)

put_pet_size : (q : List ℕ) (p : ℕ) → length (q ++ p ∷ []) ≡ suc (length q)
put_pet_size q p = omega (arith, length-append q (p ∷ []))

abbrev list_queue : PetQueue
list_queue = record {
  Queue = List ℕ;
  empty = [];
  insert = λ q p. q ++ p ∷ [];
  remove = take_pet;
  size = length;
  size-empty = refl;
  size-insert = put_pet_size;
  size-remove = take_pet_size;
}

-- A heap that is never full.
abbrev grant : ℕ → ℕ → Option ℕ
grant slh size = some (slh + size)

tokenize_string-words_example :
    ((auxutil_tokenize_string grant 0 (codes " LOG  STC") b' ' ≡ some none) × Refuses grant)
    ⊎ (auxutil_tokenize_string grant 0 (codes " LOG  STC") b' '
        ≡ some (some (words b' ' (codes " LOG  STC"))))
tokenize_string-words_example = tokenize_string-words grant 0 (codes " LOG  STC") b' '

abbrev ping : Command
ping = record { route_info = 3; length = 6; text = codes "PING A" ++ replicate 120 b' ' }

grant_always : (raw : Command) → Grants grant 0 raw
grant_always raw h = elim (tokenize_string-words grant 0 (take raw.length raw.text) b' ') [
  | inl (e, (slh, size, full)) ↦ cc
  | inr e ↦ cc
]

abbrev pong : CommandResponse
pong = record { status = processed; text = codes "PONG" }

abbrev answer_ping : CommandHandler
answer_ping raw parsed response = returned (0, pong)

abbrev fail_ping : CommandHandler
fail_ping raw parsed response = returned (5, pong)

abbrev ping_guest : Guest
ping_guest = record { handle_command = some answer_ping; handle_work = none }

abbrev host_target : Target
host_target = record { eyecatcher = context_eyecatcher; parent_asid = 7 }

abbrev host_context : Context
host_context = record {
  term_command_received = false;
  guest_initialized = true;
  legacy_api = false;
  master_comm_area = new_comm_area;
  is_shut_down = false;
}

abbrev good_task : Task
good_task = record { is_made = true; recovery = entered; releases = true }

abbrev stuck_task : Task
stuck_task = record { is_made = true; recovery = not_entered; releases = true }

abbrev request_for : Task → Request
request_for task = record {
  pe_test = λ pet. some false;
  get_access = λ a. true;
  remove_access = λ a. true;
  has_storage = true;
  work = work_of grant (some 0) ping_guest task host_context;
}

request_for-IsGranted :
    (task : Task)
    → IsGranted (request_for task) (work_of grant (some 0) ping_guest task host_context)
request_for-IsGranted task = record {
  valid = λ pet. refl;
  access = λ a. refl;
  access_end = λ a. refl;
  storage = refl;
  same_work = λ list. refl;
}

abbrev two_pets : Desk (List ℕ)
two_pets = record { available_pets = 0 ∷ 1 ∷ []; accesses = [] }

-- The host of a task, at the PC number 4353 with the sequence number 2.
abbrev host_of : Task → Host (List ℕ)
host_of task = record {
  target = host_target;
  request = request_for task;
  desk = two_pets;
  guest = ping_guest;
  task = task;
  context = host_context;
}

one_host : Task → ℕ → ℕ → Option (Host (List ℕ))
one_host task pc_number sequence_number =
    if pc_number == 4353 && sequence_number == 2 then some (host_of task) else none

one_host_found : (task : Task) → one_host task 4353 2 ≡ some (host_of task)
unfolding one_host
one_host_found task = refl

abbrev pc_table : Task → PcTable (List ℕ)
pc_table task = record { host_at = one_host task; unknown_pc = λ list. (4095, list) }

abbrev ping_list : ParmList
ping_list = command_parm_list ping

abbrev ping_pc_list : PcParmList
ping_pc_list = pc_parm_list host_target ping_list

ping_list-IsAdmissible : IsAdmissible 7 ping_pc_list host_target ping_list ping_list
ping_list-IsAdmissible = record {
  pc_eyecatcher = refl;
  latent = refl;
  service = refl;
  context = refl;
  parent = refl;
  eyecatcher = refl;
  function = inl refl;
  version = omega arith;
}

handle_unsafe_pcss-IsDecided_example :
    IsDecided list_queue
      (request_for good_task)
      7
      two_pets
      ping_pc_list
      (handle_unsafe_pcss list_queue (request_for good_task) 7 two_pets ping_pc_list)
handle_unsafe_pcss-IsDecided_example =
    handle_unsafe_pcss-IsDecided list_queue (request_for good_task) 7 two_pets ping_pc_list

-- Two requests without storage for their work elements.
abbrev poor_request : Request
poor_request = record {
  pe_test = λ pet. some false;
  get_access = λ a. true;
  remove_access = λ a. true;
  has_storage = false;
  work = λ list. not_paused 0;
}

abbrev poor_requests : List (Request × ParmList)
poor_requests = (poor_request, ping_list) ∷ (poor_request, ping_list) ∷ []

schedule-exhausted_example :
    schedule_comm_request_processing list_queue
      (request_for good_task)
      (after_requests list_queue poor_requests two_pets)
      ping_list
    ≡ (after_requests list_queue poor_requests two_pets, refused 26)
schedule-exhausted_example =
    schedule-exhausted list_queue poor_requests two_pets (request_for good_task) ping_list
      (inr refl, (inr refl, tt)) (omega arith)

pc_routine-unserved_example :
    pc_routine list_queue 7 (pc_table stuck_task) 4353 2 ping_list ≡ (0, ping_list)
pc_routine-unserved_example =
    pc_routine-unserved grant 0 list_queue 7 (pc_table stuck_task) (host_of stuck_task) 4353 2
      ping_list (one_host_found stuck_task) ping_list-IsAdmissible (omega arith)
      (request_for-IsGranted stuck_task) refl refl refl

handle_aux_command-failed_example :
    (handle_aux_command grant (some 0) (some fail_ping) false ping pong ≡ some bad_pointer)
    × (handle_aux_command grant (some 0) (some fail_ping) true ping pong
        ≡ some (replied 34 0 pong none))
handle_aux_command-failed_example =
    handle_aux_command-failed grant 0 fail_ping ping pong pong (codes "PING") (codes "A" ∷ []) 5
      (grant_always ping) refl (λ e. cc) refl (omega arith)

-- The manager with the guest 5, which is ready.
abbrev ready_area : CommArea
ready_area = record new_comm_area {
  ready = true;
  comm_pc_on = true;
  parent_asid = 7;
  pc_number = 4353;
  sequence_number = 2;
}

only_cell : ℕ → Option CommArea
only_cell a = if a == 4096 then some ready_area else none

only_cell_used : only_cell 4096 ≡ some ready_area
unfolding only_cell
only_cell_used = refl

only_name : ℕ → Option ℕ
only_name n = if n == 5 then some 4096 else none

only_name_used : only_name 5 ≡ some 4096
unfolding only_name
only_name_used = refl

abbrev ready_manager : Manager (ℕ → Option ℕ)
ready_manager = record new_manager { nickname_to_comm = only_name; comm_at = only_cell }

send_command-done_example :
    zisaux_mgr_send_command function_table
      (pc_routine list_queue 7 (pc_table good_task))
      ready_manager
      5
      ping
    ≡ some (0, some (0, pong))
send_command-done_example =
    send_command-done grant 0 list_queue 7 (pc_table good_task) (host_of good_task) function_table
      ready_manager 5 4096 ready_area ping answer_ping pong (codes "PING") (codes "A" ∷ []) refl
      only_name_used only_cell_used (one_host_found good_task) refl refl (omega arith) refl refl
      (omega arith) (request_for-IsGranted good_task) (grant_always ping) refl refl (λ e. cc) refl
      refl refl refl

-- Storage with the area at 4096, whose digits are 00001000.
abbrev one_area : Storage
one_area = record { scan_pointer = λ digits. some 4096; area_at = only_cell }

abbrev no_parms : ParmSet ℕ
no_parms = record { slh = 0; entries = [] }

abbrev guest_name : Bytes
guest_name = codes "GUEST" ++ 0 ∷ []

guest_name-IsPlain : IsPlain (c_string guest_name)
unfolding c_string
guest_name-IsPlain = omega arith

guest_own : HasOwnNames none
unfolding fields
guest_own = tt

load_master_parm-host_parm_example :
    (loaded : Loaded ℕ) × (load_master_parm grant one_area
        (some (host_parm guest_name 4096 none))
        true
        no_parms
      ≡ some loaded)
    × (((loaded.rc ≡ 0)
          × (loaded.master_comm_area ≡ some 4096)
          × (loaded.legacy_api ≡ ltb 2 comm_version)
          × (zis_get_parm_value loaded.parms (codes "MOD") ≡ some (some (c_string guest_name))))
        ⊎ ((loaded.rc ≡ 8)
            × (grants grant no_parms.slh
                  (parms_sizes [] (map key_value (fields (host_parm guest_name 4096 none))))
                ≡ none)))
load_master_parm-host_parm_example =
    load_master_parm-host_parm grant one_area no_parms [] guest_name 4096 none ready_area
      guest_name-IsPlain guest_own refl refl only_cell_used refl

abbrev good_hooks : Hooks
good_hooks = record { init = none; term = some (returned 0) }
