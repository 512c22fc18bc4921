-- ===== src/Aux/Manager/Requests.antt =====
-- The commands and the buffers that the callers of zis-aux/src/aux-manager.c set up, and the calls
-- of a guest. The shared storage and the PC call are not part of the repository.
pub mod Dangling
pub mod Limits
use zss.Prelude.{
  ℕ, zero, suc, ◌+◌, ◌-◌, ◌%◌, ◌≡◌, Bool, true, false, not, Option, none, some, List, [], ◌∷◌, ◌++◌,
  length, take, drop, replicate, Bytes, bytes_eq, ◌==◌, ltb, leb, if◌then◌else◌,
}
use zss.Aux.Return.{
  rc_zisaux_ok, rc_zisaux_comm_not_found, rc_zisaux_bad_eyecatcher, rc_zisaux_aux_not_ready,
  rc_zisaux_command_too_long, rc_zisaux_aux_stopped, rc_zisaux_shr64_error,
  rc_zisaux_buffer_too_small, rc_zisaux_comm_pc_disabled, rc_zisaux_xmem_post_failed,
}
use zss.Aux.{
  CommArea, comm_signal_term, Command, command_text_size, empty_command, CommandStatus, unknown,
  CommandResponse, empty_response, Buffer, inline_data_size, empty_buffer, ParmList,
  service_parm_eyecatcher, service_parm_version, func_command, func_work, func_term,
}
use zss.Aux.Manager.{LongHashtable, Manager, mgr_eyecatcher, put_area}
use zss.Aux.Manager.Guests.{get_comm_area}

-- The 64-bit shared storage: a call gives the next state, or fails.
pub record SharedStorage : Type 1 where
  pub Storage : Type 0
  pub alloc : Storage → ℕ → ℕ → Option (ℕ × Storage)
  pub get_access : Storage → ℕ → ℕ → Option Storage
  pub remove_access : Storage → ℕ → ℕ → Storage
  pub release : Storage → ℕ → ℕ → Option Storage
  pub write : Storage → ℕ → Bytes → Storage
  pub read : Storage → ℕ → Bytes

-- `memcpy` to the front of a block; a copy past its end overwrites what is behind it.
unfoldable pub copy_in : Bytes → Bytes → Bytes
copy_in block bytes = bytes ++ drop (length bytes) block

-- `zisauxMgrInitCommand`, on the storage from the text on. The test of the length has no effect.
unfoldable pub zisaux_mgr_init_command : Bytes → ℕ → Bytes → ℕ × Command
unfolding copy_in
zisaux_mgr_init_command storage route_info command_text =
    let length = length command_text % 256 in
    let blank = copy_in storage (replicate command_text_size b' ') in
    (
      rc_zisaux_ok,
      record {
        route_info = route_info;
        length = length;
        text = copy_in blank (take length command_text);
      },
    )

-- `zisauxMgrCleanCommand`
unfoldable pub zisaux_mgr_clean_command : Command → Command
zisaux_mgr_clean_command command = empty_command

-- What an allocation of a shared object leaves in the data pointer: an object, the address of an object
-- that was released again, or NULL.
pub data SharedObject : Type 0 where
  object let_go : ℕ → SharedObject
  no_object : SharedObject

module _ (shared : SharedStorage) where
  open shared use {Storage, alloc, get_access, remove_access, release, write, read}

  -- An object with access to it; without access the object is released again.
  unfoldable pub alloc_shared : Storage → ℕ → ℕ → SharedObject × Storage
  alloc_shared s token size = elim (alloc s token size) [
    | none ↦ (no_object, s)
    | some (a, s') ↦ elim (get_access s' token a) [
      | none ↦ elim (release s' token a) [ none ↦ (let_go a, s') | some s'' ↦ (let_go a, s'') ]
      | some s'' ↦ (object a, s'')
    ]
  ]

  -- The data of a payload in shared storage.
  unfoldable pub fill_shared : Storage → Bytes → SharedObject → ℕ × Buffer × Storage
  fill_shared s request_data (object a) = (
    rc_zisaux_ok,
    record empty_buffer { length = length request_data; address = some a },
    write s a request_data,
  )
  fill_shared s request_data (let_go a) =
      (rc_zisaux_shr64_error, record empty_buffer { address = some a }, s)
  fill_shared s request_data no_object = (rc_zisaux_shr64_error, empty_buffer, s)

  module _ {T : Type 0} (mgr : Manager T) where
    -- `zisauxMgrInitRequestPayload`; `request_data` is what the copy reads, from the caller's
    -- address space or another one.
    unfoldable pub zisaux_mgr_init_request_payload : Storage → Buffer → Bytes → ℕ × Buffer × Storage
    unfolding alloc_shared fill_shared copy_in
    zisaux_mgr_init_request_payload s payload request_data =
        if not (bytes_eq mgr.eyecatcher mgr_eyecatcher)
        then (rc_zisaux_bad_eyecatcher, payload, s)
        else if leb (length request_data) inline_data_size
        then (
          rc_zisaux_ok,
          record empty_buffer {
            length = length request_data;
            inline_data = copy_in (replicate inline_data_size 0) request_data;
          },
          s,
        )
        else let (result, s') = alloc_shared s mgr.shared_storage_token (length request_data) in
          fill_shared s' request_data result

    -- `zisauxMgrInitRequestResponse`
    unfoldable pub zisaux_mgr_init_request_response : Storage → Buffer → ℕ → ℕ × Buffer × Storage
    unfolding alloc_shared
    zisaux_mgr_init_request_response s response buffer_size =
        if not (bytes_eq mgr.eyecatcher mgr_eyecatcher)
        then (rc_zisaux_bad_eyecatcher, response, s)
        else if leb buffer_size inline_data_size
        then (rc_zisaux_ok, record empty_buffer { length = buffer_size }, s)
        else let (result, s') = alloc_shared s mgr.shared_storage_token buffer_size in
          elim result [
            | object a ↦
                (rc_zisaux_ok, record empty_buffer { length = buffer_size; address = some a }, s')
            | let_go a ↦ (rc_zisaux_shr64_error, record empty_buffer { address = some a }, s')
            | no_object ↦ (rc_zisaux_shr64_error, empty_buffer, s')
          ]

    -- `zisauxMgrCleanRequestPayload` and `zisauxMgrCleanRequestResponse`, which have the same body.
    unfoldable pub zisaux_mgr_clean_request : Storage → Buffer → ℕ × Buffer × Storage
    zisaux_mgr_clean_request s buffer =
        if not (bytes_eq mgr.eyecatcher mgr_eyecatcher)
        then (rc_zisaux_bad_eyecatcher, buffer, s)
        else elim buffer.address [
          | none ↦ (rc_zisaux_ok, empty_buffer, s)
          | some a ↦
              let s' = remove_access s mgr.shared_storage_token a in
              elim (release s' mgr.shared_storage_token a) [
                | none ↦ (rc_zisaux_shr64_error, buffer, s')
                | some s'' ↦ (rc_zisaux_ok, empty_buffer, s'')
              ]
        ]

  -- Where the data of a response lie.
  unfoldable pub source_data : Storage → Buffer → Bytes
  source_data s response = elim response.address [ none ↦ response.inline_data | some a ↦ read s a ]

  -- `zisauxMgrCopyRequestResponseData`: what is copied to the destination.
  unfoldable pub zisaux_mgr_copy_request_response_data : Storage → ℕ → Buffer → ℕ × Option Bytes
  unfolding source_data
  zisaux_mgr_copy_request_response_data s dest_size response =
      if ltb dest_size response.length
      then (rc_zisaux_buffer_too_small, none)
      else (rc_zisaux_ok, some (take response.length (source_data s response)))

-- The parameter list that every call starts from.
abbrev pub service_parm_list : ℕ → ParmList
service_parm_list function = record {
  eyecatcher = service_parm_eyecatcher;
  version = service_parm_version;
  function = function;
  command = empty_command;
  command_response = empty_response;
  payload = empty_buffer;
  response = empty_buffer;
  aux_rc = 0;
  aux_rsn = 0;
}

-- The list that `zisauxMgrSendCommand` sends.
abbrev pub command_parm_list : Command → ParmList
command_parm_list command = record (service_parm_list func_command) { command = command }

-- The list that `zisauxMgrSendWork` sends.
abbrev pub work_parm_list : Buffer → Buffer → ParmList
work_parm_list request_payload response = record (service_parm_list func_work) {
  payload = request_payload;
  response = response;
}

module _ (t : LongHashtable) where
  open t use {Table}

  -- The tests of `zisauxMgrSendCommand` and `zisauxMgrSendWork`: an error, or the area.
  unfoldable pub usable_area : Manager Table → ℕ → Option (ℕ × Option CommArea)
  unfolding get_comm_area
  usable_area mgr nickname =
      if not (bytes_eq mgr.eyecatcher mgr_eyecatcher)
      then some (rc_zisaux_bad_eyecatcher, none)
      else elim (get_comm_area t mgr nickname) [
        | none ↦ some (rc_zisaux_comm_not_found, none)
        | some a ↦ elim (mgr.comm_at a) [
          | none ↦ none
          | some area ↦
              if not area.ready
              then some (rc_zisaux_aux_not_ready, none)
              else if not area.comm_pc_on
              then some (rc_zisaux_comm_pc_disabled, none)
              else some (rc_zisaux_ok, some area)
        ]
      ]

  -- `zisauxMgrWaitForTerm`: the code that the wait for `termECB` ends with is not used; the wait
  -- lasts until the exit of the address space posts.
  unfoldable pub zisaux_mgr_wait_for_term : Manager Table → ℕ → ℕ
  unfolding get_comm_area
  zisaux_mgr_wait_for_term mgr nickname =
      if not (bytes_eq mgr.eyecatcher mgr_eyecatcher)
      then rc_zisaux_bad_eyecatcher
      else elim (get_comm_area t mgr nickname) [
        | none ↦ rc_zisaux_comm_not_found
        | some a ↦ rc_zisaux_ok
      ]

-- The PC routine at a number and a sequence number: its return code and the list it leaves.
module _ (t : LongHashtable) (pc_call : ℕ → ℕ → ParmList → ℕ × ParmList) where
  open t use {Table}

  -- `zisauxMgrSendTermSignal`. `none` is the use of a free cell. `xmem_post` is the return code of
  -- `xmemPost`.
  unfoldable pub zisaux_mgr_send_term_signal :
      (ℕ → ℕ) → Manager Table → ℕ → Option (ℕ × Manager Table)
  unfolding put_area get_comm_area
  zisaux_mgr_send_term_signal xmem_post mgr nickname =
      if not (bytes_eq mgr.eyecatcher mgr_eyecatcher)
      then some (rc_zisaux_bad_eyecatcher, mgr)
      else elim (get_comm_area t mgr nickname) [
        | none ↦ some (rc_zisaux_comm_not_found, mgr)
        | some a ↦ elim (mgr.comm_at a) [
          | none ↦ none
          | some area ↦
              if area.terminated
              then some (rc_zisaux_aux_stopped, mgr)
              else if not area.ready
              then some (rc_zisaux_aux_not_ready, mgr)
              else if area.comm_pc_on
              then some (
                (pc_call area.pc_number area.sequence_number (service_parm_list func_term)).0,
                mgr,
              )
              else if not (xmem_post area.ascb == 0)
              then some (rc_zisaux_xmem_post_failed, mgr)
              else some (
                rc_zisaux_ok,
                record mgr {
                  comm_at =
                      put_area mgr.comm_at a
                        (some (record area { comm_ecb = some comm_signal_term }));
                },
              )
        ]
      ]

  -- `zisauxMgrSendCommand`: the return code, the reason code and the response, which an error in
  -- front of the call leaves alone.
  unfoldable pub zisaux_mgr_send_command :
      Manager Table → ℕ → Command → Option (ℕ × Option (ℕ × CommandResponse))
  unfolding usable_area
  zisaux_mgr_send_command mgr nickname command = elim (usable_area t mgr nickname) [
    | none ↦ none
    | some (rc, none) ↦ some (rc, none)
    | some (rc, some area) ↦
        if ltb command_text_size command.length
        then some (rc_zisaux_command_too_long, none)
        else let (call_rc, parm_list) =
            pc_call area.pc_number area.sequence_number (command_parm_list command) in
          some (call_rc, some (parm_list.aux_rsn, parm_list.command_response))
  ]

  -- `zisauxMgrSendWork`
  unfoldable pub zisaux_mgr_send_work :
      Manager Table → ℕ → Buffer → Buffer → Option (ℕ × Option (ℕ × Buffer))
  unfolding usable_area
  zisaux_mgr_send_work mgr nickname request_payload response = elim (usable_area t mgr nickname) [
    | none ↦ none
    | some (rc, none) ↦ some (rc, none)
    | some (rc, some area) ↦
        let (call_rc, parm_list) =
          pc_call area.pc_number area.sequence_number (work_parm_list request_payload response) in
        some (call_rc, some (parm_list.aux_rsn, parm_list.response))
  ]
