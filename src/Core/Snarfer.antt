-- ===== src/Core/Snarfer.antt =====
-- `zisSnarferServiceFunction` of c/zis/services/snarfer.c, which copies storage of another address
-- space to its caller by an SRB and a buffer in common storage. Common storage, the SRB, the ASSB
-- and the recovery are parameters.
pub mod Copies
use zss.Prelude.{
  ℕ, ◌+◌, ◌≡◌, Bool, true, false, not, Option, none, some, List, [], ◌∷◌, ◌++◌, Bytes, codes,
  bytes_eq, ◌==◌, ltb, ◌||◌, take, if◌then◌else◌,
}

-- `SnarferServiceParmList`; an ASCB of 0 is NULL.
pub record SnarferParmList : Type 0 where
  pub eyecatcher : Bytes
  pub destination_address : ℕ
  pub source_address : ℕ
  pub source_ascb : ℕ
  pub source_key : ℕ
  pub size : ℕ

-- `TransferBuffer` without its eyecatcher and the address of its data, the contents.
pub record TransferBuffer : Type 0 where
  pub copy_size : ℕ
  pub source_key : ℕ
  pub source_address : ℕ
  pub contents : Bytes

-- How a call ends under its recovery.
pub data Guarded {ℓ} (A : Type ℓ) : Type ℓ where
  ran : A → Guarded A
  abended : ℕ → Guarded A
  recovery_error : Guarded A

-- How `scheduleSynchSRB` ends: its code, what the SRB reports, and what it left in the buffer.
pub record SrbEnd : Type 0 where
  pub ieamschd_rc : ℕ
  pub completion_code : ℕ
  pub srb_rc : ℕ
  pub contents : Bytes

-- The services of the system. `copy_abend` is the completion code, if the copy to an address of the
-- caller abends. `ecsa` gives what lies in the data part of a new block.
pub record System : Type 0 where
  pub max_ecsa_block_size : ℕ
  pub recovery_on : Bool
  pub assb : ℕ → Guarded ℕ
  pub ecsa : ℕ → Option Bytes
  pub srb : ℕ → TransferBuffer → Guarded SrbEnd
  pub copy_abend : ℕ → Option ℕ

pub data StorageEvent : Type 0 where
  allocated freed : ℕ → StorageEvent

-- How a call ends: it returns a code, or an abend with a completion code percolates to the caller.
pub data Ended : Type 0 where
  returned percolated : ℕ → Ended

-- What a call leaves: its end, the address and the bytes that were copied to the caller, `none` if
-- the copy did not finish, and what was done with common storage.
pub record Snarfed : Type 0 where
  pub ended : Ended
  pub copied : Option (ℕ × Bytes)
  pub trace : List StorageEvent

abbrev pub rc_snrfsrv_ok : ℕ
rc_snrfsrv_ok = 0

abbrev pub rc_snrfsrv_parmlist_null : ℕ
rc_snrfsrv_parmlist_null = 8

abbrev pub rc_snrfsrv_bad_eyecatcher : ℕ
rc_snrfsrv_bad_eyecatcher = 9

abbrev pub rc_snrfsrv_bad_dest : ℕ
rc_snrfsrv_bad_dest = 10

abbrev pub rc_snrfsrv_bad_ascb : ℕ
rc_snrfsrv_bad_ascb = 11

abbrev pub rc_snrfsrv_bad_size : ℕ
rc_snrfsrv_bad_size = 12

abbrev pub rc_snrfsrv_ecsa_alloc_failed : ℕ
rc_snrfsrv_ecsa_alloc_failed = 13

abbrev pub rc_snrfsrv_recovery_error : ℕ
rc_snrfsrv_recovery_error = 14

abbrev pub rc_snrfsrv_src_assb_abend : ℕ
rc_snrfsrv_src_assb_abend = 15

abbrev pub rc_snrfsrv_src_ieamschd_abend : ℕ
rc_snrfsrv_src_ieamschd_abend = 16

abbrev pub rc_snrfsrv_src_ieamschd_failed : ℕ
rc_snrfsrv_src_ieamschd_failed = 17

abbrev pub snarfer_parmlist_eyecatcher : Bytes
snarfer_parmlist_eyecatcher = codes "RSSNRFSR"

-- `sizeof(TransferBuffer)`
abbrev pub transfer_buffer_size : ℕ
transfer_buffer_size = 32

-- The checks of the parameter list.
unfoldable pub check_parm_list : ℕ → SnarferParmList → ℕ
check_parm_list max_block_size list =
    if not (bytes_eq list.eyecatcher snarfer_parmlist_eyecatcher)
    then rc_snrfsrv_bad_eyecatcher
    else if ltb list.destination_address 24576
    then rc_snrfsrv_bad_dest
    else if list.source_ascb == 0
    then rc_snrfsrv_bad_ascb
    else if ltb max_block_size list.size
    then rc_snrfsrv_bad_size
    else rc_snrfsrv_ok

-- `allocateTransferBuffer`, with the source that its caller then sets. The data keep what lay in
-- the storage.
unfoldable pub allocate_transfer_buffer :
    (ℕ → Option Bytes) → SnarferParmList → Option TransferBuffer
allocate_transfer_buffer ecsa list = elim (ecsa (transfer_buffer_size + list.size)) [
  | none ↦ none
  | some contents ↦ some (record {
    copy_size = list.size;
    source_key = list.source_key;
    source_address = list.source_address;
    contents = contents;
  })
]

-- `freeTransferBuffer`
unfoldable pub free_transfer_buffer : Option TransferBuffer → List StorageEvent
free_transfer_buffer none = []
free_transfer_buffer (some buffer) = freed (transfer_buffer_size + buffer.copy_size) ∷ []

-- A cancel, S222 or S522.
abbrev pub is_cancel : ℕ → Bool
is_cancel completion_code = completion_code == 546 || completion_code == 1314

-- `cleanupSnarfer`: a cancel frees the buffer, whose pointer is then NULL.
unfoldable pub cleanup_snarfer :
    ℕ → Option TransferBuffer → Option TransferBuffer × List StorageEvent
unfolding free_transfer_buffer
cleanup_snarfer completion_code buffer =
    if is_cancel completion_code then (none, free_transfer_buffer buffer) else (buffer, [])

-- The copy to the caller. It stands under the global recovery only, which percolates.
unfoldable pub copy_to_caller : (ℕ → Option ℕ) → SnarferParmList → TransferBuffer → Bytes → Snarfed
unfolding free_transfer_buffer cleanup_snarfer
copy_to_caller copy_abend list buffer contents = elim (copy_abend list.destination_address) [
  | none ↦ record {
    ended = returned rc_snrfsrv_ok;
    copied = some (list.destination_address, take list.size contents);
    trace = free_transfer_buffer (some buffer);
  }
  | some completion_code ↦ record {
    ended = percolated completion_code;
    copied = none;
    trace = (cleanup_snarfer completion_code (some buffer)).1;
  }
]

-- The SRB and the copy to the caller, with a buffer that was allocated.
unfoldable pub copy_by_srb :
    (ℕ → Option ℕ) → Guarded SrbEnd → SnarferParmList → TransferBuffer → Snarfed
unfolding free_transfer_buffer cleanup_snarfer copy_to_caller
copy_by_srb copy_abend (ran srb_end) list buffer =
    if srb_end.ieamschd_rc == 0
    then copy_to_caller copy_abend list buffer srb_end.contents
    else record {
      ended = returned rc_snrfsrv_src_ieamschd_failed;
      copied = none;
      trace = free_transfer_buffer (some buffer);
    }
copy_by_srb copy_abend (abended completion_code) list buffer =
    let (left, events) = cleanup_snarfer completion_code (some buffer) in
    record {
      ended = returned rc_snrfsrv_src_ieamschd_abend;
      copied = none;
      trace = events ++ free_transfer_buffer left;
    }
copy_by_srb copy_abend recovery_error list buffer = record {
  ended = returned rc_snrfsrv_recovery_error;
  copied = none;
  trace = free_transfer_buffer (some buffer);
}

-- An end in front of the allocation.
abbrev pub snarfed_nothing : ℕ → Snarfed
snarfed_nothing rc = record { ended = returned rc; copied = none; trace = [] }

-- The copy from the address space of an ASSB.
unfoldable pub copy_from : System → SnarferParmList → ℕ → Snarfed
unfolding allocate_transfer_buffer copy_by_srb
copy_from sys list assb = elim (allocate_transfer_buffer sys.ecsa list) [
  | none ↦ snarfed_nothing rc_snrfsrv_ecsa_alloc_failed
  | some buffer ↦
      let end = copy_by_srb sys.copy_abend (sys.srb assb buffer) list buffer in
      record end { trace = allocated (transfer_buffer_size + list.size) ∷ end.trace }
]

-- The address space of the source, under its recovery.
unfoldable pub find_source : System → SnarferParmList → Snarfed
unfolding copy_from
find_source sys list = elim (sys.assb list.source_ascb) [
  | ran assb ↦ copy_from sys list assb
  | abended cc ↦ snarfed_nothing rc_snrfsrv_src_assb_abend
  | recovery_error ↦ snarfed_nothing rc_snrfsrv_recovery_error
]

-- `zisSnarferServiceFunction`: `none` is a NULL parameter.
unfoldable pub zis_snarfer_service_function : System → Option SnarferParmList → Snarfed
unfolding check_parm_list find_source
zis_snarfer_service_function sys none = snarfed_nothing rc_snrfsrv_parmlist_null
zis_snarfer_service_function sys (some list) =
    let status = check_parm_list sys.max_ecsa_block_size list in
    if not (status == rc_snrfsrv_ok)
    then snarfed_nothing status
    else if not sys.recovery_on
    then snarfed_nothing rc_snrfsrv_recovery_error
    else find_source sys list
