-- ===== src/Aux.antt =====
-- The auxiliary address spaces, zis-aux: what their manager in the server and their hosts share.
-- zis-aux/include/aux-manager.h, aux-utils.h and aux-host.h. Of a flag word the bits that the code
-- names are kept; an address is a number, NULL is `none`.
pub mod Return
pub mod Tokens
pub mod Manager
pub mod Host
use zss.Prelude.{ℕ, Bool, Option, none, [], replicate, Bytes, codes}

-- `ZISAUXCommArea`; the ECBs are the codes that they were posted with.
pub record CommArea : Type 0 where
  pub eyecatcher : Bytes
  pub ready : Bool
  pub terminated : Bool
  pub comm_pc_on : Bool
  pub pc_number : ℕ
  pub sequence_number : ℕ
  pub stoken : ℕ
  pub ascb : ℕ
  pub parent_asid : ℕ
  pub version : ℕ
  pub term_ecb : Option ℕ
  pub comm_ecb : Option ℕ

abbrev pub comm_eyecatcher : Bytes
comm_eyecatcher = codes "ZISAUXC "

abbrev pub comm_version : ℕ
comm_version = 2

abbrev pub comm_signal_term : ℕ
comm_signal_term = 1

-- `ZISAUXCommand`: `text` is the storage from the field on, the first 126 bytes are the field's.
pub record Command : Type 0 where
  pub route_info : ℕ
  pub length : ℕ
  pub text : Bytes

abbrev pub command_text_size : ℕ
command_text_size = 126

-- CMS_MODIFY_COMMAND_STATUS_* of the core server.
pub data CommandStatus : Type 0 where
  unknown processed consumed rejected : CommandStatus

-- A command that is zero.
abbrev pub empty_command : Command
empty_command = record { route_info = 0; length = 0; text = replicate command_text_size 0 }

-- `ZISAUXCommandReponse`; the text stands for the first `length` bytes of the field.
pub record CommandResponse : Type 0 where
  pub status : CommandStatus
  pub text : Bytes

abbrev pub empty_response : CommandResponse
empty_response = record { status = unknown; text = [] }

-- `ZISAUXRequestPayload` and `ZISAUXRequestResponse`, the same layout: data of at most 256 bytes
-- is inline, longer data is shared storage at an address.
pub record Buffer : Type 0 where
  pub length : ℕ
  pub inline_data : Bytes
  pub address : Option ℕ

abbrev pub inline_data_size : ℕ
inline_data_size = 256

abbrev pub empty_buffer : Buffer
empty_buffer = record { length = 0; inline_data = replicate inline_data_size 0; address = none }

-- `ZISAUXCommServiceParmList`. A command and its response share the storage of the inline data of
-- the two buffers; the model keeps the two views apart.
pub record ParmList : Type 0 where
  pub eyecatcher : Bytes
  pub version : ℕ
  pub function : ℕ
  pub command : Command
  pub command_response : CommandResponse
  pub payload : Buffer
  pub response : Buffer
  pub aux_rc : ℕ
  pub aux_rsn : ℕ

abbrev pub service_parm_eyecatcher : Bytes
service_parm_eyecatcher = codes "ZISAUXCM"

abbrev pub service_parm_version : ℕ
service_parm_version = 1

abbrev pub func_command : ℕ
func_command = 1

abbrev pub func_work : ℕ
func_work = 2

abbrev pub func_term : ℕ
func_term = 3
