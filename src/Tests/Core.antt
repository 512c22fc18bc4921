-- ===== src/Tests/Core.antt =====
-- The core services at concrete inputs: a SAF that knows one user, an SRB that copies three bytes,
-- and a network management interface that answers.
use zss.Prelude.{
  ◌≡◌, ◌≢◌, ◌↔◌, ◌⊎◌, refl, true, false, none, some, [], ◌∷◌, codes, bytes_eq, ◌==◌, ◌&&◌,
  if◌then◌else◌,
}
use zss.Core.Auth.{
  SafStatus, AuthParmList, Saf, checked, parmlist_eyecatcher, fc_entity_check, handle_entity_check,
  zis_auth_service_function,
}
use zss.Core.Auth.Grants.{IsGranted, handle_entity_check_lem}
use zss.Core.Auth.Environments.{Settles, zis_auth_service_function-Settles}
use zss.Core.Snarfer.{
  allocated, freed, returned, SnarferParmList, TransferBuffer, Guarded, ran, abended, SrbEnd,
  System, snarfer_parmlist_eyecatcher, zis_snarfer_service_function,
}
use zss.Core.Snarfer.Copies.{IsAllowed, IsCopied, zis_snarfer_service_function_lem}
use zss.Core.Nwm.{NwmParmList, NmiReply, push_ok, nwm_parmlist_eyecatcher, zis_nwm_service_function}
use zss.Core.Nwm.Exchange.{Outcome, zis_nwm_service_function-Outcome}

abbrev saf_good : SafStatus
saf_good = record { saf_rc = 0; racf_rc = 0; racf_rsn = 0 }

abbrev saf_bad : SafStatus
saf_bad = record { saf_rc = 8; racf_rc = 4; racf_rsn = 0 }

-- SAF knows the user IBMUSER, who may do everything in the class ZOWE.
abbrev small_saf : Saf
small_saf = record {
  create = λ call. record {
    status = if bytes_eq call.user_id (codes "IBMUSER") then saf_good else saf_bad;
    acee = 77;
    idt_len = 0;
  };
  delete = λ acee. if acee == 77 then saf_good else saf_bad;
  auth = λ class_name entity access acee.
      checked (if bytes_eq class_name (codes "ZOWE") && acee == 77 then saf_good else saf_bad)
        access;
  auth_status = λ class_name entity acee. checked saf_good 2;
}

abbrev entity_list : AuthParmList
entity_list = record {
  eyecatcher = parmlist_eyecatcher;
  fc = fc_entity_check;
  user_id = codes "IBMUSER";
  password = [];
  class_name = [];
  reserved_option = false;
  access = 2;
  entity = codes "ZWES.IS";
  saf_status = saf_bad;
  saf_idt_service_version = 0;
  saf_idt_len = 0;
  idt_appl = false;
  appl = [];
}

handle_entity_check_lem_example :
    ((handle_entity_check (some (codes "ZOWE")) small_saf entity_list).rc ≡ 0)
    ↔ IsGranted (some (codes "ZOWE")) small_saf entity_list
handle_entity_check_lem_example =
    handle_entity_check_lem (some (codes "ZOWE")) small_saf entity_list

granted : (handle_entity_check (some (codes "ZOWE")) small_saf entity_list).rc ≡ 0
unfolding handle_entity_check bytes_eq
granted = refl

unknown_class_refused : (handle_entity_check none small_saf entity_list).rc ≡ 18
unfolding handle_entity_check
unknown_class_refused = refl

zis_auth_service_function-Settles_example :
    Settles small_saf
      (zis_auth_service_function (some (codes "ZOWE")) small_saf (some entity_list)).0
      (zis_auth_service_function (some (codes "ZOWE")) small_saf (some entity_list)).2
    × ((zis_auth_service_function (some (codes "ZOWE")) small_saf (some entity_list)).0 ≡ 0
        → (list : AuthParmList) × (some entity_list ≡ some list)
          × (list.eyecatcher ≡ parmlist_eyecatcher))
zis_auth_service_function-Settles_example =
    zis_auth_service_function-Settles (some (codes "ZOWE")) small_saf (some entity_list)

-- An SRB that stores three bytes.
abbrev store_abc : TransferBuffer → Guarded SrbEnd
store_abc buffer =
    ran (record { ieamschd_rc = 0; completion_code = 0; srb_rc = 0; contents = codes "ABC" })

abbrev copying : System
copying = record {
  max_ecsa_block_size = 65536;
  recovery_on = true;
  assb = λ ascb. ran 7;
  ecsa = λ size. some (codes "xyz");
  srb = λ assb buffer. store_abc buffer;
  copy_abend = λ a. none;
}

-- The caller is cancelled while it waits for the SRB.
abbrev cancelled : System
cancelled = record copying { srb = λ assb buffer. abended 546 }

abbrev snarf_list : SnarferParmList
snarf_list = record {
  eyecatcher = snarfer_parmlist_eyecatcher;
  destination_address = 32768;
  source_address = 4096;
  source_ascb = 9;
  source_key = 8;
  size = 3;
}

-- The destination cannot be written to, S0C4.
abbrev not_writable : System
not_writable = record copying { copy_abend = λ a. some 196 }

kept : (zis_snarfer_service_function not_writable (some snarf_list)).trace ≡ allocated 35 ∷ []
unfolding zis_snarfer_service_function bytes_eq
kept = refl

cancelled_freed :
    (zis_snarfer_service_function cancelled (some snarf_list)).trace ≡ allocated 35 ∷ freed 35 ∷ []
unfolding zis_snarfer_service_function bytes_eq
cancelled_freed = refl

zis_snarfer_service_function_lem_example :
    (((zis_snarfer_service_function copying (some snarf_list)).copied ≡ none)
      × ((zis_snarfer_service_function copying (some snarf_list)).ended ≢ returned 0))
    ⊎ (((zis_snarfer_service_function copying (some snarf_list)).ended ≡ returned 0)
        × ((list : SnarferParmList) × (some snarf_list ≡ some list)
            × IsAllowed copying list
            × IsCopied copying list (zis_snarfer_service_function copying (some snarf_list))))
zis_snarfer_service_function_lem_example =
    zis_snarfer_service_function_lem copying (some snarf_list)

three_copied :
    (zis_snarfer_service_function copying (some snarf_list)).copied ≡ some (32768, codes "ABC")
unfolding zis_snarfer_service_function bytes_eq
three_copied = refl

-- An NMI that answers with one byte, and one that abends.
abbrev answering : zss.Core.Nwm.System
answering = record {
  has_storage = λ size. true;
  push = push_ok;
  call_nwm_service = λ job buffer size.
      zss.Core.Nwm.replied
        (record { buffer = 1 ∷ []; return_value = 1; return_code = 0; reason_code = 0 });
  copy_abend = none;
}

abbrev abending : zss.Core.Nwm.System
abending = record answering { call_nwm_service = λ job buffer size. zss.Core.Nwm.abended 196 }

abbrev nwm_list : NwmParmList
nwm_list = record {
  eyecatcher = nwm_parmlist_eyecatcher;
  nmi_job_name = codes "TCPIP";
  nmi_buffer = some (0 ∷ []);
  nmi_buffer_size = 1;
  nmi_return_value = 0;
  nmi_return_code = 0;
  nmi_reason_code = 0;
}

zis_nwm_service_function-Outcome_example :
    Outcome answering (some nwm_list) (zis_nwm_service_function answering (some nwm_list))
zis_nwm_service_function-Outcome_example =
    zis_nwm_service_function-Outcome answering (some nwm_list)

nmi_buffer_kept :
    (zis_nwm_service_function abending (some nwm_list)).trace ≡ zss.Core.Nwm.allocated 1 ∷ []
unfolding zis_nwm_service_function bytes_eq
nmi_buffer_kept = refl

nmi_answered : (zis_nwm_service_function answering (some nwm_list)).ended ≡ zss.Core.Nwm.returned 0
unfolding zis_nwm_service_function bytes_eq
nmi_answered = refl
