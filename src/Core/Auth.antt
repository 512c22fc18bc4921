-- ===== src/Core/Auth.antt =====
-- `zisAuthServiceFunction` of c/zis/services/auth.c. SAF is not part of the repository; a trace holds
-- the security environments (ACEEs) that were made and deleted, in their order. Messages are
-- left out.
pub mod Grants
pub mod Environments
use zss.Prelude.{
  ℕ, ◌≡◌, Bool, true, false, not, ◌&&◌, Option, none, some, List, [], ◌∷◌, ◌++◌, length, Bytes,
  codes, bytes_eq, ◌==◌, ltb, if◌then◌else◌,
}

-- `SAFAuthStatus`
pub record SafStatus : Type 0 where
  pub saf_rc : ℕ
  pub racf_rc : ℕ
  pub racf_rsn : ℕ

-- `AuthServiceParmList`, as it was copied from the caller; `reserved_option` and `idt_appl` are the
-- option bits that are tested.
pub record AuthParmList : Type 0 where
  pub eyecatcher : Bytes
  pub fc : ℕ
  pub user_id : Bytes
  pub password : Bytes
  pub class_name : Bytes
  pub reserved_option : Bool
  pub access : ℕ
  pub entity : Bytes
  pub saf_status : SafStatus
  pub saf_idt_service_version : ℕ
  pub saf_idt_len : ℕ
  pub idt_appl : Bool
  pub appl : Bytes

-- A call of `safVerify`, `safVerify6` or `safVerify7` with VERIFY_CREATE. No password is
-- VERIFY_WITHOUT_PASSWORD; `idt_len` is the length in the area for a token, if there is one.
pub record CreateCall : Type 0 where
  pub user_id : Bytes
  pub password : Option Bytes
  pub without_log : Bool
  pub idt_len : Option ℕ
  pub appl : Option Bytes

-- How `safAuth` or `safAuthStatus` ends under its recovery: with its status and the access type, an
-- abend with its codes, or no recovery at all.
pub data Checked : Type 0 where
  checked : SafStatus → ℕ → Checked
  check_abended : ℕ → ℕ → Checked
  no_recovery : Checked

-- What a creation gives: the environment (ACEE), and the length of the token.
pub record Created : Type 0 where
  pub status : SafStatus
  pub acee : ℕ
  pub idt_len : ℕ

-- SAF: `delete` is VERIFY_DELETE of an ACEE; `safAuth` and `safAuthStatus` check by an ACEE.
pub record Saf : Type 0 where
  pub create : CreateCall → Created
  pub delete : ℕ → SafStatus
  pub auth : Bytes → Bytes → ℕ → ℕ → Checked
  pub auth_status : Bytes → Bytes → ℕ → Checked

pub data AceeEvent : Type 0 where
  acee_created acee_deleted : ℕ → AceeEvent

-- What a handler leaves.
pub record Handled : Type 0 where
  pub rc : ℕ
  pub list : AuthParmList
  pub trace : List AceeEvent

abbrev pub rc_authsrv_ok : ℕ
rc_authsrv_ok = 0

abbrev pub rc_authsrv_parmlist_null : ℕ
rc_authsrv_parmlist_null = 8

abbrev pub rc_authsrv_bad_eyecatcher : ℕ
rc_authsrv_bad_eyecatcher = 9

abbrev pub rc_authsrv_delete_failed : ℕ
rc_authsrv_delete_failed = 10

abbrev pub rc_authsrv_create_failed : ℕ
rc_authsrv_create_failed = 11

abbrev pub rc_authsrv_unknown_function_code : ℕ
rc_authsrv_unknown_function_code = 12

abbrev pub rc_authsrv_install_recovery_failed : ℕ
rc_authsrv_install_recovery_failed = 14

abbrev pub rc_authsrv_saf_abended : ℕ
rc_authsrv_saf_abended = 15

abbrev pub rc_authsrv_saf_error : ℕ
rc_authsrv_saf_error = 16

abbrev pub rc_authsrv_user_class_not_read : ℕ
rc_authsrv_user_class_not_read = 18

abbrev pub rc_authsrv_user_class_too_long : ℕ
rc_authsrv_user_class_too_long = 19

abbrev pub rc_authsrv_custom_class_not_allowed : ℕ
rc_authsrv_custom_class_not_allowed = 20

abbrev pub rc_authsrv_bad_saf_service_version : ℕ
rc_authsrv_bad_saf_service_version = 22

abbrev pub parmlist_eyecatcher : Bytes
parmlist_eyecatcher = codes "RSCMPASS"

abbrev pub fc_verify_password : ℕ
fc_verify_password = 0

abbrev pub fc_entity_check : ℕ
fc_entity_check = 1

abbrev pub fc_get_access : ℕ
fc_get_access = 2

abbrev pub fc_generate_token : ℕ
fc_generate_token = 3

abbrev pub fc_verify_user : ℕ
fc_verify_user = 4

abbrev pub saf_idt_current_version : ℕ
saf_idt_current_version = 1

abbrev pub class_max_length : ℕ
class_max_length = 8

-- A refusal in front of SAF.
abbrev pub refuse : ℕ → AuthParmList → Handled
refuse rc list = record { rc = rc; list = list; trace = [] }

-- The environment of a user is made and deleted; the SAF status is the creation's.
unfoldable pub create_and_delete : Saf → CreateCall → (ℕ → ℕ) → AuthParmList → Handled
create_and_delete saf call idt_len list =
    let made = saf.create call in
    if not (made.status.saf_rc == 0)
    then record {
      rc = rc_authsrv_saf_error;
      list = record list { saf_status = made.status };
      trace = [];
    }
    else record {
      rc = if (saf.delete made.acee).saf_rc == 0 then rc_authsrv_ok else rc_authsrv_delete_failed;
      list = record list { saf_status = made.status; saf_idt_len = idt_len made.idt_len };
      trace = acee_created made.acee ∷ acee_deleted made.acee ∷ [];
    }

-- `handleVerifyUser`
unfoldable pub handle_verify_user : Saf → AuthParmList → Handled
unfolding create_and_delete
handle_verify_user saf list =
    if list.reserved_option
    then refuse rc_authsrv_bad_saf_service_version list
    else create_and_delete saf
        (record {
          user_id = list.user_id;
          password = none;
          without_log = false;
          idt_len = none;
          appl = none;
        })
        (λ len. list.saf_idt_len) list

-- `handleVerifyPassword`
unfoldable pub handle_verify_password : Saf → AuthParmList → Handled
unfolding create_and_delete
handle_verify_password saf list =
    if list.reserved_option
    then refuse rc_authsrv_bad_saf_service_version list
    else create_and_delete saf
        (record {
          user_id = list.user_id;
          password = some list.password;
          without_log = false;
          idt_len = none;
          appl = none;
        })
        (λ len. list.saf_idt_len) list

-- `handleGenerateToken`
unfoldable pub handle_generate_token : Saf → AuthParmList → Handled
unfolding create_and_delete
handle_generate_token saf list =
    if ltb saf_idt_current_version list.saf_idt_service_version
    then refuse rc_authsrv_bad_saf_service_version list
    else create_and_delete saf
        (record {
          user_id = list.user_id;
          password = some list.password;
          without_log = false;
          idt_len = some list.saf_idt_len;
          appl = if list.idt_appl then some list.appl else none;
        })
        (λ len. len) list

-- `getDefaultClassValue`: `class_parm` is the value of the parameter, if `cmsGetConfigParm` finds
-- it.
unfoldable pub get_default_class_value : Option Bytes → ℕ × Bytes
get_default_class_value class_parm = elim class_parm [
  | none ↦ (rc_authsrv_user_class_not_read, [])
  | some value ↦
      if ltb class_max_length (length value)
      then (rc_authsrv_user_class_too_long, [])
      else (rc_authsrv_ok, value)
]

-- The class of a check: the default one, which a caller may name and may not replace.
unfoldable pub choose_class : Option Bytes → AuthParmList → ℕ × Bytes
unfolding get_default_class_value
choose_class class_parm list =
    let (rc, default_class) = get_default_class_value class_parm in
    if not (rc == rc_authsrv_ok)
    then (rc, [])
    else if not (length list.class_name == 0) && not (bytes_eq list.class_name default_class)
    then (rc_authsrv_custom_class_not_allowed, [])
    else (rc_authsrv_ok, default_class)

-- The abend codes lie where the SAF status is.
abbrev pub abend_status : ℕ → ℕ → SafStatus → SafStatus
abend_status completion_code reason_code status = record {
  saf_rc = completion_code;
  racf_rc = reason_code;
  racf_rsn = status.racf_rsn;
}

-- What a check leaves in front of the deletion: the code and the list.
unfoldable pub after_check : Checked → AuthParmList → ℕ × AuthParmList
after_check (checked status access) list = (
  if status.saf_rc == 0 then rc_authsrv_ok else rc_authsrv_saf_error,
  record list { saf_status = status },
)
after_check (check_abended cc rsn) list =
    (rc_authsrv_saf_abended, record list { saf_status = abend_status cc rsn list.saf_status })
after_check no_recovery list = (rc_authsrv_install_recovery_failed, list)

-- `handleEntityCheck`
unfoldable pub handle_entity_check : Option Bytes → Saf → AuthParmList → Handled
unfolding choose_class after_check
handle_entity_check class_parm saf list =
    let (class_rc, class_name) = choose_class class_parm list in
    let made = saf.create (record {
      user_id = list.user_id;
      password = none;
      without_log = false;
      idt_len = none;
      appl = none;
    }) in
    let (rc, list') = after_check (saf.auth class_name list.entity list.access made.acee) list in
    if not (class_rc == rc_authsrv_ok)
    then refuse class_rc list
    else if not (made.status.saf_rc == 0)
    then record {
      rc = rc_authsrv_create_failed;
      list = record list { saf_status = made.status };
      trace = [];
    }
    else record {
      rc = if (saf.delete made.acee).saf_rc == 0 then rc else rc_authsrv_delete_failed;
      list = list';
      trace = acee_created made.acee ∷ acee_deleted made.acee ∷ [];
    }

-- The access type that a check found; 0 if there was none.
unfoldable pub access_of : Checked → ℕ
access_of (checked status access) = access
access_of (check_abended cc rsn) = 0
access_of no_recovery = 0

-- The end of `getAccessType`: a deletion that fails is reported if nothing else failed.
unfoldable pub end_access : Saf → ℕ → ℕ → AuthParmList → Handled
end_access saf acee rc list =
    if not ((saf.delete acee).saf_rc == 0) && rc == rc_authsrv_ok
    then record {
      rc = rc_authsrv_delete_failed;
      list = record list { saf_status = saf.delete acee };
      trace = acee_created acee ∷ acee_deleted acee ∷ [];
    }
    else record { rc = rc; list = list; trace = acee_created acee ∷ acee_deleted acee ∷ [] }

-- `getAccessType`
unfoldable pub get_access_type : Saf → Bytes → AuthParmList → Handled
unfolding after_check access_of end_access
get_access_type saf class_name list =
    let made = saf.create (record {
      user_id = list.user_id;
      password = none;
      without_log = true;
      idt_len = none;
      appl = none;
    }) in
    let filled = record list { saf_status = made.status } in
    let reply = saf.auth_status class_name list.entity made.acee in
    let (rc, list') = after_check reply filled in
    if not (made.status.saf_rc == 0)
    then record { rc = rc_authsrv_create_failed; list = filled; trace = [] }
    else end_access saf made.acee rc (record list' { access = access_of reply })

-- `handleAccessRetrieval`
unfoldable pub handle_access_retrieval : Option Bytes → Saf → AuthParmList → Handled
unfolding choose_class get_access_type
handle_access_retrieval class_parm saf list =
    let (class_rc, class_name) = choose_class class_parm list in
    if not (class_rc == rc_authsrv_ok)
    then refuse class_rc list
    else get_access_type saf class_name list

-- The function code's handler.
unfoldable pub dispatch : Option Bytes → Saf → AuthParmList → Handled
unfolding handle_verify_user handle_verify_password handle_generate_token handle_entity_check
    handle_access_retrieval
dispatch class_parm saf list =
    if list.fc == fc_verify_password
    then handle_verify_password saf list
    else if list.fc == fc_entity_check
    then handle_entity_check class_parm saf list
    else if list.fc == fc_get_access
    then handle_access_retrieval class_parm saf list
    else if list.fc == fc_generate_token
    then handle_generate_token saf list
    else if list.fc == fc_verify_user
    then handle_verify_user saf list
    else refuse rc_authsrv_unknown_function_code list

-- `zisAuthServiceFunction`: `none` is a NULL parameter. A list that was handled is copied back.
unfoldable pub zis_auth_service_function :
    Option Bytes → Saf → Option AuthParmList → ℕ × Option AuthParmList × List AceeEvent
unfolding dispatch
zis_auth_service_function class_parm saf parm = elim parm [
  | none ↦ (rc_authsrv_parmlist_null, none, [])
  | some list ↦
      let h = dispatch class_parm saf list in
      if not (bytes_eq list.eyecatcher parmlist_eyecatcher)
      then (rc_authsrv_bad_eyecatcher, none, [])
      else (h.rc, some h.list, h.trace)
]
