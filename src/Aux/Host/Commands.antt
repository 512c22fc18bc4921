-- ===== src/Aux/Host/Commands.antt =====
-- The commands of a host: what zis-aux/src/aux-host.c does with a text from the manager or from the
-- console. Messages are left out.
pub mod Replies
use zss.Prelude.{
  ℕ, zero, suc, ◌+◌, ◌≡◌, Bool, true, false, not, Option, none, some, List, [], ◌∷◌, ◌++◌, ◌-◌,
  replicate, length, take, Bytes, codes, bytes_eq, ◌==◌, ltb, if◌then◌else◌,
}
use zss.Aux.Return.{
  rc_zisaux_ok, rc_zisaux_error, rc_zisaux_alloc_failed, rc_zisaux_handler_error,
  rc_zisaux_user_handler_error,
}
use zss.Aux.{
  Command, command_text_size, CommandStatus, unknown, processed, consumed, rejected,
  CommandResponse, empty_response,
}
use zss.Aux.Tokens.{auxutil_tokenize_string}

-- How a call of the guest under recovery ends: `CALL_UNSAFE_FUNCTION`.
pub data Unsafe (A : Type 0) : Type 0 where
  returned : A → Unsafe A
  recovered : Unsafe A

-- `CMSModifyCommand`: the verb and the arguments.
pub record ModifyCommand : Type 0 where
  pub route_info : ℕ
  pub command_verb : Bytes
  pub args : List Bytes

-- `handleCommand` of a `ZISAUXModuleDescriptor`: its return code and the response it leaves.
abbrev pub CommandHandler : Type 0
CommandHandler = Command → ModifyCommand → CommandResponse → Unsafe (ℕ × CommandResponse)

-- ZOWE_LOG_*
pub data LogLevel : Type 0 where
  na severe warning info debug debug2 debug3 : LogLevel

-- What a handler of a command leaves: its code, the response, and the level that it set for the
-- component. `reason` is the reason code that it stored through its pointer, if it did.
pub record Handled : Type 0 where
  pub rc : ℕ
  pub reason : Option ℕ
  pub response : CommandResponse
  pub log_level : Option LogLevel

-- The level that a word names; `none` is the last branch.
unfoldable pub level_of : Bytes → Option LogLevel
level_of level =
    if bytes_eq level (codes "SEVERE")
    then some severe
    else if bytes_eq level (codes "WARNING")
    then some warning
    else if bytes_eq level (codes "INFO")
    then some info
    else if bytes_eq level (codes "DEBUG")
    then some debug
    else if bytes_eq level (codes "DEBUG2")
    then some debug2
    else if bytes_eq level (codes "DEBUG3")
    then some debug3
    else none

abbrev pub log_component : Bytes
log_component = codes "STC"

-- `handleCommandVerbLog`. An unknown level is rejected first, but the level is set and the status is
-- replaced all the same.
unfoldable pub handle_command_verb_log : List Bytes → CommandResponse → Handled
unfolding level_of
handle_command_verb_log [] response = record {
  rc = rc_zisaux_ok;
  reason = none;
  response = record response { status = rejected };
  log_level = none;
}
handle_command_verb_log (component ∷ []) response = record {
  rc = rc_zisaux_ok;
  reason = none;
  response = record response { status = rejected };
  log_level = none;
}
handle_command_verb_log (component ∷ level ∷ []) response =
    if not (bytes_eq component log_component)
    then record {
      rc = rc_zisaux_ok;
      reason = none;
      response = record response { status = rejected };
      log_level = none;
    }
    else record {
      rc = rc_zisaux_ok;
      reason = none;
      response = record response { status = consumed };
      log_level = some (elim (level_of level) [ none ↦ na | some l ↦ l ]);
    }
handle_command_verb_log (component ∷ level ∷ extra ∷ args) response = record {
  rc = rc_zisaux_ok;
  reason = none;
  response = record response { status = rejected };
  log_level = none;
}

-- `callUserModuleCommandHandler`: the code, the reason code and the response. The response of a
-- call that ended in the recovery is what was passed.
unfoldable pub call_user_module_command_handler :
    Option CommandHandler → Command → ModifyCommand → CommandResponse → ℕ × ℕ × CommandResponse
call_user_module_command_handler handler raw parsed response = elim handler [
  | none ↦ (rc_zisaux_ok, 0, response)
  | some handle_command ↦ elim (handle_command raw parsed response) [
    | recovered ↦ (rc_zisaux_handler_error, rc_zisaux_error, response)
    | returned r ↦
        if r.0 == rc_zisaux_ok
        then (rc_zisaux_ok, 0, r.1)
        else (rc_zisaux_user_handler_error, r.0, r.1)
  ]
]

-- `handleUserModuleCommand`: an error stores the reason code.
unfoldable pub handle_user_module_command :
    Option CommandHandler → Command → ModifyCommand → CommandResponse → Handled
unfolding call_user_module_command_handler
handle_user_module_command handler raw parsed response =
    let (rc, rsn, response') = call_user_module_command_handler handler raw parsed response in
    record {
      rc = rc;
      reason = if rc == rc_zisaux_ok then none else some rsn;
      response = response';
      log_level = none;
    }

-- The reply to a command. `bad_pointer` is a store through a reason code pointer that is NULL;
-- `replied` has the code, the reason code, the response and the level that was set.
pub data Reply : Type 0 where
  bad_pointer : Reply
  replied : ℕ → ℕ → CommandResponse → Option LogLevel → Reply

-- A handler is called with the caller's pointer; the end of `handleAUXCommand` stores 0 through
-- it.
unfoldable pub finish_command : Bool → Handled → Reply
finish_command has_pointer h = elim h.reason [
  | none ↦ replied h.rc 0 h.response h.log_level
  | some rsn ↦ if has_pointer then replied h.rc 0 h.response h.log_level else bad_pointer
]

-- The branch on the verb.
unfoldable pub run_command :
    Option CommandHandler → Bool → Command → CommandResponse → List Bytes → Reply
unfolding handle_command_verb_log handle_user_module_command finish_command
run_command none has_pointer raw response tokens = replied rc_zisaux_ok 0 response none
run_command (some handler) has_pointer raw response [] = replied rc_zisaux_ok 0 response none
run_command (some handler) has_pointer raw response (verb ∷ args) =
    let parsed : ModifyCommand = record {
      route_info = raw.route_info;
      command_verb = verb;
      args = args;
    } in
    finish_command has_pointer (
      if bytes_eq verb (codes "LOG")
      then handle_command_verb_log args response
      else handle_user_module_command (some handler) raw parsed response)

module _ {S : Type 0} (slh_alloc : S → ℕ → Option S) where
  -- `handleAUXCommand`; `heap` is the short-lived heap, and the flag tells whether `reasonCode` is a pointer. `none` is fuel
  -- that ran out. A text that could not be split is left unknown. The reason code in the list of a
  -- caller is 0 beforehand.
  unfoldable pub handle_aux_command :
      Option S → Option CommandHandler → Bool → Command → CommandResponse → Option Reply
  unfolding run_command
  handle_aux_command heap handler has_pointer raw response =
      let response' = record response { status = unknown } in
      elim heap [
        | none ↦ some (replied rc_zisaux_alloc_failed 0 response' none)
        | some slh ↦ elim (auxutil_tokenize_string slh_alloc slh (take raw.length raw.text) b' ') [
          | none ↦ none
          | some none ↦ some (replied rc_zisaux_ok 0 response' none)
          | some (some tokens) ↦ some (run_command handler has_pointer raw response' tokens)
        ]
      ]

  -- What `handleModifyCommand` leaves of a MODIFY command from the console. `text_too_long` is its
  -- return code 8.
  pub data Console : Type 0 where
    text_too_long : Console
    console_reply : Option Reply → Console

  unfoldable pub handle_modify_text : Option S → Option CommandHandler → ℕ → Bytes → Console
  unfolding handle_aux_command
  handle_modify_text heap handler route_info text =
      if ltb command_text_size (length text)
      then text_too_long
      else let raw : Command = record {
        route_info = route_info;
        length = length text;
        text = text ++ replicate (command_text_size - length text) 0;
      } in
        console_reply (handle_aux_command heap handler false raw empty_response)
