-- ===== src/Aux/Host/Commands/Replies.antt =====
-- What the sender of a command learns.
use zss.Prelude.{
  ℕ, ◌≡◌, ◌≢◌, ◌⊎◌, ◌∙◌, refl, ap, inl, inr, Bool, true, false, Option, none, some, List, [], ◌∷◌,
  take, Bytes, codes, bytes_eq, bytes_eq_iff, ◌==◌, ==_iff, if◌then◌else◌, Bool-cases, Option-cases,
  arith,
}
use zss.Aux.Return.{rc_zisaux_ok, rc_zisaux_alloc_failed, rc_zisaux_user_handler_error}
use zss.Aux.{Command, unknown, consumed, rejected, CommandResponse}
use zss.Aux.Tokens.{auxutil_tokenize_string}
use zss.Aux.Tokens.Words.{words, tokenize_string-words}
use zss.Aux.Host.Commands.{
  returned, ModifyCommand, CommandHandler, LogLevel, na, Handled, level_of, log_component,
  handle_command_verb_log, call_user_module_command_handler, handle_user_module_command,
  bad_pointer, replied, finish_command, run_command, handle_aux_command,
}

-- The argument lists of a LOG command that is carried out, and the level that it sets.
abbrev pub SetsLevel : List Bytes → LogLevel → Type 0
SetsLevel args l =
    (level : Bytes) × (args ≡ log_component ∷ level ∷ [])
    × ((level_of level ≡ some l) ⊎ ((level_of level ≡ none) × (l ≡ na)))

-- A LOG command is rejected and sets no level, or it has the component STC and one level, is
-- reported as consumed, and sets the level that its word names, or ZOWE_LOG_NA if the word names none.
pub handle_command_verb_log_lem :
    (args : List Bytes) (response : CommandResponse)
    → (((handle_command_verb_log args response).response.status ≡ rejected)
        × ((handle_command_verb_log args response).log_level ≡ none)
        × ((level : Bytes) → args ≢ log_component ∷ level ∷ []))
      ⊎ (((handle_command_verb_log args response).response.status ≡ consumed)
          × ((l : LogLevel) × ((handle_command_verb_log args response).log_level ≡ some l)
              × SetsLevel args l))
unfolding handle_command_verb_log
handle_command_verb_log_lem [] response = inl (refl, refl, λ level h. cc)
handle_command_verb_log_lem (component ∷ []) response = inl (refl, refl, λ level h. cc)
handle_command_verb_log_lem (component ∷ level ∷ extra ∷ args) response =
    inl (refl, refl, λ level h. cc)
handle_command_verb_log_lem (component ∷ level ∷ []) response =
    elim (Bool-cases (bytes_eq component log_component)) [
      | inr e ↦ inl (
        rw (e, handle_command_verb_log),
        rw (e, handle_command_verb_log),
        λ level' h. let i = (bytes_eq_iff component log_component).1 in ground (arith, i),
      )
      | inl e ↦
          let same : component ∷ level ∷ [] ≡ log_component ∷ level ∷ [] =
            ap (λ c. c ∷ level ∷ []) ((bytes_eq_iff component log_component).0 e) in
          elim (Option-cases (level_of level)) [
            | inl f ↦ inr (
              rw (e, handle_command_verb_log),
              (
                na,
                rw (e, handle_command_verb_log) (rw (f, handle_command_verb_log)),
                (level, same, inr (f, refl)),
              ),
            )
            | inr (l, f) ↦ inr (
              rw (e, handle_command_verb_log),
              (
                l,
                rw (e, handle_command_verb_log) (rw (f, handle_command_verb_log)),
                (level, same, inl f),
              ),
            )
          ]
    ]

finish-pointer :
    (h : Handled)
    → (rc : ℕ) × (response : CommandResponse) × (l : Option LogLevel) × (finish_command true h
        ≡ replied rc 0 response l)
unfolding finish_command
finish-pointer h = elim (Option-cases h.reason) [
  | inl e ↦ (h.rc, h.response, h.log_level, rw (e, finish_command))
  | inr (rsn, e) ↦ (h.rc, h.response, h.log_level, rw (e, finish_command))
]

run-pointer :
    (handler : Option CommandHandler) (raw : Command) (response : CommandResponse)
    (tokens : List Bytes)
    → (rc : ℕ) × (response' : CommandResponse) × (l : Option LogLevel) × (run_command handler true
          raw response tokens
        ≡ replied rc 0 response' l)
unfolding run_command
run-pointer none raw response tokens = (rc_zisaux_ok, response, none, refl)
run-pointer (some handler) raw response [] = (rc_zisaux_ok, response, none, refl)
run-pointer (some handler) raw response (verb ∷ args) = finish-pointer _

abbrev parsed_command : Command → Bytes → List Bytes → ModifyCommand
parsed_command raw verb args = record {
  route_info = raw.route_info;
  command_verb = verb;
  args = args;
}

run_command-own :
    (handler : CommandHandler) (has_pointer : Bool) (raw : Command) (response : CommandResponse)
    (verb : Bytes) (args : List Bytes)
    → verb ≢ codes "LOG"
    → run_command (some handler) has_pointer raw response (verb ∷ args)
      ≡ finish_command has_pointer
          (handle_user_module_command (some handler) raw (parsed_command raw verb args) response)
unfolding run_command
run_command-own handler has_pointer raw response verb args own =
    elim (Bool-cases (bytes_eq verb (codes "LOG"))) [
      | inl e ↦ absurd (own ((bytes_eq_iff verb (codes "LOG")).0 e))
      | inr e ↦ rw (e, run_command)
    ]

finish-failed :
    (handler : CommandHandler) (has_pointer : Bool) (raw : Command) (parsed : ModifyCommand)
    (response after : CommandResponse) (code : ℕ)
    → handler raw parsed response ≡ returned (code, after)
    → code ≢ 0
    → finish_command has_pointer (handle_user_module_command (some handler) raw parsed response)
      ≡ (if has_pointer then replied rc_zisaux_user_handler_error 0 after none else bad_pointer)
unfolding finish_command handle_user_module_command call_user_module_command_handler
finish-failed handler has_pointer raw parsed response after code reply bad =
    let e : (code == 0) ≡ false = ground (arith, ==_iff code 0) in
    let h : handle_user_module_command (some handler) raw parsed response ≡ record {
      rc = rc_zisaux_user_handler_error;
      reason = some code;
      response = after;
      log_level = none;
    } =
      rw (reply, handle_user_module_command, call_user_module_command_handler)
        (rw (e, handle_user_module_command, call_user_module_command_handler) refl) in
    ap (finish_command has_pointer) h

finish-done :
    (handler : CommandHandler) (has_pointer : Bool) (raw : Command) (parsed : ModifyCommand)
    (response after : CommandResponse)
    → handler raw parsed response ≡ returned (0, after)
    → finish_command has_pointer (handle_user_module_command (some handler) raw parsed response)
      ≡ replied rc_zisaux_ok 0 after none
unfolding finish_command handle_user_module_command call_user_module_command_handler
finish-done handler has_pointer raw parsed response after reply =
    let h : handle_user_module_command (some handler) raw parsed response
        ≡ record { rc = rc_zisaux_ok; reason = none; response = after; log_level = none } =
      rw (reply, handle_user_module_command, call_user_module_command_handler) refl in
    ap (finish_command has_pointer) h

module _ {S : Type 0} (slh_alloc : S → ℕ → Option S) where
  -- A command that came from the manager is always replied to, whatever the guest's handler does, and the
  -- reason code of the reply is always 0, the one of a handler that failed included.
  pub handle_aux_command_lem :
      (heap : Option S) (handler : Option CommandHandler) (raw : Command)
      (response : CommandResponse)
      → (rc : ℕ) × (response' : CommandResponse) × (l : Option LogLevel) × (handle_aux_command
            slh_alloc heap handler true raw response
          ≡ some (replied rc 0 response' l))
  unfolding handle_aux_command
  handle_aux_command_lem none handler raw response =
      (rc_zisaux_alloc_failed, record response { status = unknown }, none, refl)
  handle_aux_command_lem (some slh) handler raw response =
      let response' = record response { status = unknown } in
      elim (tokenize_string-words slh_alloc slh (take raw.length raw.text) b' ') [
        | inl (e, r) ↦ (rc_zisaux_ok, response', none, rw (e, handle_aux_command))
        | inr e ↦
            let (rc, after, l, f) =
              run-pointer handler raw response' (words b' ' (take raw.length raw.text)) in
            (rc, after, l, rw (e, handle_aux_command) (ap some f))
      ]

  -- The heap grants the storage for the tokens of the command: splitting it does not end with -1.
  abbrev pub Grants : S → Command → Type 0
  Grants slh raw = auxutil_tokenize_string slh_alloc slh (take raw.length raw.text) b' ' ≢ some none

  handle_aux_command-run :
      (slh : S) (handler : Option CommandHandler) (has_pointer : Bool) (raw : Command)
      (response : CommandResponse)
      → Grants slh raw
      → handle_aux_command slh_alloc (some slh) handler has_pointer raw response
        ≡ some (
            run_command handler has_pointer raw
              (record response { status = unknown })
              (words b' ' (take raw.length raw.text)))
  unfolding handle_aux_command
  handle_aux_command-run slh handler has_pointer raw response grants =
      elim (tokenize_string-words slh_alloc slh (take raw.length raw.text) b' ') [
        | inl (e, refuses) ↦ absurd (grants e)
        | inr e ↦ rw (e, handle_aux_command)
      ]

  handle_aux_command-own :
      (slh : S) (handler : CommandHandler) (has_pointer : Bool) (raw : Command)
      (response : CommandResponse) (verb : Bytes) (args : List Bytes)
      → Grants slh raw
      → words b' ' (take raw.length raw.text) ≡ verb ∷ args
      → verb ≢ codes "LOG"
      → handle_aux_command slh_alloc (some slh) (some handler) has_pointer raw response
        ≡ some (
            finish_command has_pointer (
              handle_user_module_command
                (some handler)
                raw
                (parsed_command raw verb args)
                (record response { status = unknown })))
  handle_aux_command-own slh handler has_pointer raw response verb args grants split own =
      let response' = record response { status = unknown } in
      handle_aux_command-run slh (some handler) has_pointer raw response grants
      ∙ ap (λ ts. some (run_command (some handler) has_pointer raw response' ts)) split
      ∙ ap some (run_command-own handler has_pointer raw response' verb args own)

  -- How the command of a guest's own ends, if the handler fails with a code: from the console, the code is stored through a pointer that is
  -- NULL; from the manager, the guest's response is sent with RC_ZISAUX_USER_HANDLER_ERROR and the reason code 0.
  -- The heap grants the storage for the tokens of the command.
  pub handle_aux_command-failed :
      (slh : S) (handler : CommandHandler) (raw : Command) (response after : CommandResponse)
      (verb : Bytes) (args : List Bytes) (code : ℕ)
      → Grants slh raw
      → words b' ' (take raw.length raw.text) ≡ verb ∷ args
      → verb ≢ codes "LOG"
      → handler raw
          (record { route_info = raw.route_info; command_verb = verb; args = args })
          (record response { status = unknown })
        ≡ returned (code, after)
      → code ≢ 0
      → (handle_aux_command slh_alloc (some slh) (some handler) false raw response
          ≡ some bad_pointer)
        × (handle_aux_command slh_alloc (some slh) (some handler) true raw response
            ≡ some (replied rc_zisaux_user_handler_error 0 after none))
  handle_aux_command-failed slh handler raw response after verb args code grants split own reply
        bad =
      let response' = record response { status = unknown } in
      (
        handle_aux_command-own slh handler false raw response verb args grants split own
            ∙ ap some (finish-failed handler false raw _ response' after code reply bad),
        handle_aux_command-own slh handler true raw response verb args grants split own
            ∙ ap some (finish-failed handler true raw _ response' after code reply bad),
      )

  -- A command of a guest's own that its handler carries out is replied to with the guest's response and
  -- the codes 0. Storage for the tokens is granted.
  pub handle_aux_command-done :
      (slh : S) (handler : CommandHandler) (has_pointer : Bool) (raw : Command)
      (response after : CommandResponse) (verb : Bytes) (args : List Bytes)
      → Grants slh raw
      → words b' ' (take raw.length raw.text) ≡ verb ∷ args
      → verb ≢ codes "LOG"
      → handler raw
          (record { route_info = raw.route_info; command_verb = verb; args = args })
          (record response { status = unknown })
        ≡ returned (0, after)
      → handle_aux_command slh_alloc (some slh) (some handler) has_pointer raw response
        ≡ some (replied rc_zisaux_ok 0 after none)
  handle_aux_command-done slh handler has_pointer raw response after verb args grants split own
        reply =
      handle_aux_command-own slh handler has_pointer raw response verb args grants split own
      ∙ ap some
          (finish-done handler has_pointer raw _ (record response { status = unknown }) after reply)
