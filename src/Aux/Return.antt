-- ===== src/Aux/Return.antt =====
-- The return codes RC_ZISAUX_* of zis-aux/include/aux-manager.h.
use zss.Prelude.{ℕ}

abbrev pub rc_zisaux_ok : ℕ
rc_zisaux_ok = 0

abbrev pub rc_zisaux_error : ℕ
rc_zisaux_error = 8

abbrev pub rc_zisaux_cpool_alloc_failed : ℕ
rc_zisaux_cpool_alloc_failed = 9

abbrev pub rc_zisaux_comm_not_allocated : ℕ
rc_zisaux_comm_not_allocated = 10

abbrev pub rc_zisaux_print_error : ℕ
rc_zisaux_print_error = 11

abbrev pub rc_zisaux_as_not_started : ℕ
rc_zisaux_as_not_started = 12

abbrev pub rc_zisaux_comm_not_found : ℕ
rc_zisaux_comm_not_found = 13

abbrev pub rc_zisaux_as_not_stopped : ℕ
rc_zisaux_as_not_stopped = 14

abbrev pub rc_zisaux_bad_eyecatcher : ℕ
rc_zisaux_bad_eyecatcher = 16

abbrev pub rc_zisaux_pc_env_not_established : ℕ
rc_zisaux_pc_env_not_established = 17

abbrev pub rc_zisaux_pc_abend_detected : ℕ
rc_zisaux_pc_abend_detected = 18

abbrev pub rc_zisaux_pc_recovery_env_failed : ℕ
rc_zisaux_pc_recovery_env_failed = 19

abbrev pub rc_zisaux_pc_env_not_terminated : ℕ
rc_zisaux_pc_env_not_terminated = 20

abbrev pub rc_zisaux_pc_parm_invalid : ℕ
rc_zisaux_pc_parm_invalid = 21

abbrev pub rc_zisaux_comm_area_invalid : ℕ
rc_zisaux_comm_area_invalid = 22

abbrev pub rc_zisaux_alloc_failed : ℕ
rc_zisaux_alloc_failed = 23

abbrev pub rc_zisaux_comm_srvc_parm_invalid : ℕ
rc_zisaux_comm_srvc_parm_invalid = 24

abbrev pub rc_zisaux_unsupported_version : ℕ
rc_zisaux_unsupported_version = 25

abbrev pub rc_zisaux_request_limit_reached : ℕ
rc_zisaux_request_limit_reached = 26

abbrev pub rc_zisaux_aux_termination : ℕ
rc_zisaux_aux_termination = 27

abbrev pub rc_zisaux_request_tcb_abend : ℕ
rc_zisaux_request_tcb_abend = 28

abbrev pub rc_zisaux_bad_pet : ℕ
rc_zisaux_bad_pet = 29

abbrev pub rc_zisaux_aux_not_ready : ℕ
rc_zisaux_aux_not_ready = 31

abbrev pub rc_zisaux_command_too_long : ℕ
rc_zisaux_command_too_long = 32

abbrev pub rc_zisaux_handler_error : ℕ
rc_zisaux_handler_error = 33

abbrev pub rc_zisaux_user_handler_error : ℕ
rc_zisaux_user_handler_error = 34

abbrev pub rc_zisaux_bad_function_code : ℕ
rc_zisaux_bad_function_code = 35

abbrev pub rc_zisaux_handler_not_scheduled : ℕ
rc_zisaux_handler_not_scheduled = 36

abbrev pub rc_zisaux_aux_stopped : ℕ
rc_zisaux_aux_stopped = 37

abbrev pub rc_zisaux_host_abended : ℕ
rc_zisaux_host_abended = 38

abbrev pub rc_zisaux_bad_caller_key : ℕ
rc_zisaux_bad_caller_key = 39

abbrev pub rc_zisaux_shr64_error : ℕ
rc_zisaux_shr64_error = 40

abbrev pub rc_zisaux_buffer_too_small : ℕ
rc_zisaux_buffer_too_small = 41

abbrev pub rc_zisaux_not_manager_tcb : ℕ
rc_zisaux_not_manager_tcb = 42

abbrev pub rc_zisaux_comm_pc_disabled : ℕ
rc_zisaux_comm_pc_disabled = 43

abbrev pub rc_zisaux_xmem_post_failed : ℕ
rc_zisaux_xmem_post_failed = 44

abbrev pub rc_zisaux_caller_not_recognized : ℕ
rc_zisaux_caller_not_recognized = 45
