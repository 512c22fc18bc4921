-- ===== src/Core/Nwm.antt =====
-- `zisNWMServiceFunction` of c/zis/services/nwm.c, which passes a request of its caller to the
-- network management interface (NMI). The heap, the recovery and the NMI are parameters.
pub mod Exchange
use zss.Prelude.{
  ℕ, Bool, true, false, not, Option, none, some, List, [], ◌∷◌, Bytes, codes, bytes_eq, ltb,
  if◌then◌else◌,
}

-- `ZISNWMServiceParmList`; `nmi_buffer` is what lies in the caller's buffer, `none` for NULL. The
-- return value is a 32-bit word. The trace level is left out.
pub record NwmParmList : Type 0 where
  pub eyecatcher : Bytes
  pub nmi_job_name : Bytes
  pub nmi_buffer : Option Bytes
  pub nmi_buffer_size : ℕ
  pub nmi_return_value : ℕ
  pub nmi_return_code : ℕ
  pub nmi_reason_code : ℕ

-- What the NMI leaves: the buffer and its codes.
pub record NmiReply : Type 0 where
  pub buffer : Bytes
  pub return_value : ℕ
  pub return_code : ℕ
  pub reason_code : ℕ

-- How the part under the recovery ends: with the reply of the NMI, or an abend.
pub data Called : Type 0 where
  replied : NmiReply → Called
  abended : ℕ → Called

-- What `recoveryPush` returns. The return after an abend, for which the code has a branch, takes
-- RCVR_FLAG_RETRY, which this recovery does not have.
pub data Pushed : Type 0 where
  push_ok push_abended push_failed : Pushed

-- `copy_abend` is the completion code, if one of the copies to the caller abends.
pub record System : Type 0 where
  pub has_storage : ℕ → Bool
  pub push : Pushed
  pub call_nwm_service : Bytes → Bytes → ℕ → Called
  pub copy_abend : Option ℕ

pub data HeapEvent : Type 0 where
  allocated freed : ℕ → HeapEvent

-- How a call ends: it returns a code, or an abend with a completion code percolates to the caller.
pub data Ended : Type 0 where
  returned percolated : ℕ → Ended

-- What a call leaves: its end, the caller's parameter list with its buffer, `none` if the copies to
-- them did not finish, and what was done with the heap.
pub record Served : Type 0 where
  pub ended : Ended
  pub written : Option NwmParmList
  pub trace : List HeapEvent

abbrev pub rc_nwmsrv_ok : ℕ
rc_nwmsrv_ok = 0

abbrev pub rc_nwmsrv_parmlist_null : ℕ
rc_nwmsrv_parmlist_null = 8

abbrev pub rc_nwmsrv_bad_eyecatcher : ℕ
rc_nwmsrv_bad_eyecatcher = 9

abbrev pub rc_nwmsrv_buffer_null : ℕ
rc_nwmsrv_buffer_null = 10

abbrev pub rc_nwmsrv_buffer_not_allocated : ℕ
rc_nwmsrv_buffer_not_allocated = 11

abbrev pub rc_nwmsrv_recovery_error : ℕ
rc_nwmsrv_recovery_error = 12

abbrev pub rc_nwmsrv_nwm_abended : ℕ
rc_nwmsrv_nwm_abended = 13

abbrev pub rc_nwmsrv_nwm_failed : ℕ
rc_nwmsrv_nwm_failed = 14

abbrev pub nwm_parmlist_eyecatcher : Bytes
nwm_parmlist_eyecatcher = codes "RSZISNWM"

-- A negative `int`.
abbrev pub is_negative : ℕ → Bool
is_negative word = ltb 2147483647 word

-- The list after the call of the NMI.
unfoldable pub after_nmi : NwmParmList → NmiReply → NwmParmList
after_nmi list reply = record list {
  nmi_buffer = some reply.buffer;
  nmi_return_value = reply.return_value;
  nmi_return_code = reply.return_code;
  nmi_reason_code = reply.reason_code;
}

-- The copies to the caller, which stand under no recovery of the service.
unfoldable pub copy_to_caller : Option ℕ → NwmParmList → NmiReply → Ended × Option NwmParmList
unfolding after_nmi
copy_to_caller copy_abend list reply = elim copy_abend [
  | some completion_code ↦ (percolated completion_code, none)
  | none ↦ (
    returned (if is_negative reply.return_value then rc_nwmsrv_nwm_failed else rc_nwmsrv_ok),
    some (after_nmi list reply),
  )
]

-- The call of the NMI on the local buffer, and the copies to the caller. An abend of the call
-- percolates.
unfoldable pub call_nmi : System → NwmParmList → Bytes → Ended × Option NwmParmList
unfolding copy_to_caller
call_nmi sys list buffer = elim sys.push [
  | push_ok ↦ elim (sys.call_nwm_service list.nmi_job_name buffer list.nmi_buffer_size) [
    | replied reply ↦ copy_to_caller sys.copy_abend list reply
    | abended completion_code ↦ (percolated completion_code, none)
  ]
  | push_abended ↦ (returned rc_nwmsrv_nwm_abended, none)
  | push_failed ↦ (returned rc_nwmsrv_recovery_error, none)
]

-- What is done with the local buffer: an abend that percolates leaves it.
unfoldable pub buffer_events : Ended → ℕ → List HeapEvent
buffer_events (returned rc) size = allocated size ∷ freed size ∷ []
buffer_events (percolated completion_code) size = allocated size ∷ []

-- The local buffer around the call.
unfoldable pub with_local_buffer : System → NwmParmList → Bytes → Served
unfolding call_nmi buffer_events
with_local_buffer sys list buffer =
    let (ended, written) = call_nmi sys list buffer in
    if sys.has_storage list.nmi_buffer_size
    then record {
      ended = ended;
      written = written;
      trace = buffer_events ended list.nmi_buffer_size;
    }
    else record { ended = returned rc_nwmsrv_buffer_not_allocated; written = none; trace = [] }

-- An end in front of the allocation.
abbrev pub not_served : ℕ → Served
not_served rc = record { ended = returned rc; written = none; trace = [] }

-- `zisNWMServiceFunction`: `none` is a NULL parameter.
unfoldable pub zis_nwm_service_function : System → Option NwmParmList → Served
unfolding with_local_buffer
zis_nwm_service_function sys none = not_served rc_nwmsrv_parmlist_null
zis_nwm_service_function sys (some list) =
    if not (bytes_eq list.eyecatcher nwm_parmlist_eyecatcher)
    then not_served rc_nwmsrv_bad_eyecatcher
    else elim list.nmi_buffer [
      | none ↦ not_served rc_nwmsrv_buffer_null
      | some buffer ↦ with_local_buffer sys list buffer
    ]
