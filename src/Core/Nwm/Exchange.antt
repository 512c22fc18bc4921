-- ===== src/Core/Nwm/Exchange.antt =====
-- What a request to the network management interface leaves with its caller.
use mathlib.Core.Path.{subst}
use zss.Prelude.{
  Bool, ap, ℕ, sym, ◌≡◌, ◌≢◌, ◌⊎◌, refl, inl, inr, true, false, Option, none, some, [], ◌∷◌, Bytes,
  bytes_eq, bytes_eq_iff, arith, Bool-cases, Option-cases,
}
use zss.Core.Nwm.{
  NwmParmList, NmiReply, Called, replied, abended, Pushed, push_ok, push_abended, push_failed,
  System, allocated, freed, Ended, returned, percolated, Served, is_negative,
  nwm_parmlist_eyecatcher, after_nmi, copy_to_caller, call_nmi, buffer_events, with_local_buffer,
  not_served, zis_nwm_service_function,
}

-- Why a request is refused with a code: the parameter is NULL, the eyecatcher is wrong, the buffer
-- is NULL, there is no storage for the local one, or the recovery is not there or returned after an
-- abend.
abbrev pub IsRefused : System → Option NwmParmList → ℕ → Type 0
IsRefused sys parm rc =
    ((rc ≡ 8) × (parm ≡ none))
    ⊎ ((list : NwmParmList) × (parm ≡ some list)
        × (((rc ≡ 9) × (list.eyecatcher ≢ nwm_parmlist_eyecatcher))
            ⊎ ((rc ≡ 10) × (list.nmi_buffer ≡ none))
            ⊎ ((rc ≡ 11) × (sys.has_storage list.nmi_buffer_size ≡ false))
            ⊎ ((rc ≡ 12) × (sys.push ≡ push_failed))
            ⊎ ((rc ≡ 13) × (sys.push ≡ push_abended))))

-- Nothing is written, and the request is refused.
abbrev pub IsUnserved : System → Option NwmParmList → Ended → Option NwmParmList → Type 0
IsUnserved sys parm ended written =
    (written ≡ none) × (rc : ℕ) × (ended ≡ returned rc) × IsRefused sys parm rc

-- The NMI was called with the caller's buffer, the caller has its reply, and the code says
-- whether the return value is negative.
abbrev pub IsServed : System → Option NwmParmList → Ended → Option NwmParmList → Type 0
IsServed sys parm ended written =
    (list : NwmParmList) × (buffer : Bytes) × (reply : NmiReply) × (parm ≡ some list)
    × (list.eyecatcher ≡ nwm_parmlist_eyecatcher)
    × (list.nmi_buffer ≡ some buffer)
    × (sys.call_nwm_service list.nmi_job_name buffer list.nmi_buffer_size ≡ replied reply)
    × (written ≡ some (after_nmi list reply))
    × (((ended ≡ returned 0) × (is_negative reply.return_value ≡ false))
        ⊎ ((ended ≡ returned 14) × (is_negative reply.return_value ≡ true)))

-- An abend of the call of the NMI or of a copy to the caller percolated.
abbrev pub IsAbended : System → Option NwmParmList → Ended → Type 0
IsAbended sys parm ended =
    (cc : ℕ) × (ended ≡ percolated cc)
    × ((sys.copy_abend ≡ some cc)
        ⊎ ((list : NwmParmList) × (buffer : Bytes) × (parm ≡ some list)
            × (sys.call_nwm_service list.nmi_job_name buffer list.nmi_buffer_size ≡ abended cc)))

-- The end of a call, and what was done with the local buffer.
abbrev pub Outcome : System → Option NwmParmList → Served → Type 0
Outcome sys parm served =
    (((served.trace ≡ []) ⊎ ((size : ℕ) × (served.trace ≡ allocated size ∷ freed size ∷ [])))
      × (IsUnserved sys parm served.ended served.written
          ⊎ IsServed sys parm served.ended served.written))
    ⊎ (((size : ℕ) × (served.trace ≡ allocated size ∷ [])) × IsAbended sys parm served.ended)

not_served-Outcome :
    (sys : System) (parm : Option NwmParmList) (rc : ℕ)
    → IsRefused sys parm rc
    → Outcome sys parm (not_served rc)
not_served-Outcome sys parm rc why = inl (inl refl, inl (refl, rc, refl, why))

carried :
    (sys : System) (parm : Option NwmParmList) {s t : Served}
    → s ≡ t
    → Outcome sys parm t
    → Outcome sys parm s
carried sys parm e h = subst (λ r. Outcome sys parm r) (sym e) h

Pushed-cases : (p : Pushed) → (p ≡ push_ok) ⊎ (p ≡ push_abended) ⊎ (p ≡ push_failed)
Pushed-cases push_ok = inl refl
Pushed-cases push_abended = inr (inl refl)
Pushed-cases push_failed = inr (inr refl)

Called-cases :
    (c : Called) → ((reply : NmiReply) × (c ≡ replied reply)) ⊎ ((cc : ℕ) × (c ≡ abended cc))
Called-cases (replied reply) = inl (reply, refl)
Called-cases (abended cc) = inr (cc, refl)

-- How the part with the local buffer ends.
abbrev Ends : System → NwmParmList → Ended × Option NwmParmList → Type 0
Ends sys list r =
    IsUnserved sys (some list) r.0 r.1
    ⊎ IsServed sys (some list) r.0 r.1
    ⊎ IsAbended sys (some list) r.0

copy_to_caller-Ends :
    (sys : System) (list : NwmParmList) (buffer : Bytes) (reply : NmiReply)
    → list.eyecatcher ≡ nwm_parmlist_eyecatcher
    → list.nmi_buffer ≡ some buffer
    → sys.call_nwm_service list.nmi_job_name buffer list.nmi_buffer_size ≡ replied reply
    → Ends sys list (copy_to_caller sys.copy_abend list reply)
unfolding copy_to_caller
copy_to_caller-Ends sys list buffer reply e b c = elim (Option-cases sys.copy_abend) [
  | inr (code, a) ↦ inr (inr (code, rw (a, copy_to_caller), inl a))
  | inl a ↦ elim (Bool-cases (is_negative reply.return_value)) [
    | inl n ↦ inr (
        inl (
          list,
          buffer,
          reply,
          refl,
          e,
          b,
          c,
          rw (a, copy_to_caller),
          inr (rw (a, copy_to_caller) (rw n), n),
        ))
    | inr n ↦ inr (
        inl (
          list,
          buffer,
          reply,
          refl,
          e,
          b,
          c,
          rw (a, copy_to_caller),
          inl (rw (a, copy_to_caller) (rw n), n),
        ))
  ]
]

call_nmi-Ends :
    (sys : System) (list : NwmParmList) (buffer : Bytes)
    → list.eyecatcher ≡ nwm_parmlist_eyecatcher
    → list.nmi_buffer ≡ some buffer
    → Ends sys list (call_nmi sys list buffer)
unfolding call_nmi
call_nmi-Ends sys list buffer e b = elim (Pushed-cases sys.push) [
  | inr (inl p) ↦
      let q : call_nmi sys list buffer ≡ (returned 13, none) = rw (p, call_nmi) in
      subst (λ r. Ends sys list r) (sym q)
        (inl (refl, 13, refl, inr (list, refl, inr (inr (inr (inr (refl, p)))))))
  | inr (inr p) ↦
      let q : call_nmi sys list buffer ≡ (returned 12, none) = rw (p, call_nmi) in
      subst (λ r. Ends sys list r) (sym q)
        (inl (refl, 12, refl, inr (list, refl, inr (inr (inr (inl (refl, p)))))))
  | inl p ↦
      elim (Called-cases (sys.call_nwm_service list.nmi_job_name buffer list.nmi_buffer_size)) [
        | inr (code, c) ↦
            let q : call_nmi sys list buffer ≡ (percolated code, none) =
              rw (p, call_nmi) (rw c refl) in
            subst (λ r. Ends sys list r) (sym q)
              (inr (inr (code, refl, inr (list, buffer, refl, c))))
        | inl (reply, c) ↦
            let q : call_nmi sys list buffer ≡ copy_to_caller sys.copy_abend list reply =
              rw (p, call_nmi) (rw c refl) in
            subst (λ r. Ends sys list r) (sym q) (copy_to_caller-Ends sys list buffer reply e b c)
      ]
]

has_returned : Ended → Bool
has_returned (returned rc) = true
has_returned (percolated cc) = false

percolated-ne : (cc rc : ℕ) → percolated cc ≢ returned rc
unfolding has_returned
percolated-ne cc rc e = let f : false ≡ true = ap has_returned e in ground (arith, f)

other_eye :
    (list : NwmParmList)
    → bytes_eq list.eyecatcher nwm_parmlist_eyecatcher ≡ false
    → list.eyecatcher ≢ nwm_parmlist_eyecatcher
other_eye list e h =
    let i = (bytes_eq_iff list.eyecatcher nwm_parmlist_eyecatcher).1 h in ground (arith, e, i)

buffer_events-Outcome :
    (sys : System) (list : NwmParmList) (size : ℕ) (ended : Ended) (written : Option NwmParmList)
    → Ends sys list (ended, written)
    → Outcome sys
        (some list)
        (record { ended = ended; written = written; trace = buffer_events ended size })
unfolding buffer_events
buffer_events-Outcome sys list size (returned rc) written (inl h) = inl (inr (size, refl), inl h)
buffer_events-Outcome sys list size (returned rc) written (inr (inl h)) =
    inl (inr (size, refl), inr h)
buffer_events-Outcome sys list size (returned rc) written (inr (inr (code, h, why))) =
    absurd (percolated-ne code rc (sym h))
buffer_events-Outcome sys list size (percolated code) written (inl (w, rc, h, why)) =
    absurd (percolated-ne code rc h)
buffer_events-Outcome sys list size (percolated code) written
      (inr (inl (l, b, reply, e, k, m, c, w, inl (h, n)))) =
    absurd (percolated-ne code 0 h)
buffer_events-Outcome sys list size (percolated code) written
      (inr (inl (l, b, reply, e, k, m, c, w, inr (h, n)))) =
    absurd (percolated-ne code 14 h)
buffer_events-Outcome sys list size (percolated code) written (inr (inr h)) = inr ((size, refl), h)

with_local_buffer-Outcome :
    (sys : System) (list : NwmParmList) (buffer : Bytes)
    → list.eyecatcher ≡ nwm_parmlist_eyecatcher
    → list.nmi_buffer ≡ some buffer
    → Outcome sys (some list) (with_local_buffer sys list buffer)
unfolding with_local_buffer
with_local_buffer-Outcome sys list buffer e b =
    elim (Bool-cases (sys.has_storage list.nmi_buffer_size)) [
      | inl s ↦
          let r = call_nmi sys list buffer in
          let passed : with_local_buffer sys list buffer ≡ record {
            ended = r.0;
            written = r.1;
            trace = buffer_events r.0 list.nmi_buffer_size;
          } =
            rw (s, with_local_buffer) in
          carried sys (some list) passed (
            buffer_events-Outcome sys list list.nmi_buffer_size r.0 r.1
              (call_nmi-Ends sys list buffer e b))
      | inr s ↦
          let refused : with_local_buffer sys list buffer ≡ not_served 11 =
            rw (s, with_local_buffer) in
          carried sys (some list) refused
            (not_served-Outcome sys (some list) 11 (inr (list, refl, inr (inr (inl (refl, s))))))
    ]

-- A call ends in one of three ways. It writes nothing to the caller and returns the code of what was refused: the parameter, the
-- eyecatcher, the buffer, the storage for the local buffer, or the recovery. Or the list has its eyecatcher and a buffer, the caller gets the
-- reply of the NMI to that buffer, and the code is 0 if its return value is not negative and NWM_FAILED if it is. In both cases the local
-- buffer is freed, if it was allocated. Or the call of the NMI or a copy to the caller abends: the abend percolates, and the local buffer
-- stays allocated.
pub zis_nwm_service_function-Outcome :
    (sys : System) (parm : Option NwmParmList)
    → Outcome sys parm (zis_nwm_service_function sys parm)
unfolding zis_nwm_service_function
zis_nwm_service_function-Outcome sys none = not_served-Outcome sys none 8 (inl (refl, refl))
zis_nwm_service_function-Outcome sys (some list) =
    elim (Bool-cases (bytes_eq list.eyecatcher nwm_parmlist_eyecatcher)) [
      | inr e ↦
          let refused : zis_nwm_service_function sys (some list) ≡ not_served 9 =
            rw (e, zis_nwm_service_function) in
          carried sys (some list) refused (
            not_served-Outcome sys (some list) 9
              (inr (list, refl, inl (refl, λ h. other_eye list e h))))
      | inl e ↦ elim (Option-cases list.nmi_buffer) [
        | inl b ↦
            let refused : zis_nwm_service_function sys (some list) ≡ not_served 10 =
              rw (e, b, zis_nwm_service_function) in
            carried sys (some list) refused
              (not_served-Outcome sys (some list) 10 (inr (list, refl, inr (inl (refl, b)))))
        | inr (buffer, b) ↦
            let passed : zis_nwm_service_function sys (some list)
                ≡ with_local_buffer sys list buffer =
              rw (e, b, zis_nwm_service_function) in
            carried sys (some list) passed (
              with_local_buffer-Outcome sys list buffer
                ((bytes_eq_iff list.eyecatcher nwm_parmlist_eyecatcher).0 e) b)
      ]
    ]
