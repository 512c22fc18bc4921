-- ===== src/Aux/Host/Boot/Order.antt =====
-- In which order a host does its work, and which flags it leaves.
use zss.Prelude.{
  ℕ, ◌≡◌, ◌≢◌, ◌⊎◌, refl, inl, inr, true, false, List, [], ◌∷◌, ◌==◌, ==_iff, if◌then◌else◌,
  Bool-cases, arith,
}
use zss.Aux.Return.{rc_zisaux_ok, rc_zisaux_error}
use zss.Aux.Host.Worker.{Context}
use zss.Aux.Host.Boot.{
  Hooks, call_hook, Event, guest_started, guest_ended, base_shut_down, ready_set, term_set,
  main_loop_done, set_ready_flag, set_term_flag, run_main_loop, run_guest,
}

-- The guest did not start: nothing else was done.
abbrev IsUnstarted : Context → ℕ × Context × List Event → Type 0
IsUnstarted context outcome =
    (outcome.0 ≢ rc_zisaux_ok) × (outcome.1 ≡ context) × (outcome.2 ≡ guest_started ∷ [])

-- The guest ran, and its end failed.
abbrev IsHalfEnded : ℕ × Context × List Event → Type 0
IsHalfEnded outcome =
    (outcome.0 ≢ rc_zisaux_ok)
    × (outcome.1.master_comm_area.ready ≡ false)
    × (outcome.2
        ≡ guest_started ∷ ready_set true ∷ main_loop_done ∷ ready_set false ∷ guest_ended ∷ [])

-- The guest ran and ended.
abbrev IsEnded : ℕ × Context × List Event → Type 0
IsEnded outcome =
    (outcome.1.master_comm_area.ready ≡ false)
    × (outcome.1.master_comm_area.terminated ≡ true)
    × (((outcome.0 ≡ rc_zisaux_ok) × (outcome.1.term_command_received ≡ true))
        ⊎ ((outcome.0 ≡ rc_zisaux_error) × (outcome.1.term_command_received ≡ false)))
    × (outcome.2
        ≡ guest_started
          ∷ ready_set true
          ∷ main_loop_done
          ∷ ready_set false
          ∷ guest_ended
          ∷ base_shut_down
          ∷ term_set true
          ∷ [])

-- A host runs its guest in one of three ways. The guest's start fails, and nothing else is done. Or the ready flag is set
-- during the main loop and only then, the guest's end is called behind it and fails, and the terminated flag is not set. Or the
-- end succeeds, the tasks are shut down, and the terminated flag is set last; the return code is then 0 exactly if a
-- request to terminate was received.
run_guest_lem :
    (hooks : Hooks) (main_loop : Context → Context) (context : Context)
    → ((call_hook hooks.init ≢ rc_zisaux_ok)
        × IsUnstarted context (run_guest hooks main_loop context))
      ⊎ ((call_hook hooks.init ≡ rc_zisaux_ok)
          × (call_hook hooks.term ≢ rc_zisaux_ok)
          × IsHalfEnded (run_guest hooks main_loop context))
      ⊎ ((call_hook hooks.init ≡ rc_zisaux_ok)
          × (call_hook hooks.term ≡ rc_zisaux_ok)
          × IsEnded (run_guest hooks main_loop context))
unfolding run_guest run_main_loop set_ready_flag set_term_flag
run_guest_lem hooks main_loop context = elim (Bool-cases (call_hook hooks.init == rc_zisaux_ok)) [
  | inr e ↦ inl (
    ground (arith, ==_iff (call_hook hooks.init) rc_zisaux_ok),
    rw (e, run_guest) (ground (arith, ==_iff (call_hook hooks.init) rc_zisaux_ok), refl, refl),
  )
  | inl e ↦
      let after = main_loop (set_ready_flag (record context { guest_initialized = true }) true) in
      let i = (==_iff (call_hook hooks.init) rc_zisaux_ok).0 e in
      elim (Bool-cases (call_hook hooks.term == rc_zisaux_ok)) [
        | inr f ↦
            let n : call_hook hooks.term ≢ rc_zisaux_ok =
              ground (arith, ==_iff (call_hook hooks.term) rc_zisaux_ok) in
            let bad : call_hook hooks.term ≢ rc_zisaux_ok
                → (if (if after.term_command_received then rc_zisaux_ok else rc_zisaux_error)
                      == rc_zisaux_ok
                    then call_hook hooks.term
                    else if after.term_command_received
                    then rc_zisaux_ok
                    else rc_zisaux_error)
                  ≢ rc_zisaux_ok =
              λ n. elim (Bool-cases after.term_command_received) [
                | inl g ↦ rw g n
                | inr g ↦ rw g (omega arith)
              ] in
            inr (inl (i, n, rw (e, run_guest) (rw (f, run_main_loop) (bad n, refl, refl))))
        | inl f ↦
            let j = (==_iff (call_hook hooks.term) rc_zisaux_ok).0 f in
            let code : (((if after.term_command_received then rc_zisaux_ok else rc_zisaux_error)
                    ≡ rc_zisaux_ok)
                  × (after.term_command_received ≡ true))
                ⊎ (((if after.term_command_received then rc_zisaux_ok else rc_zisaux_error)
                      ≡ rc_zisaux_error)
                    × (after.term_command_received ≡ false)) =
              elim (Bool-cases after.term_command_received) [
                | inl g ↦ inl (rw g refl, g)
                | inr g ↦ inr (rw g refl, g)
              ] in
            inr (inr (i, j, rw (e, run_guest) (rw (f, run_main_loop) (refl, refl, code, refl))))
      ]
]
