-- ===== src/Aux/Host/Gate/Admission.antt =====
-- Which requests are scheduled.
use zss.Prelude.{
  ℕ, ◌≤◌, ◌≡◌, ◌≢◌, ◌⊎◌, ◌∙◌, ap, inl, inr, true, false, some, bytes_eq, bytes_eq_iff, ◌==◌, ==_iff,
  ltb, Bool-cases, Option-cases, arith,
}
use zss.Aux.Return.{
  rc_zisaux_ok, rc_zisaux_pc_parm_invalid, rc_zisaux_comm_area_invalid,
  rc_zisaux_comm_srvc_parm_invalid, rc_zisaux_unsupported_version, rc_zisaux_caller_not_recognized,
}
use zss.Aux.{
  ParmList, service_parm_eyecatcher, service_parm_version, func_command, func_work, func_term,
}
use zss.Aux.Host.{context_eyecatcher, PetQueue, Request, Answer, refused, Desk}
use zss.Aux.Host.Gate.{
  Target, PcParmList, pc_parm_eyecatcher, is_aux_context_valid, is_comm_service_parm_list_valid,
  is_caller_parent_server, schedule_comm_request_processing, check_service_parm_list, check_target,
  handle_unsafe_pcss,
}

-- A request that the host may serve: the lists and the context have their eyecatchers, the caller is the parent of the host, and
-- the list, as it was read first, asks for a known function in a known version.
pub record IsAdmissible (sasn : ℕ) (parm_list : PcParmList) (target : Target)
    (checked list : ParmList) : Type 0 where
  pub pc_eyecatcher : parm_list.eyecatcher ≡ pc_parm_eyecatcher
  pub latent : parm_list.latent_parm_list ≡ some target
  pub service : parm_list.service_parm_list ≡ some (checked, list)
  pub context : target.eyecatcher ≡ context_eyecatcher
  pub parent : target.parent_asid ≡ sasn
  pub eyecatcher : checked.eyecatcher ≡ service_parm_eyecatcher
  pub function :
      (checked.function ≡ func_command)
      ⊎ (checked.function ≡ func_work)
      ⊎ (checked.function ≡ func_term)
  pub version : checked.version ≤ service_parm_version

abbrev pub IsAdmitted : ℕ → PcParmList → Type 0
IsAdmitted sasn parm_list =
    (target : Target) × (checked : ParmList) × (list : ParmList) × IsAdmissible sasn parm_list
      target checked list

is_valid-true :
    (checked : ParmList)
    → is_comm_service_parm_list_valid checked ≡ true
    → (checked.eyecatcher ≡ service_parm_eyecatcher)
      × ((checked.function ≡ func_command)
          ⊎ (checked.function ≡ func_work)
          ⊎ (checked.function ≡ func_term))
unfolding is_comm_service_parm_list_valid
is_valid-true checked h =
    ground (arith, (bytes_eq_iff checked.eyecatcher service_parm_eyecatcher).0)

is_valid-false :
    (checked : ParmList)
    → is_comm_service_parm_list_valid checked ≡ false
    → checked.eyecatcher ≡ service_parm_eyecatcher
    → ((checked.function ≡ func_command)
        ⊎ (checked.function ≡ func_work)
        ⊎ (checked.function ≡ func_term))
    → ⊥
unfolding is_comm_service_parm_list_valid
is_valid-false checked h e f =
    ground (arith, e, f, (bytes_eq_iff checked.eyecatcher service_parm_eyecatcher).1)

module _ (t : PetQueue) (request : Request) where
  open t use {Queue}

  -- A request that may be served is scheduled; any other one is refused, and nothing changes.
  abbrev pub IsDecided : ℕ → Desk Queue → PcParmList → Desk Queue × Answer → Type 0
  IsDecided sasn desk parm_list outcome =
      ((target : Target) × (checked : ParmList) × (list : ParmList) × IsAdmissible sasn parm_list
          target checked list
        × (outcome ≡ schedule_comm_request_processing t request desk list))
      ⊎ ((¬ IsAdmitted sasn parm_list)
          × ((rc : ℕ) × (rc ≢ rc_zisaux_ok) × (outcome ≡ (desk, refused rc))))

  check_service_parm_list_lem :
      (desk : Desk Queue) (checked list : ParmList)
      → ((checked.eyecatcher ≡ service_parm_eyecatcher)
          × ((checked.function ≡ func_command)
              ⊎ (checked.function ≡ func_work)
              ⊎ (checked.function ≡ func_term))
          × (checked.version ≤ service_parm_version)
          × (check_service_parm_list t request desk checked list
              ≡ schedule_comm_request_processing t request desk list))
        ⊎ ((((checked.eyecatcher ≡ service_parm_eyecatcher)
                × ((checked.function ≡ func_command)
                    ⊎ (checked.function ≡ func_work)
                    ⊎ (checked.function ≡ func_term))
                × (checked.version ≤ service_parm_version))
              → ⊥)
            × ((rc : ℕ) × (rc ≢ rc_zisaux_ok)
                × (check_service_parm_list t request desk checked list ≡ (desk, refused rc))))
  unfolding check_service_parm_list
  check_service_parm_list_lem desk checked list =
      elim (Bool-cases (is_comm_service_parm_list_valid checked)) [
        | inr e ↦ inr (
          λ p. is_valid-false checked e p.0 p.1,
          (rc_zisaux_comm_srvc_parm_invalid, omega arith, rw (e, check_service_parm_list)),
        )
        | inl e ↦
            let (eye, function) = is_valid-true checked e in
            elim (Bool-cases (ltb service_parm_version checked.version)) [
              | inl f ↦ inr (
                λ p. let v = p.2 in ground arith,
                (
                  rc_zisaux_unsupported_version,
                  omega arith,
                  rw (e, check_service_parm_list) (rw (f, check_service_parm_list)),
                ),
              )
              | inr f ↦ inl (
                eye,
                function,
                ground arith,
                rw (e, check_service_parm_list) (rw (f, check_service_parm_list)),
              )
            ]
      ]

  check_target-IsDecided :
      (sasn : ℕ) (desk : Desk Queue) (parm_list : PcParmList) (target : Target)
      (checked list : ParmList)
      → parm_list.eyecatcher ≡ pc_parm_eyecatcher
      → parm_list.latent_parm_list ≡ some target
      → parm_list.service_parm_list ≡ some (checked, list)
      → IsDecided sasn desk parm_list (check_target t request sasn desk target checked list)
  unfolding check_target is_aux_context_valid is_caller_parent_server
  check_target-IsDecided sasn desk parm_list target checked list e f g =
      elim (Bool-cases (bytes_eq target.eyecatcher context_eyecatcher)) [
        | inr h ↦ inr (
          λ (target', checked', list', v).
              let i = v.latent in
              let j = v.context in
              let k = (bytes_eq_iff target.eyecatcher context_eyecatcher).1 in ground (arith, k),
          (rc_zisaux_comm_area_invalid, omega arith, rw (h, check_target)),
        )
        | inl h ↦ elim (Bool-cases (target.parent_asid == sasn)) [
          | inr k ↦ inr (
            λ (target', checked', list', v).
                let i = v.latent in
                let j = v.parent in ground (arith, ==_iff target.parent_asid sasn),
            (
              rc_zisaux_caller_not_recognized,
              omega arith,
              rw (h, check_target) (rw (k, check_target)),
            ),
          )
          | inl k ↦
              let same : check_target t request sasn desk target checked list
                  ≡ check_service_parm_list t request desk checked list =
                rw (h, check_target) (rw (k, check_target)) in
              elim (check_service_parm_list_lem desk checked list) [
                | inl (eye, function, version, i) ↦ inl (
                  target,
                  checked,
                  list,
                  record {
                    pc_eyecatcher = e;
                    latent = f;
                    service = g;
                    context = (bytes_eq_iff target.eyecatcher context_eyecatcher).0 h;
                    parent = (==_iff target.parent_asid sasn).0 k;
                    eyecatcher = eye;
                    function = function;
                    version = version;
                  },
                  same ∙ i,
                )
                | inr (bad, (rc, n, i)) ↦ inr (
                  λ (target', checked', list', v).
                      let j = v.service in
                      let c : checked ≡ checked' = ground arith in
                      bad (rw c (v.eyecatcher, v.function, v.version)),
                  (rc, n, same ∙ i),
                )
              ]
        ]
      ]

  -- A request is scheduled, with the list as it is read the second time, exactly if it is admissible: the lists and
  -- the context have their eyecatchers, the caller is the parent of the host, and the list as it was read first
  -- asks for a known function in a known version. Any other request is refused with a code that is not 0, and
  -- the host's state does not change.
  pub handle_unsafe_pcss-IsDecided :
      (sasn : ℕ) (desk : Desk Queue) (parm_list : PcParmList)
      → IsDecided sasn desk parm_list (handle_unsafe_pcss t request sasn desk parm_list)
  unfolding handle_unsafe_pcss is_aux_context_valid is_caller_parent_server
  handle_unsafe_pcss-IsDecided sasn desk parm_list =
      elim (Bool-cases (bytes_eq parm_list.eyecatcher pc_parm_eyecatcher)) [
        | inr e ↦ inr (
          λ (target, checked, list, v).
              let i = (bytes_eq_iff parm_list.eyecatcher pc_parm_eyecatcher).1 v.pc_eyecatcher in
              cc,
          (rc_zisaux_pc_parm_invalid, omega arith, rw (e, handle_unsafe_pcss)),
        )
        | inl e ↦ elim (Option-cases parm_list.latent_parm_list) [
          | inl f ↦ inr (
            λ (target, checked, list, v). let i = v.latent in cc,
            (
              rc_zisaux_pc_parm_invalid,
              omega arith,
              rw (e, handle_unsafe_pcss) (rw (f, handle_unsafe_pcss)),
            ),
          )
          | inr (target, f) ↦ elim (Option-cases parm_list.service_parm_list) [
            | inl g ↦ inr (
              λ (target, checked, list, v). let i = v.service in cc,
              (
                rc_zisaux_pc_parm_invalid,
                omega arith,
                rw (e, handle_unsafe_pcss)
                    (rw (f, handle_unsafe_pcss) (rw (g, handle_unsafe_pcss))),
              ),
            )
            | inr ((checked, list), g) ↦
                let same : handle_unsafe_pcss t request sasn desk parm_list
                    ≡ check_target t request sasn desk target checked list =
                  rw (e, handle_unsafe_pcss)
                    (rw (f, handle_unsafe_pcss) (rw (g, handle_unsafe_pcss))) in
                rw same (
                  check_target-IsDecided sasn desk parm_list target checked list
                    ((bytes_eq_iff parm_list.eyecatcher pc_parm_eyecatcher).0 e) f g)
          ]
        ]
      ]

  pub handle_unsafe_pcss-scheduled :
      (sasn : ℕ) (desk : Desk Queue) (parm_list : PcParmList) (target : Target)
      (checked list : ParmList)
      → IsAdmissible sasn parm_list target checked list
      → handle_unsafe_pcss t request sasn desk parm_list
        ≡ schedule_comm_request_processing t request desk list
  handle_unsafe_pcss-scheduled sasn desk parm_list target checked list v =
      elim (handle_unsafe_pcss-IsDecided sasn desk parm_list) [
        | inr (refusal, _) ↦ absurd (refusal (target, checked, list, v))
        | inl (target', checked', list', w, e) ↦
            let i = v.service in
            let j = w.service in
            let c : list' ≡ list = ground arith in
            e ∙ ap (schedule_comm_request_processing t request desk) c
      ]
