-- ===== src/Core/Auth/Environments.antt =====
-- The security environments that the authorization service makes and deletes.
use zss.Prelude.{
  ℕ, ◌≡◌, ◌≢◌, ◌⊎◌, refl, ap, inl, inr, Option, none, some, List, [], ◌∷◌, Bytes, bytes_eq,
  bytes_eq_iff, ◌==◌, arith, Bool-cases,
}
use zss.Core.Auth.{
  AuthParmList, CreateCall, Saf, AceeEvent, acee_created, acee_deleted, parmlist_eyecatcher,
  create_and_delete, handle_verify_user, handle_verify_password, handle_generate_token,
  choose_class, handle_entity_check, end_access, get_access_type, handle_access_retrieval, dispatch,
  zis_auth_service_function,
}

-- Nothing was made and the code is an error, or one environment was made and its deletion was
-- asked for, which SAF did if the code is 0.
abbrev pub Settles : Saf → ℕ → List AceeEvent → Type 0
Settles saf rc trace =
    ((trace ≡ []) × (rc ≢ 0))
    ⊎ ((acee : ℕ) × (trace ≡ acee_created acee ∷ acee_deleted acee ∷ [])
        × (rc ≡ 0 → (saf.delete acee).saf_rc ≡ 0))

create_and_delete-Settles :
    (saf : Saf) (call : CreateCall) (idt_len : ℕ → ℕ) (list : AuthParmList)
    → Settles saf
        (create_and_delete saf call idt_len list).rc
        (create_and_delete saf call idt_len list).trace
unfolding create_and_delete
create_and_delete-Settles saf call idt_len list =
    elim (Bool-cases ((saf.create call).status.saf_rc == 0)) [
      | inr e ↦ inl (rw (e, create_and_delete), λ h. ground (arith, e, h))
      | inl e ↦ inr ((saf.create call).acee, rw (e, create_and_delete), λ h. ground (arith, e, h))
    ]

handle_verify_user-Settles :
    (saf : Saf) (list : AuthParmList)
    → Settles saf (handle_verify_user saf list).rc (handle_verify_user saf list).trace
unfolding handle_verify_user
handle_verify_user-Settles saf list = ground (arith, create_and_delete-Settles saf _ _ list)

handle_verify_password-Settles :
    (saf : Saf) (list : AuthParmList)
    → Settles saf (handle_verify_password saf list).rc (handle_verify_password saf list).trace
unfolding handle_verify_password
handle_verify_password-Settles saf list = ground (arith, create_and_delete-Settles saf _ _ list)

handle_generate_token-Settles :
    (saf : Saf) (list : AuthParmList)
    → Settles saf (handle_generate_token saf list).rc (handle_generate_token saf list).trace
unfolding handle_generate_token
handle_generate_token-Settles saf list = ground (arith, create_and_delete-Settles saf _ _ list)

handle_entity_check-Settles :
    (class_parm : Option Bytes) (saf : Saf) (list : AuthParmList)
    → Settles saf
        (handle_entity_check class_parm saf list).rc
        (handle_entity_check class_parm saf list).trace
unfolding handle_entity_check
handle_entity_check-Settles class_parm saf list = ground arith

end_access-Settles :
    (saf : Saf) (acee rc : ℕ) (list : AuthParmList)
    → Settles saf (end_access saf acee rc list).rc (end_access saf acee rc list).trace
unfolding end_access
end_access-Settles saf acee rc list = ground arith

get_access_type-Settles :
    (saf : Saf) (class_name : Bytes) (list : AuthParmList)
    → Settles saf
        (get_access_type saf class_name list).rc
        (get_access_type saf class_name list).trace
unfolding get_access_type
get_access_type-Settles saf class_name list = ground (arith, end_access-Settles saf _ _ _)

handle_access_retrieval-Settles :
    (class_parm : Option Bytes) (saf : Saf) (list : AuthParmList)
    → Settles saf
        (handle_access_retrieval class_parm saf list).rc
        (handle_access_retrieval class_parm saf list).trace
unfolding handle_access_retrieval
handle_access_retrieval-Settles class_parm saf list =
    ground (arith, get_access_type-Settles saf (choose_class class_parm list).1 list)

dispatch-Settles :
    (class_parm : Option Bytes) (saf : Saf) (list : AuthParmList)
    → Settles saf (dispatch class_parm saf list).rc (dispatch class_parm saf list).trace
unfolding dispatch
dispatch-Settles class_parm saf list = ground (
  arith,
  handle_verify_user-Settles saf list,
  handle_verify_password-Settles saf list,
  handle_generate_token-Settles saf list,
  handle_entity_check-Settles class_parm saf list,
  handle_access_retrieval-Settles class_parm saf list,
)

-- Whatever is asked for: no environment is made and the code is an error, or one environment is
-- made and its deletion is asked for. If the code is 0, then a list with the right eyecatcher was
-- given, an environment was made, and SAF deleted it.
pub zis_auth_service_function-Settles :
    (class_parm : Option Bytes) (saf : Saf) (parm : Option AuthParmList)
    → Settles saf
        (zis_auth_service_function class_parm saf parm).0
        (zis_auth_service_function class_parm saf parm).2
      × ((zis_auth_service_function class_parm saf parm).0 ≡ 0
          → (list : AuthParmList) × (parm ≡ some list) × (list.eyecatcher ≡ parmlist_eyecatcher))
unfolding zis_auth_service_function
zis_auth_service_function-Settles class_parm saf none = ground arith
zis_auth_service_function-Settles class_parm saf (some list) =
    elim (Bool-cases (bytes_eq list.eyecatcher parmlist_eyecatcher)) [
      | inr e ↦
          let refused : zis_auth_service_function class_parm saf (some list) ≡ (9, none, []) =
            rw (e, zis_auth_service_function) in
          (
            inl (ap (λ r. r.2) refused, λ h. ground (arith, h, ap (λ r. r.0) refused)),
            λ h. ground (arith, h, ap (λ r. r.0) refused),
          )
      | inl e ↦ (
        rw (e, zis_auth_service_function) (dispatch-Settles class_parm saf list),
        λ h. (list, refl, (bytes_eq_iff list.eyecatcher parmlist_eyecatcher).0 e),
      )
    ]
