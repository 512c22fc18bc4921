-- ===== src/Core/Snarfer/Copies.antt =====
-- What the copy from another address space leaves.
use mathlib.Core.Path.{subst}
use zss.Prelude.{
  ℕ, sym, ◌≤◌, ◌+◌, ◌≡◌, ◌≢◌, ◌⊎◌, refl, ap, inl, inr, Option, none, some, [], ◌∷◌, Bytes, true,
  false, bytes_eq_iff, ◌==◌, ==_iff, arith, take, Bool-cases, Option-cases,
}
use zss.Core.Snarfer.{
  SnarferParmList, TransferBuffer, Guarded, ran, abended, recovery_error, SrbEnd, System, allocated,
  freed, Snarfed, Ended, returned, percolated, is_cancel, copy_to_caller,
  snarfer_parmlist_eyecatcher, check_parm_list, allocate_transfer_buffer, copy_by_srb, copy_from,
  find_source, zis_snarfer_service_function,
}

abbrev pub HasReturned : Snarfed → Type 0
HasReturned end = (rc : ℕ) × (end.ended ≡ returned rc)

-- The abend of the copy to the caller percolated.
abbrev pub HasPercolated : Option ℕ → Snarfed → ℕ → Type 0
HasPercolated copy_abend end code = (end.ended ≡ percolated code) × (copy_abend ≡ some code)

-- No common storage was allocated and the call returned; or one block was, which was then freed
-- once with its own size, and the call returned or was cancelled in the copy to the caller; or an
-- abend of this copy that is no cancel percolated, and the block was not freed.
abbrev pub IsSettled : Option ℕ → Snarfed → Type 0
IsSettled copy_abend end =
    ((end.trace ≡ []) × HasReturned end)
    ⊎ ((size : ℕ) × (end.trace ≡ allocated size ∷ freed size ∷ [])
        × (HasReturned end
            ⊎ ((code : ℕ) × HasPercolated copy_abend end code × (is_cancel code ≡ true))))
    ⊎ ((size : ℕ) × (code : ℕ) × (end.trace ≡ allocated size ∷ [])
        × HasPercolated copy_abend end code
        × (is_cancel code ≡ false))

-- How the copy to the caller of a request abends, if it does.
abbrev pub copy_abend_of : System → Option SnarferParmList → Option ℕ
copy_abend_of sys none = none
copy_abend_of sys (some list) = sys.copy_abend list.destination_address

-- What an SRB, which was scheduled without an error, left in a new buffer is copied to the caller.
abbrev pub IsCopied : System → SnarferParmList → Snarfed → Type 0
IsCopied sys list end =
    (assb : ℕ) × (buffer : TransferBuffer) × (srb_end : SrbEnd) × (sys.assb list.source_ascb
      ≡ ran assb)
    × (allocate_transfer_buffer sys.ecsa list ≡ some buffer)
    × (sys.srb assb buffer ≡ ran srb_end)
    × (srb_end.ieamschd_rc ≡ 0)
    × (end.copied ≡ some (list.destination_address, take list.size srb_end.contents))

abbrev pub Copies : System → SnarferParmList → Snarfed → Type 0
Copies sys list end =
    ((end.copied ≡ none) × (end.ended ≢ returned 0))
    ⊎ ((end.ended ≡ returned 0) × IsCopied sys list end)

-- A parameter list that passes the checks.
abbrev pub IsAllowed : System → SnarferParmList → Type 0
IsAllowed sys list =
    (list.eyecatcher ≡ snarfer_parmlist_eyecatcher)
    × (24576 ≤ list.destination_address)
    × (list.source_ascb ≢ 0)
    × (list.size ≤ sys.max_ecsa_block_size)

Guarded-cases {ℓ} :
    {A : Type ℓ} (g : Guarded A)
    → ((a : A) × (g ≡ ran a)) ⊎ ((cc : ℕ) × (g ≡ abended cc)) ⊎ (g ≡ recovery_error)
Guarded-cases (ran a) = inl (a, refl)
Guarded-cases (abended cc) = inr (inl (cc, refl))
Guarded-cases recovery_error = inr (inr refl)

-- The same of the part behind the allocation.
abbrev IsReleased : Option ℕ → TransferBuffer → Snarfed → Type 0
IsReleased copy_abend buffer end =
    ((end.trace ≡ freed (32 + buffer.copy_size) ∷ [])
      × (HasReturned end
          ⊎ ((code : ℕ) × HasPercolated copy_abend end code × (is_cancel code ≡ true))))
    ⊎ ((cc : ℕ) × (end.trace ≡ []) × HasPercolated copy_abend end cc × (is_cancel cc ≡ false))

code_of : Ended → ℕ
code_of (returned rc) = rc
code_of (percolated cc) = 1

returned-ne : (rc : ℕ) → rc ≢ 0 → returned rc ≢ returned 0
unfolding code_of
returned-ne rc h e = h (ap code_of e)

percolated-ne : (cc : ℕ) → percolated cc ≢ returned 0
unfolding code_of
percolated-ne cc e = let f : 1 ≡ 0 = ap code_of e in ground (arith, f)

copy_to_caller-cases :
    (copy_abend : ℕ → Option ℕ) (list : SnarferParmList) (buffer : TransferBuffer)
    (contents : Bytes)
    → (((copy_to_caller copy_abend list buffer contents).copied ≡ none)
        × ((copy_to_caller copy_abend list buffer contents).ended ≢ returned 0))
      ⊎ (((copy_to_caller copy_abend list buffer contents).ended ≡ returned 0)
          × ((copy_to_caller copy_abend list buffer contents).copied
              ≡ some (list.destination_address, take list.size contents)))
unfolding copy_to_caller
copy_to_caller-cases copy_abend list buffer contents =
    elim (Option-cases (copy_abend list.destination_address)) [
      | inl e ↦ inr (rw (e, copy_to_caller), rw (e, copy_to_caller))
      | inr (code, e) ↦ inl (rw (e, copy_to_caller), rw (e, copy_to_caller) (percolated-ne code))
    ]

copy_by_srb-cases :
    (copy_abend : ℕ → Option ℕ) (reply : Guarded SrbEnd) (list : SnarferParmList)
    (buffer : TransferBuffer)
    → (((copy_by_srb copy_abend reply list buffer).copied ≡ none)
        × ((copy_by_srb copy_abend reply list buffer).ended ≢ returned 0))
      ⊎ (((copy_by_srb copy_abend reply list buffer).ended ≡ returned 0)
          × ((srb_end : SrbEnd) × (reply ≡ ran srb_end)
              × (srb_end.ieamschd_rc ≡ 0)
              × ((copy_by_srb copy_abend reply list buffer).copied
                  ≡ some (list.destination_address, take list.size srb_end.contents))))
unfolding copy_by_srb
copy_by_srb-cases copy_abend (ran srb_end) list buffer =
    elim (Bool-cases (srb_end.ieamschd_rc == 0)) [
      | inl e ↦ elim (copy_to_caller-cases copy_abend list buffer srb_end.contents) [
        | inl (copied, failed) ↦ inl (rw (e, copy_by_srb) copied, rw (e, copy_by_srb) failed)
        | inr (done, copied) ↦ inr (
          rw (e, copy_by_srb) done,
          (srb_end, refl, (==_iff srb_end.ieamschd_rc 0).0 e, rw (e, copy_by_srb) copied),
        )
      ]
      | inr e ↦
          inl (rw (e, copy_by_srb), rw (e, copy_by_srb) (returned-ne 17 (λ h. ground (arith, h))))
    ]
copy_by_srb-cases copy_abend (abended cc) list buffer =
    inl (refl, returned-ne 16 (λ h. ground (arith, h)))
copy_by_srb-cases copy_abend recovery_error list buffer =
    inl (refl, returned-ne 14 (λ h. ground (arith, h)))

copy_from-Copies :
    (sys : System) (list : SnarferParmList) (assb : ℕ)
    → sys.assb list.source_ascb ≡ ran assb
    → Copies sys list (copy_from sys list assb)
unfolding copy_from
copy_from-Copies sys list assb h = elim (Option-cases (allocate_transfer_buffer sys.ecsa list)) [
  | inl e ↦ inl (rw (e, copy_from), rw (e, copy_from) (returned-ne 13 (λ h. ground (arith, h))))
  | inr (buffer, e) ↦ elim (copy_by_srb-cases sys.copy_abend (sys.srb assb buffer) list buffer) [
    | inl (copied, failed) ↦ inl (rw (e, copy_from) copied, rw (e, copy_from) failed)
    | inr (done, (srb_end, reply, code, copied)) ↦ inr (
      rw (e, copy_from) done,
      (assb, buffer, srb_end, h, e, reply, code, rw (e, copy_from) copied),
    )
  ]
]

find_source-Copies :
    (sys : System) (list : SnarferParmList) → Copies sys list (find_source sys list)
unfolding find_source
find_source-Copies sys list = elim (Guarded-cases (sys.assb list.source_ascb)) [
  | inl (assb, e) ↦
      let found : find_source sys list ≡ copy_from sys list assb = rw (e, find_source) in
      subst (λ end. Copies sys list end) (sym found) (copy_from-Copies sys list assb e)
  | inr (inl (cc, e)) ↦
      inl (rw (e, find_source), rw (e, find_source) (returned-ne 15 (λ h. ground (arith, h))))
  | inr (inr e) ↦
      inl (rw (e, find_source), rw (e, find_source) (returned-ne 14 (λ h. ground (arith, h))))
]

check_parm_list-ok :
    (sys : System) (list : SnarferParmList)
    → check_parm_list sys.max_ecsa_block_size list ≡ 0
    → IsAllowed sys list
unfolding check_parm_list
check_parm_list-ok sys list h =
    ground (arith, h, (bytes_eq_iff list.eyecatcher snarfer_parmlist_eyecatcher).0)

-- The call does not return 0, and no copy to the caller is completed; or it returns 0, the parameter
-- list has its eyecatcher, a destination from 0x6000 on, an ASCB and a size of up to the largest
-- block, and what the SRB left in a new buffer is copied to the destination, up to the size.
pub zis_snarfer_service_function_lem :
    (sys : System) (parm : Option SnarferParmList)
    → (((zis_snarfer_service_function sys parm).copied ≡ none)
        × ((zis_snarfer_service_function sys parm).ended ≢ returned 0))
      ⊎ (((zis_snarfer_service_function sys parm).ended ≡ returned 0)
          × ((list : SnarferParmList) × (parm ≡ some list)
              × IsAllowed sys list
              × IsCopied sys list (zis_snarfer_service_function sys parm)))
unfolding zis_snarfer_service_function
zis_snarfer_service_function_lem sys none = inl (refl, returned-ne 8 (λ h. ground (arith, h)))
zis_snarfer_service_function_lem sys (some list) =
    let status = check_parm_list sys.max_ecsa_block_size list in
    elim (Bool-cases (status == 0)) [
      | inr e ↦ inl (
        rw (e, zis_snarfer_service_function),
        rw (e, zis_snarfer_service_function) (returned-ne status (λ h. ground (arith, e, h))),
      )
      | inl e ↦
          let allowed = check_parm_list-ok sys list ((==_iff status 0).0 e) in
          elim (Bool-cases sys.recovery_on) [
            | inr f ↦ inl (
              rw (e, f, zis_snarfer_service_function),
              rw (e, f, zis_snarfer_service_function) (returned-ne 14 (λ h. ground (arith, h))),
            )
            | inl f ↦ elim (find_source-Copies sys list) [
              | inl (copied, failed) ↦ inl (
                rw (e, f, zis_snarfer_service_function) copied,
                rw (e, f, zis_snarfer_service_function) failed,
              )
              | inr (done, copied) ↦ inr (
                rw (e, f, zis_snarfer_service_function) done,
                (list, refl, allowed, rw (e, f, zis_snarfer_service_function) copied),
              )
            ]
          ]
    ]
