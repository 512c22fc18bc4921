-- ===== src/Aux/Host/Gate/Accounting.antt =====
-- What a request costs the host: its free PETs.
use zss.Prelude.{
  ℕ, zero, suc, ◌+◌, ◌-◌, ◌≤◌, ◌≡◌, ◌≢◌, ◌⊎◌, ◌∙◌, refl, sym, ap, inl, inr, Bool, true, false, some,
  List, [], ◌∷◌, length, All, ◌==◌, Bool-cases, Option-cases, arith,
}
use mathlib.Core.Option.{some-injective}
use zss.Aux.Return.{rc_zisaux_ok, rc_zisaux_request_limit_reached, rc_zisaux_shr64_error}
use zss.Aux.{Buffer, ParmList}
use zss.Aux.Host.{max_request_count, PetQueue, released, Request, refused, answered, Desk}
use zss.Aux.Host.Gate.{
  access_buffer, copy_service_parm_list, leave_buffer, clean_service_parm_list_copy, is_pet_valid,
  status_of_release, finish_request, resume_caller, make_request_pets,
  schedule_comm_request_processing,
}

-- A request that fails behind the removal of its PET from the queue: access to the object of
-- its payload is denied, or there is no storage for the work element.
abbrev pub IsDoomed : Request → ParmList → Type 0
IsDoomed request list =
    ((a : ℕ) × (list.payload.address ≡ some a) × (request.get_access a ≡ false))
    ⊎ (request.has_storage ≡ false)

-- A request whose work is done: its PET is valid, access is given and taken back, there is
-- storage, and the caller is released.
pub record IsWorked (request : Request) (list : ParmList) (code : ℕ) (list' : ParmList)
    : Type 0 where
  pub valid : (pet : ℕ) → request.pe_test pet ≡ some false
  pub access : (a : ℕ) → request.get_access a ≡ true
  pub access_end : (a : ℕ) → request.remove_access a ≡ true
  pub storage : request.has_storage ≡ true
  pub done : request.work list ≡ released code list'

access_buffer-doomed :
    (request : Request) (accesses : List ℕ) (buffer : Buffer) (a : ℕ)
    → buffer.address ≡ some a
    → request.get_access a ≡ false
    → (access_buffer request accesses buffer).0 ≡ false
unfolding access_buffer
access_buffer-doomed request accesses buffer a e f = rw (e, access_buffer) (rw (f, access_buffer))

access_buffer-given :
    (request : Request) (accesses : List ℕ) (buffer : Buffer)
    → ((a : ℕ) → request.get_access a ≡ true)
    → (access_buffer request accesses buffer).0 ≡ true
unfolding access_buffer
access_buffer-given request accesses buffer given = elim (Option-cases buffer.address) [
  | inl e ↦ rw (e, access_buffer)
  | inr (a, e) ↦ rw (e, access_buffer) (rw (given a, access_buffer))
]

leave_buffer-given :
    (request : Request) (accesses : List ℕ) (buffer : Buffer)
    → ((a : ℕ) → request.remove_access a ≡ true)
    → (leave_buffer request accesses buffer).0 ≡ true
unfolding leave_buffer
leave_buffer-given request accesses buffer given = elim (Option-cases buffer.address) [
  | inl e ↦ rw (e, leave_buffer)
  | inr (a, e) ↦ rw (e, leave_buffer) (rw (given a, leave_buffer))
]

copy-doomed :
    (request : Request) (accesses : List ℕ) (list : ParmList) (a : ℕ)
    → list.payload.address ≡ some a
    → request.get_access a ≡ false
    → (copy_service_parm_list request accesses list).0 ≡ rc_zisaux_shr64_error
unfolding copy_service_parm_list
copy-doomed request accesses list a e f =
    rw (access_buffer-doomed request accesses list.payload a e f)

copy-given :
    (request : Request) (accesses : List ℕ) (list : ParmList)
    → ((a : ℕ) → request.get_access a ≡ true)
    → (copy_service_parm_list request accesses list).0 ≡ rc_zisaux_ok
unfolding copy_service_parm_list
copy-given request accesses list given =
    rw (access_buffer-given request accesses list.payload given)
      (rw (access_buffer-given request _ list.response given))

clean-given :
    (request : Request) (accesses : List ℕ) (list : ParmList)
    → ((a : ℕ) → request.remove_access a ≡ true)
    → (clean_service_parm_list_copy request accesses list).0 ≡ rc_zisaux_ok
unfolding clean_service_parm_list_copy
clean-given request accesses list given =
    rw (leave_buffer-given request accesses list.payload given)
      (rw (leave_buffer-given request _ list.response given))

module _ (t : PetQueue) where
  open t use {Queue, insert, remove, size, size-insert, size-remove}

  finish-pets :
      (request : Request) (desk : Desk Queue) (status : ℕ) (list : ParmList)
      → (finish_request request desk status list).0.available_pets ≡ desk.available_pets
  unfolding finish_request
  finish-pets request desk status list = refl

  -- A request that is doomed costs the host one PET, or finds none.
  pub schedule-doomed :
      (request : Request) (desk : Desk Queue) (list : ParmList)
      → IsDoomed request list
      → size (schedule_comm_request_processing t request desk list).0.available_pets
        ≡ size desk.available_pets - 1
  unfolding schedule_comm_request_processing
  schedule-doomed request desk list d = elim (size-remove desk.available_pets) [
    | inl (e, n) ↦ rw (e, schedule_comm_request_processing) (omega arith)
    | inr (pet, rest, e, n) ↦
        let gone : size rest ≡ size desk.available_pets - 1 = omega arith in
        elim (Bool-cases (is_pet_valid request pet)) [
          | inr f ↦
              rw (e, schedule_comm_request_processing)
                (rw (f, schedule_comm_request_processing) gone)
          | inl f ↦
              rw (e, schedule_comm_request_processing)
                (rw (f, schedule_comm_request_processing)
                  (elim (Bool-cases
                    ((copy_service_parm_list request desk.accesses list).0 == rc_zisaux_ok)) [
                      | inr g ↦ rw (g, schedule_comm_request_processing) gone
                      | inl g ↦
                          rw (g, schedule_comm_request_processing)
                            (elim d [
                              | inl (a, h, i) ↦ absurd (
                                  let j = copy-doomed request desk.accesses list a h i in
                                  ground arith)
                              | inr h ↦ rw (h, schedule_comm_request_processing) gone
                            ])
                    ]))
        ]
  ]

  resume-released :
      (request : Request) (desk : Desk Queue) (pet code : ℕ) (list : ParmList)
      → ((a : ℕ) → request.remove_access a ≡ true)
      → ((resume_caller t request desk pet (released code list)).1
          ≡ answered (status_of_release code list.aux_rc) list)
        × (size (resume_caller t request desk pet (released code list)).0.available_pets
            ≡ suc (size desk.available_pets))
  unfolding resume_caller finish_request
  resume-released request desk pet code list given =
      (rw (clean-given request desk.accesses list given), size-insert desk.available_pets pet)

  -- A request whose work is done is answered: the caller gets the status that its release stands for and the list
  -- that the work left, and the host has as many free PETs as before.
  pub schedule-worked :
      (request : Request) (desk : Desk Queue) (list list' : ParmList) (code : ℕ)
      → size desk.available_pets ≢ 0
      → IsWorked request list code list'
      → ((schedule_comm_request_processing t request desk list).1
          ≡ answered (status_of_release code list'.aux_rc) list')
        × (size (schedule_comm_request_processing t request desk list).0.available_pets
            ≡ size desk.available_pets)
  unfolding schedule_comm_request_processing is_pet_valid
  schedule-worked request desk list list' code some_free w =
      elim (size-remove desk.available_pets) [
        | inl (e, n) ↦ absurd (some_free n)
        | inr (pet, rest, e, n) ↦
            let accesses = (copy_service_parm_list request desk.accesses list).1 in
            let desk' : Desk Queue = record { available_pets = rest; accesses = accesses } in
            let same : schedule_comm_request_processing t request desk list
                ≡ resume_caller t request desk' pet (released code list') =
              rw (e, schedule_comm_request_processing)
                (rw (w.valid pet, is_pet_valid)
                  (rw (copy-given request desk.accesses list w.access)
                    (rw w.storage (rw w.done refl)))) in
            let (answer, pets) = resume-released request desk' pet code list' w.access_end in
            (ap (λ r. r.1) same ∙ answer, ap (λ r. size r.0.available_pets) same ∙ pets ∙ sym n)
      ]

  -- One request after the other.
  abbrev pub after_requests : List (Request × ParmList) → Desk Queue → Desk Queue
  after_requests [] desk = desk
  after_requests ((request, list) ∷ rest) desk =
      after_requests rest (schedule_comm_request_processing t request desk list).0

  after-doomed :
      (requests : List (Request × ParmList)) (desk : Desk Queue)
      → All (λ r. IsDoomed r.0 r.1) requests
      → size (after_requests requests desk).available_pets
        ≡ size desk.available_pets - length requests
  after-doomed [] desk d = omega arith
  after-doomed ((request, list) ∷ rest) desk d =
      let i = after-doomed rest (schedule_comm_request_processing t request desk list).0 d.1 in
      let j = schedule-doomed request desk list d.0 in omega arith

  make_request_pets-size :
      (pe_alloc : ℕ → Bool) (n i : ℕ) (queue filled : Queue)
      → make_request_pets t pe_alloc n i queue ≡ some filled
      → size filled ≡ size queue + n
  unfolding make_request_pets
  make_request_pets-size pe_alloc zero i queue filled e =
      let f = ap size (some-injective _ _ e) in omega arith
  make_request_pets-size pe_alloc (suc n) i queue filled e = elim (Bool-cases (pe_alloc i)) [
    | inl g ↦
        let h =
          make_request_pets-size pe_alloc n (i + 1) (insert queue i) filled
            (rw (g, make_request_pets) at e) in
        let k = size-insert queue i in omega arith
    | inr g ↦ absurd (let h = rw (g, make_request_pets) at e in cc)
  ]

  -- A new host has 16 free PETs.
  pub make_request_pets-full :
      (pe_alloc : ℕ → Bool) (filled : Queue)
      → make_request_pets t pe_alloc max_request_count 0 t.empty ≡ some filled
      → size filled ≡ max_request_count
  make_request_pets-full pe_alloc filled e =
      let h = make_request_pets-size pe_alloc max_request_count 0 t.empty filled e in
      let k = t.size-empty in omega arith

  -- After as many doomed requests as the host has free PETs, every request is refused for good: the request
  -- limit is reached, although no request is in progress, and the host's state stays as it is.
  pub schedule-exhausted :
      (requests : List (Request × ParmList)) (desk : Desk Queue) (request : Request)
      (list : ParmList)
      → All (λ r. IsDoomed r.0 r.1) requests
      → size desk.available_pets ≤ length requests
      → schedule_comm_request_processing t request (after_requests requests desk) list
        ≡ (after_requests requests desk, refused rc_zisaux_request_limit_reached)
  unfolding schedule_comm_request_processing
  schedule-exhausted requests desk request list d l =
      let n = after-doomed requests desk d in
      elim (size-remove (after_requests requests desk).available_pets) [
        | inl (e, m) ↦ rw (e, schedule_comm_request_processing)
        | inr (pet, rest, e, m) ↦ absurd (let z : ⊥ = omega arith in z)
      ]
