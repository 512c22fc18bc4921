-- ===== src/Core/Auth/Grants.antt =====
-- What an answer of the authorization service says about the checks of SAF.
use zss.Prelude.{
  ℕ, sym, ◌↔◌, if◌then◌else◌, ◌≤◌, ◌≡◌, ◌⊎◌, refl, ◌∙◌, ap, inl, inr, true, false, not, Option,
  none, some, [], ◌∷◌, length, Bytes, bytes_eq, bytes_eq_iff, bytes_eq_refl, ◌==◌, ==_iff, ltb,
  arith, Bool-cases,
}
use zss.Core.Auth.{
  SafStatus, AuthParmList, CreateCall, Saf, Checked, checked, check_abended, no_recovery,
  get_default_class_value, choose_class, after_check, handle_entity_check,
}

-- The environment that is made for the user of a check.
abbrev pub user_call : AuthParmList → CreateCall
user_call list = record {
  user_id = list.user_id;
  password = none;
  without_log = false;
  idt_len = none;
  appl = none;
}

-- The class that a check uses is the configured one, of up to 8 characters, and a caller who
-- names a class names that one.
abbrev pub IsClass : Option Bytes → AuthParmList → Bytes → Type 0
IsClass class_parm list class_name =
    (class_parm ≡ some class_name)
    × (length class_name ≤ 8)
    × ((list.class_name ≡ []) ⊎ (list.class_name ≡ class_name))

-- SAF makes the user's environment, permits the access to the entity in the configured class by
-- that environment, and deletes it.
abbrev pub IsGranted : Option Bytes → Saf → AuthParmList → Type 0
IsGranted class_parm saf list =
    (class_name : Bytes) × (status : SafStatus) × (access : ℕ) × IsClass class_parm list class_name
    × ((saf.create (user_call list)).status.saf_rc ≡ 0)
    × (saf.auth class_name list.entity list.access (saf.create (user_call list)).acee
        ≡ checked status access)
    × (status.saf_rc ≡ 0)
    × ((saf.delete (saf.create (user_call list)).acee).saf_rc ≡ 0)

get_default-ok :
    (class_parm : Option Bytes)
    → (get_default_class_value class_parm).0 ≡ 0
    → (value : Bytes) × (class_parm ≡ some value)
      × (length value ≤ 8)
      × (get_default_class_value class_parm ≡ (0, value))
unfolding get_default_class_value
get_default-ok none h = ground arith
get_default-ok (some value) h = elim (Bool-cases (ltb 8 (length value))) [
  | inl e ↦ ground (arith, e)
  | inr e ↦ (value, refl, ground (arith, e), rw (e, get_default_class_value))
]

empty_bytes : (b : Bytes) → (length b == 0) ≡ true → b ≡ []
empty_bytes [] h = refl
empty_bytes (x ∷ xs) h = ground (arith, h)

choose_class-ok :
    (class_parm : Option Bytes) (list : AuthParmList)
    → (choose_class class_parm list).0 ≡ 0
    → (class_name : Bytes) × IsClass class_parm list class_name
      × (choose_class class_parm list ≡ (0, class_name))
unfolding choose_class
choose_class-ok class_parm list h =
    let default = get_default_class_value class_parm in
    elim (Bool-cases (default.0 == 0)) [
      | inr e ↦ ground (arith, e, h)
      | inl e ↦
          let (value, p, bound, q) = get_default-ok class_parm ((==_iff default.0 0).0 e) in
          elim (Bool-cases (length list.class_name == 0)) [
            | inl f ↦ (value, (p, bound, inl (empty_bytes _ f)), rw (q, f, choose_class))
            | inr f ↦ elim (Bool-cases (bytes_eq list.class_name value)) [
              | inl g ↦ (
                value,
                (p, bound, inr ((bytes_eq_iff list.class_name value).0 g)),
                rw (q, f, g, choose_class),
              )
              | inr g ↦
                  let refused : choose_class class_parm list ≡ (20, []) =
                    rw (q, f, g, choose_class) in
                  ground (arith, h, ap (λ c. c.0) refused)
            ]
          ]
    ]

choose_class-class :
    (class_parm : Option Bytes) (list : AuthParmList) (class_name : Bytes)
    → IsClass class_parm list class_name
    → choose_class class_parm list ≡ (0, class_name)
unfolding choose_class get_default_class_value
choose_class-class class_parm list name (p, bound, inl e) =
    let short : ltb 8 (length name) ≡ false = ground (arith, bound) in
    rw (p, choose_class, get_default_class_value) (rw (short, e))
choose_class-class class_parm list name (p, bound, inr e) =
    let short : ltb 8 (length name) ≡ false = ground (arith, bound) in
    let same : bytes_eq name name ≡ true = bytes_eq_refl name in
    elim (Bool-cases (length name == 0)) [
      | inl f ↦ rw (p, choose_class, get_default_class_value) (rw (short, e, f))
      | inr f ↦ rw (p, choose_class, get_default_class_value) (rw (short, e, f, same))
    ]

checked-passed :
    (status : SafStatus) (access : ℕ) (list : AuthParmList)
    → status.saf_rc ≡ 0
    → (after_check (checked status access) list).0 ≡ 0
unfolding after_check
checked-passed status access list h = ground (arith, h)

after_check-ok :
    (reply : Checked) (list : AuthParmList)
    → (after_check reply list).0 ≡ 0
    → (status : SafStatus) × (access : ℕ) × (reply ≡ checked status access) × (status.saf_rc ≡ 0)
unfolding after_check
after_check-ok (checked status access) list h = (status, access, refl, ground arith)
after_check-ok (check_abended cc rsn) list h = ground arith
after_check-ok no_recovery list h = ground arith

entity-rc :
    (class_parm : Option Bytes) (saf : Saf) (list : AuthParmList)
    → (handle_entity_check class_parm saf list).rc ≡ (
        if not ((choose_class class_parm list).0 == 0)
        then (choose_class class_parm list).0
        else if not ((saf.create (user_call list)).status.saf_rc == 0)
        then 11
        else if (saf.delete (saf.create (user_call list)).acee).saf_rc == 0
        then (after_check
            (saf.auth
              (choose_class class_parm list).1
              list.entity
              list.access
              (saf.create (user_call list)).acee)
            list).0
        else 10)
unfolding handle_entity_check
entity-rc class_parm saf list = ground arith

-- An entity check returns 0 exactly if the class is the configured one, SAF makes the user's
-- environment, permits the access to the entity in that class by this environment, and deletes it.
pub handle_entity_check_lem :
    (class_parm : Option Bytes) (saf : Saf) (list : AuthParmList)
    → ((handle_entity_check class_parm saf list).rc ≡ 0) ↔ IsGranted class_parm saf list
handle_entity_check_lem class_parm saf list = (
  λ h.
      let all : ((choose_class class_parm list).0 ≡ 0)
          × ((saf.create (user_call list)).status.saf_rc ≡ 0)
          × ((saf.delete (saf.create (user_call list)).acee).saf_rc ≡ 0)
          × ((after_check
                (saf.auth (choose_class class_parm list).1 list.entity list.access
                  (saf.create (user_call list)).acee)
                list).0
              ≡ 0) =
        ground (arith, entity-rc class_parm saf list, h) in
      let (name, is_class, q) = choose_class-ok class_parm list all.0 in
      let (status, access, reply, passed) = after_check-ok _ list all.3 in
      (
        name,
        status,
        access,
        is_class,
        all.1,
        ap (λ c. saf.auth c list.entity list.access (saf.create (user_call list)).acee)
              (ap (λ c. c.1) (sym q))
            ∙ reply,
        passed,
        all.2,
      ),
  λ (name, status, access, is_class, made, reply, passed, deleted).
      let q = choose_class-class class_parm list name is_class in
      let permitted : (after_check
            (saf.auth (choose_class class_parm list).1 list.entity list.access
              (saf.create (user_call list)).acee)
            list).0
          ≡ 0 =
        ap
          (λ c.
            (after_check (saf.auth c.1 list.entity list.access (saf.create (user_call list)).acee)
              list).0)
          q
        ∙ ap (λ r. (after_check r list).0) reply
        ∙ checked-passed status access list passed in
      ground (arith, entity-rc class_parm saf list, ap (λ c. c.0) q, made, deleted, permitted),
)
