-- ===== src/Tss/Trailing.antt =====
-- The length of a value without what fills the rest of its field.
use zss.Prelude.{
  ℕ, zero, suc, ◌≡◌, refl, ◌⊎◌, inl, inr, Bool, true, false, ◌||◌, none, some, [], ◌∷◌, length,
  get_elem?, drop, Bytes, All, ◌==◌, arith, Bool-cases, Option-cases,
}
use zss.Tss.{actual_value_length, tss_get_actual_value_length}

-- A blank or a NUL.
abbrev pub is_padding : ℕ → Bool
is_padding c = c == b' ' || c == 0

abbrev ArePadding : Bytes → Type 0
ArePadding = All (λ c. is_padding c ≡ true)

-- The value is n bytes long: its last byte is no padding, and all behind it are.
record IsValueLength (str : Bytes) (n : ℕ) : Type 0 where
  pub before : ℕ
  pub length_eq : n ≡ suc before
  pub last : ℕ
  pub last_at : get_elem? str before ≡ some last
  pub last_is_value : is_padding last ≡ false
  pub rest : ArePadding (drop n str)

drop-ArePadding :
    (str : Bytes) (n c : ℕ)
    → get_elem? str n ≡ some c
    → is_padding c ≡ true
    → ArePadding (drop (suc n) str)
    → ArePadding (drop n str)
drop-ArePadding [] n c e p a = ground arith
drop-ArePadding (x ∷ str) zero c e p a = ground arith
drop-ArePadding (x ∷ str) (suc n) c e p a = drop-ArePadding str n c e p a

drop_past : (str : Bytes) (n : ℕ) → get_elem? str n ≡ none → ArePadding (drop n str)
drop_past [] zero e = tt
drop_past [] (suc n) e = tt
drop_past (x ∷ str) zero e = ground arith
drop_past (x ∷ str) (suc n) e = drop_past str n e

actual_value_length_lem :
    (str : Bytes) (n : ℕ)
    → ArePadding (drop n str)
    → ((actual_value_length str n ≡ none) × ArePadding str)
      ⊎ ((m : ℕ) × (actual_value_length str n ≡ some m) × IsValueLength str m)
unfolding actual_value_length
actual_value_length_lem str zero a = inl (refl, a)
actual_value_length_lem str (suc n) a = elim (Option-cases (get_elem? str n)) [
  | inl e ↦ rw (e, actual_value_length) (actual_value_length_lem str n (drop_past str n e))
  | inr (c, e) ↦ elim (Bool-cases (is_padding c)) [
    | inl p ↦
        let ih = actual_value_length_lem str n (drop-ArePadding str n c e p a) in
        let same : actual_value_length str (suc n) ≡ actual_value_length str n =
          rw (e, actual_value_length) (ground arith) in
        rw same ih
    | inr p ↦ inr (
      suc n,
      rw (e, actual_value_length) (ground arith),
      record { before = n; length_eq = refl; last = c; last_at = e; last_is_value = p; rest = a },
    )
  ]
]

drop-length : (str : Bytes) → ArePadding (drop (length str) str)
drop-length [] = tt
drop-length (x ∷ str) = drop-length str

-- The length of a value is up to its last byte that is neither a blank nor a NUL; there is none
-- exactly if all bytes are padding.
tss_get_actual_value_length_lem :
    (str : Bytes)
    → ((tss_get_actual_value_length str ≡ none) × ArePadding str)
      ⊎ ((m : ℕ) × (tss_get_actual_value_length str ≡ some m) × IsValueLength str m)
unfolding tss_get_actual_value_length
tss_get_actual_value_length_lem str = actual_value_length_lem str (length str) (drop-length str)
