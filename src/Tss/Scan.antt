-- ===== src/Tss/Scan.antt =====
-- The scans over a line, against plain descriptions.
use zss.Prelude.{
  ℕ, zero, suc, ◌+◌, ◌-◌, ◌≡◌, refl, ◌↔◌, true, [], ◌∷◌, length, Bytes, has_prefix, All,
  if◌then◌else◌, arith,
}
use zss.Tss.{tss_key_delimiter, count_keys, tss_find_number_of_keys, tss_is_line_blank}

-- How many suffixes of the line begin with the delimiter.
unfoldable pub occurrences : Bytes → ℕ
occurrences [] = 0
occurrences (c ∷ cs) = (if has_prefix tss_key_delimiter (c ∷ cs) then 1 else 0) + occurrences cs

count_keys-occurrences :
    (n : ℕ) (str : Bytes) (k : ℕ) → length str ≡ n + 2 → count_keys n str k ≡ k + occurrences str
unfolding count_keys occurrences has_prefix
count_keys-occurrences zero [] k h = absurd (omega arith)
count_keys-occurrences zero (a ∷ []) k h = absurd (omega arith)
count_keys-occurrences zero (a ∷ b ∷ []) k h = ground arith
count_keys-occurrences zero (a ∷ b ∷ c ∷ str) k h = absurd (omega arith)
count_keys-occurrences (suc n) [] k h = absurd (omega arith)
count_keys-occurrences (suc n) (a ∷ str) k h =
    ground (arith, count_keys-occurrences n str (k + 1), count_keys-occurrences n str k)

-- The number of keys of a line is the number of places where the delimiter stands.
pub tss_find_number_of_keys-occurrences :
    (str : Bytes) → tss_find_number_of_keys str ≡ occurrences str
unfolding tss_find_number_of_keys
tss_find_number_of_keys-occurrences [] = unfold occurrences in refl
tss_find_number_of_keys-occurrences (a ∷ []) = unfold occurrences has_prefix in ground arith
tss_find_number_of_keys-occurrences (a ∷ b ∷ []) = unfold occurrences has_prefix in ground arith
tss_find_number_of_keys-occurrences (a ∷ b ∷ c ∷ str) =
    ground (arith, count_keys-occurrences (length (a ∷ b ∷ c ∷ str) - 2) (a ∷ b ∷ c ∷ str) 0)

-- A line counts as blank exactly if every byte of it is a blank.
pub tss_is_line_blank-All : (str : Bytes) → (tss_is_line_blank str ≡ true) ↔ All (λ c. c ≡ b' ') str
unfolding tss_is_line_blank
tss_is_line_blank-All [] = (λ _. tt, λ _. refl)
tss_is_line_blank-All (c ∷ cs) = (
  λ h. (ground arith, (tss_is_line_blank-All cs).0 (ground arith)),
  λ h. let r = (tss_is_line_blank-All cs).1 h.1 in ground arith,
)
