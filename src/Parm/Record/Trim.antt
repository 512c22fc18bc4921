-- ===== src/Parm/Record/Trim.antt =====
-- `getTrimmedSlice` against its description: the string without the spaces at its two ends.
use mathlib.Core.List.{append_assoc}
use zss.Prelude.{
  ℕ, zero, suc, ◌+◌, ◌-◌, ◌≡◌, refl, ap, ◌∙◌, ◌⊎◌, inl, inr, Option, none, some, [], ◌∷◌, ◌++◌,
  length, length-append, take, drop, get_elem?, Bytes, ◌==◌, if◌then◌else◌, arith, Bool-cases,
}
use zss.Parm.Record.{skip_leading, skip_trailing, cut_slice, get_trimmed_slice}

unfoldable pub drop_spaces : Bytes → Bytes
drop_spaces [] = []
drop_spaces (c ∷ cs) = if c == b' ' then drop_spaces cs else c ∷ cs

unfoldable pub trim_end : Bytes → Bytes
trim_end [] = []
trim_end (c ∷ cs) = elim (trim_end cs) [
  | [] ↦ if c == b' ' then [] else c ∷ []
  | d ∷ ds ↦ c ∷ d ∷ ds
]

unfoldable pub trim : Bytes → Bytes
unfolding drop_spaces trim_end
trim s = trim_end (drop_spaces s)

-- The first loop stops at the first byte of `drop_spaces`, or runs to the end of a blank string.
Leading : Bytes → ℕ → ℕ → Option ℕ × ℕ → Type 0
Leading s i n r =
    ((drop_spaces s ≡ []) × (r ≡ (none, n - length s)))
    ⊎ ((k : ℕ) × (r ≡ (some (i + k), n - k))
        × (drop k s ≡ drop_spaces s)
        × (k + length (drop_spaces s) ≡ length s))

skip_leading-Leading : (s : Bytes) (i n : ℕ) → Leading s i n (skip_leading s i n)
unfolding Leading skip_leading drop_spaces
skip_leading-Leading [] i n = inl (refl, ground arith)
skip_leading-Leading (c ∷ cs) i n = elim (Bool-cases (c == b' ')) [
  | inr e ↦ rw e (inr (0, ground arith, refl, omega arith))
  | inl e ↦ rw e (elim (skip_leading-Leading cs (i + 1) (n - 1)) [
    | inl (p, q) ↦ inl (p, ground arith)
    | inr (k, q, r, l) ↦ inr (suc k, ground arith, r, omega arith)
  ])
]

skip_trailing-suc :
    (s : Bytes) (n r m : ℕ)
    → skip_trailing s n r ≡ some (suc m)
    → skip_trailing s n (suc r) ≡ some (suc (suc m))
unfolding skip_trailing
skip_trailing-suc s n zero m h = cc
skip_trailing-suc s zero (suc r) m h = cc
skip_trailing-suc s (suc n) (suc r) m h = ground (arith, skip_trailing-suc s n r m)

skip_trailing-zero :
    (s : Bytes) (n r q c : ℕ)
    → n ≡ r + suc q
    → skip_trailing s n r ≡ some 0
    → get_elem? s q ≡ some c
    → skip_trailing s n (suc r) ≡ (if c == b' ' then some 0 else some 1)
unfolding skip_trailing
skip_trailing-zero s zero r q c e h g = absurd (omega arith)
skip_trailing-zero s (suc n) zero q c e h g = let e' : n ≡ q = omega arith in rw e' (ground arith)
skip_trailing-zero s (suc n) (suc r) q c e h g = ground (arith, skip_trailing-zero s n r q c)

get_elem?-append : (pre t : Bytes) (c : ℕ) → get_elem? (pre ++ c ∷ t) (length pre) ≡ some c
get_elem?-append [] t c = refl
get_elem?-append (x ∷ pre) t c = get_elem?-append pre t c

-- One byte more in front of `t`.
skip_trailing-cons :
    (s t ts : Bytes) (n r q c : ℕ)
    → n ≡ r + suc q
    → get_elem? s q ≡ some c
    → trim_end t ≡ ts
    → skip_trailing s n r ≡ some (length ts)
    → skip_trailing s n (suc r) ≡ some (length (trim_end (c ∷ t)))
unfolding trim_end
skip_trailing-cons s t [] n r q c e g p h = ground (arith, skip_trailing-zero s n r q c e h g)
skip_trailing-cons s t (x ∷ ts) n r q c e g p h =
    ground (arith, skip_trailing-suc s n r (length ts) h)

-- The second loop, on a string whose last part is `t`, keeps the length of `trim_end t`.
skip_trailing-trim_end :
    (pre t : Bytes)
    → skip_trailing (pre ++ t) (length (pre ++ t)) (length t) ≡ some (length (trim_end t))
unfolding skip_trailing trim_end
skip_trailing-trim_end pre [] = ground arith
skip_trailing-trim_end pre (c ∷ t) =
    skip_trailing-cons (pre ++ c ∷ t) t (trim_end t) _ (length t) (length pre) c
      (omega (arith, length-append pre (c ∷ t))) (get_elem?-append pre t c) refl
      (rw append_assoc at (skip_trailing-trim_end (pre ++ c ∷ []) t))

take-trim_end : (t : Bytes) → take (length (trim_end t)) t ≡ trim_end t
unfolding trim_end
take-trim_end [] = refl
take-trim_end (c ∷ t) = ground (arith, take-trim_end t)

take-append-drop : (k : ℕ) (s : Bytes) → take k s ++ drop k s ≡ s
take-append-drop zero s = refl
take-append-drop (suc k) [] = refl
take-append-drop (suc k) (c ∷ s) = ap (◌∷◌ c) (take-append-drop k s)

cut_slice-Leading :
    (s : Bytes) (r : Option ℕ × ℕ) → Leading s 0 (length s) r → cut_slice s r ≡ some (trim s)
unfolding Leading cut_slice trim
cut_slice-Leading s r (inl (p, q)) = ground (arith, skip_trailing-none s)
  where
    skip_trailing-none : (s : Bytes) → skip_trailing s (length s) 0 ≡ some 0
    skip_trailing-none s = unfold skip_trailing in refl
cut_slice-Leading s r (inr (k, q, h, l)) =
    let e : length s - k ≡ length (drop_spaces s) = omega arith in
    let t = rw (take-append-drop k s, h) at (skip_trailing-trim_end (take k s) (drop k s)) in
    let z : 0 + k ≡ k = omega arith in
    ap (cut_slice s) q ∙ rw (z, e) (rw (t, cut_slice) (rw (h, take-trim_end)))

-- The trimmed slice is the record without the spaces at both ends, and no byte outside the record
-- is read to find it.
pub get_trimmed_slice-trim : (s : Bytes) → get_trimmed_slice s ≡ some (trim s)
unfolding get_trimmed_slice trim
get_trimmed_slice-trim [] = refl
get_trimmed_slice-trim (c ∷ cs) =
    cut_slice-Leading (c ∷ cs) _ (skip_leading-Leading (c ∷ cs) 0 (length (c ∷ cs)))
