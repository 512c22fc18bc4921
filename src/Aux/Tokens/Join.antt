-- ===== src/Aux/Tokens/Join.antt =====
-- Words that are joined by the delimiter are found again.
use zss.Prelude.{
  ℕ, ◌≡◌, ◌≢◌, ◌⊎◌, refl, sym, ap, ◌∙◌, inl, inr, true, false, Option, none, some, List, [], ◌∷◌,
  ◌++◌, All, append_nil, append_assoc, Bytes, ◌==◌, ==_iff, arith,
}
use zss.Aux.Tokens.{auxutil_tokenize_string}
use zss.Aux.Tokens.Words.{flush, words_after, words, Refuses, tokenize_string-words}

-- A word: not empty, and without the delimiter.
abbrev pub IsWord : ℕ → Bytes → Type 0
IsWord delim w = (w ≢ []) × All (λ c. c ≢ delim) w

abbrev pub join : ℕ → List Bytes → Bytes
join delim [] = []
join delim (w ∷ []) = w
join delim (w ∷ v ∷ ws) = w ++ (delim ∷ join delim (v ∷ ws))

words_after-append :
    (delim : ℕ) (word w rest : Bytes)
    → All (λ c. c ≢ delim) w
    → words_after delim word (w ++ rest) ≡ words_after delim (word ++ w) rest
words_after-append delim word [] rest h = ap (λ v. words_after delim v rest) (sym (append_nil word))
words_after-append delim word (c ∷ w) rest h =
    let e : (c == delim) ≡ false = ground (arith, ==_iff c delim, h.0) in
    rw e (
      words_after-append delim (word ++ c ∷ []) w rest h.1
      ∙ ap (λ v. words_after delim v rest)
          (let a : (word ++ c ∷ []) ++ w ≡ word ++ (c ∷ w) = append_assoc word (c ∷ []) w in a))

flush-word : (w : Bytes) → w ≢ [] → flush w ≡ w ∷ []
flush-word [] h = absurd (h refl)
flush-word (c ∷ w) h = refl

words-join :
    (delim : ℕ) (ws : List Bytes) → All (IsWord delim) ws → words delim (join delim ws) ≡ ws
words-join delim [] h = refl
words-join delim (w ∷ []) h =
    ap (words delim) (sym (append_nil w))
    ∙ words_after-append delim [] w [] h.0.1
    ∙ flush-word w h.0.0
words-join delim (w ∷ v ∷ ws) h =
    let e : (delim == delim) ≡ true = (==_iff delim delim).1 refl in
    let back = join delim (v ∷ ws) in
    let d : words_after delim w (delim ∷ back) ≡ flush w ++ words delim back = rw e refl in
    words_after-append delim [] w (delim ∷ back) h.0.1
    ∙ d
    ∙ ap (λ front. front ++ words delim back) (flush-word w h.0.0)
    ∙ ap (λ ws. w ∷ ws) (words-join delim (v ∷ ws) h.1)

module _ {S : Type 0} (slh_alloc : S → ℕ → Option S) where
  -- Words that are joined by the delimiter, none empty and none with the delimiter in it, are what the string is split into again;
  -- or -1 is returned, and then some request for storage is refused.
  pub tokenize_string-join :
      (slh : S) (delim : ℕ) (ws : List Bytes)
      → All (IsWord delim) ws
      → ((auxutil_tokenize_string slh_alloc slh (join delim ws) delim ≡ some none)
          × Refuses slh_alloc)
        ⊎ (auxutil_tokenize_string slh_alloc slh (join delim ws) delim ≡ some (some ws))
  tokenize_string-join slh delim ws h =
      elim (tokenize_string-words slh_alloc slh (join delim ws) delim) [
        | inl e ↦ inl e
        | inr e ↦ inr (e ∙ ap (λ ts. some (some ts)) (words-join delim ws h))
      ]
