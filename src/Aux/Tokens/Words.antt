-- ===== src/Aux/Tokens/Words.antt =====
-- The tokens of a string are its words.
use zss.Prelude.{
  ℕ, zero, suc, ◌+◌, ◌*◌, ◌≤◌, ◌<◌, ◌≡◌, ◌⊎◌, refl, sym, ap, ◌∙◌, inl, inr, Option, none, some,
  List, [], ◌∷◌, ◌++◌, length, drop, length-drop, append_nil, append_assoc, Bytes, ◌==◌, leb,
  Bool-cases, Option-cases, arith, if◌then◌else◌,
}
use zss.Aux.Tokens.{
  skip_delims, token_of, pointer_size, grow_tokens, add_token, tokenize, auxutil_tokenize_string,
}

-- A word that has ended; an empty one is none.
abbrev pub flush : Bytes → List Bytes
flush [] = []
flush (c ∷ cs) = (c ∷ cs) ∷ []

-- The words of a string behind the part of a word that was read before.
abbrev pub words_after : ℕ → Bytes → Bytes → List Bytes
words_after delim word [] = flush word
words_after delim word (c ∷ cs) =
    let ended = words_after delim [] cs in
    let longer = words_after delim (word ++ c ∷ []) cs in
    if c == delim then flush word ++ ended else longer

-- The words between the delimiters.
abbrev pub words : ℕ → Bytes → List Bytes
words delim str = words_after delim [] str

words-skip_delims : (delim : ℕ) (cs : Bytes) → words delim (skip_delims delim cs) ≡ words delim cs
unfolding skip_delims
words-skip_delims delim [] = refl
words-skip_delims delim (c ∷ cs) = elim (Bool-cases (c == delim)) [
  | inl e ↦ ground (arith, e, words-skip_delims delim cs)
  | inr e ↦ ground (arith, e)
]

words_after-token_of :
    (delim : ℕ) (word cs : Bytes)
    → words_after delim word cs
      ≡ flush (word ++ token_of delim cs) ++ words delim (drop (length (token_of delim cs) + 1) cs)
unfolding token_of
words_after-token_of delim word [] = ap flush (sym (append_nil word)) ∙ sym (append_nil _)
words_after-token_of delim word (c ∷ cs) = elim (Bool-cases (c == delim)) [
  | inl e ↦ rw e (ap (λ w. flush w ++ words delim cs) (sym (append_nil word)))
  | inr e ↦
      let token = token_of delim cs in
      let i : suc (length token + 1) ≡ length (c ∷ token) + 1 = omega arith in
      rw e (
        words_after-token_of delim (word ++ c ∷ []) cs
        ∙ ap (λ w. flush w ++ words delim (drop (length token + 1) cs))
            (let a : (word ++ c ∷ []) ++ token ≡ word ++ c ∷ token =
                append_assoc word (c ∷ []) token in
              a)
        ∙ ap (λ n. flush (word ++ c ∷ token) ++ words delim (drop n (c ∷ cs))) i)
]

length-skip_delims : (delim : ℕ) (cs : Bytes) → length (skip_delims delim cs) ≤ length cs
unfolding skip_delims
length-skip_delims delim [] = omega arith
length-skip_delims delim (c ∷ cs) = elim (Bool-cases (c == delim)) [
  | inl e ↦ rw e (let i = length-skip_delims delim cs in omega arith)
  | inr e ↦ rw e (omega arith)
]

module _ {S : Type 0} (slh_alloc : S → ℕ → Option S) where
  -- Some request for storage is refused.
  abbrev pub Refuses : Type 0
  Refuses = (slh : S) × (size : ℕ) × (slh_alloc slh size ≡ none)

  grow_tokens_lem :
      (slh : S) (tokens : List Bytes) (capacity : ℕ)
      → ((grow_tokens slh_alloc slh tokens capacity ≡ none) × Refuses)
        ⊎ ((slh' : S) × (capacity' : ℕ) × (grow_tokens slh_alloc slh tokens capacity
              ≡ some (slh', capacity')))
  unfolding grow_tokens
  grow_tokens_lem slh tokens capacity = elim (Bool-cases (leb capacity (length tokens))) [
    | inr e ↦ inr (slh, capacity, rw e)
    | inl e ↦ elim (Option-cases (slh_alloc slh (pointer_size * (capacity * 2)))) [
      | inl g ↦ inl (ground arith, (slh, _, g))
      | inr (slh', g) ↦ inr (slh', capacity * 2, ground arith)
    ]
  ]

  add_token_lem :
      (slh : S) (tokens : List Bytes) (capacity : ℕ) (token : Bytes)
      → ((add_token slh_alloc slh tokens capacity token ≡ none) × Refuses)
        ⊎ ((slh' : S) × (capacity' : ℕ) × (add_token slh_alloc slh tokens capacity token
              ≡ some (slh', capacity', tokens ++ flush token)))
  unfolding add_token
  add_token_lem slh tokens capacity [] =
      inr (slh, capacity, ap (λ ts. some (slh, capacity, ts)) (sym (append_nil tokens)))
  add_token_lem slh tokens capacity (c ∷ token) = elim (grow_tokens_lem slh tokens capacity) [
    | inl (e, r) ↦ inl (ground arith, r)
    | inr (slh', capacity', e) ↦ elim (Option-cases (slh_alloc slh' (length (c ∷ token) + 1))) [
      | inl g ↦ inl (ground arith, (slh', _, g))
      | inr (slh'', g) ↦ inr (slh'', capacity', ground arith)
    ]
  ]

  tokenize-words :
      (fuel delim : ℕ) (str : Bytes) (slh : S) (tokens : List Bytes) (capacity : ℕ)
      → length str < fuel
      → ((tokenize slh_alloc fuel delim str slh tokens capacity ≡ some none) × Refuses)
        ⊎ (tokenize slh_alloc fuel delim str slh tokens capacity
            ≡ some (some (tokens ++ words delim str)))
  unfolding tokenize
  tokenize-words zero delim str slh tokens capacity l = absurd (let z : ⊥ = omega arith in z)
  tokenize-words (suc fuel) delim [] slh tokens capacity l =
      inr (ap (λ ts. some (some ts)) (sym (append_nil tokens)))
  tokenize-words (suc fuel) delim (c ∷ cs) slh tokens capacity l =
      let rest = skip_delims delim (c ∷ cs) in
      let token = token_of delim rest in
      let after = drop (length token + 1) rest in
      elim (add_token_lem slh tokens capacity token) [
        | inl (e, r) ↦ inl (rw (e, tokenize), r)
        | inr (slh', capacity', e) ↦
            let d = length-drop (length token + 1) rest in
            let k = length-skip_delims delim (c ∷ cs) in
            elim (tokenize-words fuel delim after slh' (tokens ++ flush token) capacity'
              (omega arith)) [
                | inl (g, r) ↦ inl (rw (e, tokenize) g, r)
                | inr g ↦ inr (
                    rw (e, tokenize)
                      (g
                        ∙ ap (λ ts. some (some ts))
                            (append_assoc tokens (flush token) (words delim after)
                              ∙ ap (λ ts. tokens ++ ts)
                                  (let w : flush token ++ words delim after ≡ words delim rest =
                                      sym (words_after-token_of delim [] rest) in
                                    w ∙ words-skip_delims delim (c ∷ cs)))))
              ]
      ]

  -- A string is split into its words, the longest parts that are not empty and have no delimiter, in their order;
  -- or -1 is returned, and then some request for storage is refused. The fuel suffices.
  pub tokenize_string-words :
      (slh : S) (str : Bytes) (delim : ℕ)
      → ((auxutil_tokenize_string slh_alloc slh str delim ≡ some none) × Refuses)
        ⊎ (auxutil_tokenize_string slh_alloc slh str delim ≡ some (some (words delim str)))
  unfolding auxutil_tokenize_string
  tokenize_string-words slh str delim = elim (Option-cases (slh_alloc slh (pointer_size * 4))) [
    | inl e ↦ inl (rw (e, auxutil_tokenize_string), (slh, _, e))
    | inr (slh', e) ↦
        rw (e, auxutil_tokenize_string)
          (tokenize-words (length str + 1) delim str slh' [] 4 (omega arith))
  ]
