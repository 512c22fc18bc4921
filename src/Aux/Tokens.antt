-- ===== src/Aux/Tokens.antt =====
-- `auxutilTokenizeString` of zis-aux/src/aux-utils.c. The heap is `SLHAlloc`, which hands out
-- storage or NULL.

pub mod Words
pub mod Join
use zss.Prelude.{
  ℕ, zero, suc, ◌+◌, ◌*◌, ◌≡◌, Bool, true, false, not, Option, none, some, List, [], ◌∷◌, ◌++◌,
  length, drop, Bytes, ◌==◌, ltb, leb, if◌then◌else◌,
}

-- The first inner loop: the string from the first byte that is no delimiter.
unfoldable pub skip_delims : ℕ → Bytes → Bytes
skip_delims delim [] = []
skip_delims delim (c ∷ cs) =
    let rest = skip_delims delim cs in if not (c == delim) then c ∷ cs else rest

-- The second inner loop: the token in front.
unfoldable pub token_of : ℕ → Bytes → Bytes
token_of delim [] = []
token_of delim (c ∷ cs) = if c == delim then [] else c ∷ token_of delim cs

-- `sizeof(char *)`
abbrev pub pointer_size : ℕ
pointer_size = 8

module _ {S : Type 0} (slh_alloc : S → ℕ → Option S) where
  -- The array of tokens doubles when it is full.
  unfoldable pub grow_tokens : S → List Bytes → ℕ → Option (S × ℕ)
  grow_tokens slh tokens capacity =
      if leb capacity (length tokens)
      then elim (slh_alloc slh (pointer_size * (capacity * 2))) [
        | none ↦ none
        | some slh' ↦ some (slh', capacity * 2)
      ]
      else some (slh, capacity)

  -- A token is put behind the others; an empty one is left out.
  unfoldable pub add_token : S → List Bytes → ℕ → Bytes → Option (S × ℕ × List Bytes)
  unfolding grow_tokens
  add_token slh tokens capacity [] = some (slh, capacity, tokens)
  add_token slh tokens capacity (c ∷ token) = elim (grow_tokens slh tokens capacity) [
    | none ↦ none
    | some (slh', capacity') ↦ elim (slh_alloc slh' (length (c ∷ token) + 1)) [
      | none ↦ none
      | some slh'' ↦ some (slh'', capacity', tokens ++ (c ∷ token) ∷ [])
    ]
  ]

  -- The outer loop on fuel, over the string from `charIdx` on; the increment skips the delimiter
  -- behind the token. The outer `none` is fuel that ran out, the inner one -1.
  unfoldable pub tokenize : ℕ → ℕ → Bytes → S → List Bytes → ℕ → Option (Option (List Bytes))
  unfolding skip_delims token_of add_token
  tokenize zero delim str slh tokens capacity = none
  tokenize (suc fuel) delim [] slh tokens capacity = some (some tokens)
  tokenize (suc fuel) delim (c ∷ cs) slh tokens capacity =
      let rest = skip_delims delim (c ∷ cs) in
      let token = token_of delim rest in
      elim (add_token slh tokens capacity token) [
        | none ↦ some none
        | some (slh', capacity', tokens') ↦
            tokenize fuel delim (drop (length token + 1) rest) slh' tokens' capacity'
      ]

  -- `auxutilTokenizeString`
  unfoldable pub auxutil_tokenize_string : S → Bytes → ℕ → Option (Option (List Bytes))
  unfolding tokenize
  auxutil_tokenize_string slh str delim = elim (slh_alloc slh (pointer_size * 4)) [
    | none ↦ some none
    | some slh' ↦ tokenize (length str + 1) delim str slh' [] 4
  ]
