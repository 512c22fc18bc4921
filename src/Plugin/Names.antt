-- ===== src/Plugin/Names.antt =====
-- What a valid nickname is.
use zss.Prelude.{
  ℕ, suc, ◌+◌, ◌≡◌, refl, ◌↔◌, ◌⊎◌, Bool, true, false, not, [], ◌∷◌, All, Bytes, arith,
}
use zss.Plugin.{nickname_loop, is_nickname_valid}

-- The classes of the C locale: a printable character is a graphic one or the space, not both.
module _ (isprint isgraph isspace : ℕ → Bool)
    (graph_iff : (c : ℕ) → isprint c ≡ true → isgraph c ≡ not (isspace c)) where
  -- Printable blanks.
  abbrev pub AreBlank : Bytes → Type 0
  AreBlank = All (λ c. (isprint c ≡ true) × (isspace c ≡ true))

  -- Graphic characters, then blanks.
  abbrev pub IsPadded : Bytes → Type 0
  IsPadded [] = Unit
  IsPadded (c ∷ cs) =
      (isprint c ≡ true) × (((isgraph c ≡ true) × IsPadded cs) ⊎ ((isspace c ≡ true) × AreBlank cs))

  nickname_loop-AreBlank :
      (i : ℕ) (cs : Bytes)
      → (nickname_loop isprint isgraph isspace (suc i) true cs ≡ true) ↔ AreBlank cs
  unfolding nickname_loop
  nickname_loop-AreBlank i [] = (λ _. tt, λ _. refl)
  nickname_loop-AreBlank i (c ∷ cs) = (
    λ h. ground (arith, graph_iff c, (nickname_loop-AreBlank (i + 1) cs).0),
    λ h. ground (arith, graph_iff c, (nickname_loop-AreBlank (i + 1) cs).1),
  )

  nickname_loop-IsPadded :
      (i : ℕ) (cs : Bytes)
      → (nickname_loop isprint isgraph isspace (suc i) false cs ≡ true) ↔ IsPadded cs
  unfolding nickname_loop
  nickname_loop-IsPadded i [] = (λ _. tt, λ _. refl)
  nickname_loop-IsPadded i (c ∷ cs) = (
    λ h. ground (
      arith,
      graph_iff c,
      (nickname_loop-IsPadded (i + 1) cs).0,
      (nickname_loop-AreBlank (i + 1) cs).0,
    ),
    λ h. ground (
      arith,
      graph_iff c,
      (nickname_loop-IsPadded (i + 1) cs).1,
      (nickname_loop-AreBlank (i + 1) cs).1,
    ),
  )

  -- With the classes as above, a nickname that is not empty is valid exactly if it is printable, begins with a graphic character, and has
  -- nothing but blanks behind its first blank.
  pub is_nickname_valid-IsPadded :
      (c : ℕ) (cs : Bytes)
      → (is_nickname_valid isprint isgraph isspace (c ∷ cs) ≡ true)
        ↔ ((isprint c ≡ true) × (isgraph c ≡ true) × IsPadded cs)
  unfolding is_nickname_valid
  is_nickname_valid-IsPadded c cs = (
    λ h. ground (arith, graph_iff c, (nickname_loop-IsPadded 0 cs).0),
    λ h. ground (arith, graph_iff c, (nickname_loop-IsPadded 0 cs).1),
  )
