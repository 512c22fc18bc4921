-- ===== src/Parm/Set/Contents.antt =====
-- The abstract view of a parameter set: names with values, in the order of their first use.
use zss.Prelude.{
  ℕ, suc, ◌≡◌, refl, inl, inr, Option, none, some, List, [], ◌∷◌, map, Bytes, bytes_eq,
  bytes_eq_iff, if◌then◌else◌, arith, Bool-cases,
}
use zss.Parm.Set.{Entry, ParmSet}

abbrev pub Contents : Type 0
Contents = List (Bytes × Bytes)

-- The entry that holds a name and a value.
abbrev pub stored : Bytes × Bytes → Entry
stored (k, v) = record { key = some k; value = some v }

-- Every entry of the set has its key and its value, and these are the contents.
abbrev pub Represents : {S : Type 0} → ParmSet S → Contents → Type 0
Represents p c = p.entries ≡ map stored c

unfoldable pub value_of : Bytes → Contents → Option Bytes
value_of n [] = none
value_of n ((k, v) ∷ c) = if bytes_eq k n then some v else value_of n c

-- A known name keeps its place and gets the new value; a new one goes to the end.
unfoldable pub upsert : Bytes → Bytes → Contents → Contents
upsert n v [] = (n, v) ∷ []
upsert n v ((k, w) ∷ c) = if bytes_eq k n then (k, v) ∷ c else (k, w) ∷ upsert n v c

abbrev suc_index : Option ℕ → Option ℕ
suc_index none = none
suc_index (some i) = some (suc i)

unfoldable pub place_of : Bytes → Contents → Option ℕ
place_of n [] = none
place_of n ((k, v) ∷ c) = if bytes_eq k n then some 0 else suc_index (place_of n c)

-- The names are pairwise different.
abbrev pub Distinct : Contents → Type 0
Distinct [] = Unit
Distinct ((k, v) ∷ c) = (value_of k c ≡ none) × Distinct c

pub value_of-upsert :
    (n m v : Bytes) (c : Contents)
    → value_of m (upsert n v c) ≡ (if bytes_eq n m then some v else value_of m c)
unfolding value_of upsert
value_of-upsert n m v [] = refl
value_of-upsert n m v ((k, w) ∷ c) =
    ground (arith, bytes_eq_iff k n, bytes_eq_iff k m, bytes_eq_iff n m, value_of-upsert n m v c)

pub upsert-Distinct : (n v : Bytes) (c : Contents) → Distinct c → Distinct (upsert n v c)
unfolding upsert value_of
upsert-Distinct n v [] d = (refl, tt)
upsert-Distinct n v ((k, w) ∷ c) d = elim (Bool-cases (bytes_eq k n)) [
  | inl e ↦ rw e d
  | inr e ↦ rw e (
    ground (arith, value_of-upsert n k v c, bytes_eq_iff n k, bytes_eq_iff k n),
    upsert-Distinct n v c d.1,
  )
]
