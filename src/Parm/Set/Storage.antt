-- ===== src/Parm/Set/Storage.antt =====
-- The storage that writing parameters asks for: the sizes of the requests, in order.
use zss.Prelude.{
  ℕ, ◌+◌, ◌≡◌, Option, none, some, List, [], ◌∷◌, ◌++◌, length, Bytes, Option-cases, arith, inl,
  inr,
}
use zss.Parm.Set.{parm_set_entry_size}
use zss.Parm.Set.Contents.{Contents, upsert, place_of}

-- The heap behind requests of these sizes; `none` if one of them is refused.
unfoldable pub grants : {S : Type 0} → (S → ℕ → Option S) → S → List ℕ → Option S
grants slh_alloc slh [] = some slh
grants slh_alloc slh (n ∷ ns) = elim (slh_alloc slh n) [
  | none ↦ none
  | some slh' ↦ grants slh_alloc slh' ns
]

-- A new parameter needs an entry, its key and its value, a known one its value only.
unfoldable pub put_sizes : Contents → Bytes → Bytes → List ℕ
put_sizes c n v = elim (place_of n c) [
  | none ↦ parm_set_entry_size ∷ (length n + 1) ∷ (length v + 1) ∷ []
  | some i ↦ (length v + 1) ∷ []
]

-- The parameters of a list, put one after the other.
unfoldable pub parms_sizes : Contents → List (Bytes × Bytes) → List ℕ
parms_sizes c [] = []
parms_sizes c ((n, v) ∷ l) = put_sizes c n v ++ parms_sizes (upsert n v c) l

pub grants-append :
    {S : Type 0} (slh_alloc : S → ℕ → Option S) (slh slh' : S) (xs ys : List ℕ)
    → grants slh_alloc slh xs ≡ some slh'
    → grants slh_alloc slh (xs ++ ys) ≡ grants slh_alloc slh' ys
unfolding grants
grants-append slh_alloc slh slh' [] ys h = cc
grants-append slh_alloc slh slh' (n ∷ xs) ys h = elim (Option-cases (slh_alloc slh n)) [
  | inl e ↦ ground (arith, e, h)
  | inr (s, e) ↦ rw (e, grants) (grants-append slh_alloc s slh' xs ys (rw (e, grants) at h))
]

pub grants-append_none :
    {S : Type 0} (slh_alloc : S → ℕ → Option S) (slh : S) (xs ys : List ℕ)
    → grants slh_alloc slh xs ≡ none
    → grants slh_alloc slh (xs ++ ys) ≡ none
unfolding grants
grants-append_none slh_alloc slh [] ys h = cc
grants-append_none slh_alloc slh (n ∷ xs) ys h = elim (Option-cases (slh_alloc slh n)) [
  | inl e ↦ rw (e, grants)
  | inr (s, e) ↦ rw (e, grants) (grants-append_none slh_alloc s xs ys (rw (e, grants) at h))
]
