-- ===== src/Parm/Set/Refines.antt =====
-- The operations of the set do to its contents what an ordered dictionary does.
use zss.Prelude.{
  ℕ, zero, suc, ◌≡◌, refl, ap, ◌⊎◌, inl, inr, Option, none, some, List, [], ◌∷◌, ◌++◌, map, length,
  get_elem?, set, Bytes, bytes_eq_iff, arith, Option-cases,
}
use zss.Parm.Set.{
  Entry, ParmSet, blank_entry, find_entry, add_entry, change_entry, zis_put_parm_value,
  zis_get_parm_value, rc_zisparm_ok, rc_zisparm_slh_alloc_failed,
}
use zss.Parm.Set.Contents.{Contents, stored, Represents, value_of, upsert, place_of}
use zss.Parm.Set.Storage.{grants, put_sizes}

pub find_entry-stored :
    (n : Bytes) (c : Contents) → find_entry (map stored c) n ≡ some (place_of n c)
unfolding find_entry place_of
find_entry-stored n [] = refl
find_entry-stored n ((k, v) ∷ c) = ground (arith, find_entry-stored n c)

-- What stands at the place of a name.
get_elem?-place_of :
    (n : Bytes) (c : Contents) (i : ℕ)
    → place_of n c ≡ some i
    → (v : Bytes) × (get_elem? (map stored c) i ≡ some (stored (n, v))) × (value_of n c ≡ some v)
unfolding place_of value_of
get_elem?-place_of n [] i h = cc
get_elem?-place_of n ((k, v) ∷ c) zero h = (v, ground (arith, bytes_eq_iff k n), ground arith)
get_elem?-place_of n ((k, v) ∷ c) (suc i) h =
    let (w, p, q) = get_elem?-place_of n c i (ground arith) in (w, p, ground arith)

-- Writing at the place of a known name.
set-place_of :
    (n v : Bytes) (c : Contents) (i : ℕ)
    → place_of n c ≡ some i
    → set (map stored c) i (stored (n, v)) ≡ map stored (upsert n v c)
unfolding place_of upsert
set-place_of n v [] i h = cc
set-place_of n v ((k, w) ∷ c) zero h = ground (arith, bytes_eq_iff k n)
set-place_of n v ((k, w) ∷ c) (suc i) h = ground (arith, set-place_of n v c i)

-- Chaining an entry for a new name.
append-place_of :
    (n v : Bytes) (c : Contents)
    → place_of n c ≡ none
    → map stored c ++ stored (n, v) ∷ [] ≡ map stored (upsert n v c)
unfolding place_of upsert
append-place_of n v [] h = refl
append-place_of n v ((k, w) ∷ c) h = ground (arith, append-place_of n v c)

value_of-place_of : (n : Bytes) (c : Contents) → place_of n c ≡ none → value_of n c ≡ none
unfolding place_of value_of
value_of-place_of n [] h = refl
value_of-place_of n ((k, v) ∷ c) h = ground (arith, value_of-place_of n c)

set_last : (es : List Entry) (e f : Entry) → set (es ++ e ∷ []) (length es) f ≡ es ++ f ∷ []
set_last [] e f = refl
set_last (x ∷ es) e f = ap (◌∷◌ x) (set_last es e f)

-- On a set in which every entry is filled, reading a parameter is looking it up in the contents.
pub zis_get_parm_value-value_of :
    {S : Type 0} (p : ParmSet S) (n : Bytes) (c : Contents)
    → Represents p c
    → zis_get_parm_value p n ≡ some (value_of n c)
unfolding zis_get_parm_value
zis_get_parm_value-value_of p n c h = elim (Option-cases (place_of n c)) [
  | inl e ↦ ground (arith, find_entry-stored n c, value_of-place_of n c e)
  | inr (i, e) ↦
      let (v, q, r) = get_elem?-place_of n c i e in ground (arith, find_entry-stored n c, q, r)
]

module _ {S : Type 0} (slh_alloc : S → ℕ → Option S) where
  -- The heap grants what the write needs, and the write is done, or it refuses one of the requests.
  abbrev pub PutResult : S → Contents → Bytes → Bytes → ℕ × ParmSet S → Type 0
  PutResult slh c n v (rc, q) =
      ((rc ≡ rc_zisparm_ok)
        × Represents q (upsert n v c)
        × (grants slh_alloc slh (put_sizes c n v) ≡ some q.slh))
      ⊎ ((rc ≡ rc_zisparm_slh_alloc_failed) × (grants slh_alloc slh (put_sizes c n v) ≡ none))

  add_entry_lem :
      (slh : S) (n v : Bytes) (c : Contents)
      → place_of n c ≡ none
      → PutResult slh c n v (add_entry slh_alloc slh (map stored c) n v)
  unfolding add_entry grants put_sizes
  add_entry_lem slh n v c h =
      let keyed : Entry = record { key = some n; value = none } in
      ground (
        arith,
        set_last (map stored c) blank_entry keyed,
        set_last (map stored c) keyed (stored (n, v)),
        append-place_of n v c h,
      )

  change_entry_lem :
      (slh : S) (n v w : Bytes) (c : Contents) (i : ℕ)
      → place_of n c ≡ some i
      → get_elem? (map stored c) i ≡ some (stored (n, w))
      → PutResult slh c n v (change_entry slh_alloc slh (map stored c) i n v)
  unfolding change_entry grants put_sizes
  change_entry_lem slh n v w c i h e = rw (e, change_entry) (ground (arith, set-place_of n v c i h))

  -- On a set in which every entry is filled, the status of writing a parameter is 0, the contents are `upsert` of the old ones, and
  -- the heap has granted exactly the storage that the write needs; or the status is 16, and the heap refuses one of these requests.
  pub zis_put_parm_value-upsert :
      (p : ParmSet S) (n v : Bytes) (c : Contents)
      → Represents p c
      → (r : ℕ × ParmSet S) × (zis_put_parm_value slh_alloc p n v ≡ some r)
        × PutResult p.slh c n v r
  unfolding zis_put_parm_value
  zis_put_parm_value-upsert p n v c h = elim (Option-cases (place_of n c)) [
    | inl e ↦ (
      add_entry slh_alloc p.slh (map stored c) n v,
      ground (arith, find_entry-stored n c),
      add_entry_lem p.slh n v c e,
    )
    | inr (i, e) ↦
        let (w, q, r) = get_elem?-place_of n c i e in
        (
          change_entry slh_alloc p.slh (map stored c) i n v,
          ground (arith, find_entry-stored n c),
          change_entry_lem p.slh n v w c i e q,
        )
  ]
