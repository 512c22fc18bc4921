-- ===== src/Parm/Record/Lines.antt =====
-- What a member means: the records are trimmed, comments are left out, a record that ends with a
-- backslash is joined with the next one, and each line is a name with a value.
use zss.Prelude.{
  suc, ◌+◌, ◌-◌, ◌≡◌, refl, ap, Bool, true, false, ◌&&◌, List, [], ◌∷◌, ◌++◌, length, length-append,
  take, Bytes, ltb, if◌then◌else◌, arith,
}
use zss.Parm.Record.{is_parm_commented_out, ends_with_backslash, is_empty, curr_record_size}
use zss.Parm.Record.Trim.{trim}
use zss.Parm.Set.Contents.{Contents, upsert}

-- All but the last byte.
unfoldable pub init : Bytes → Bytes
init [] = []
init (c ∷ []) = []
init (c ∷ d ∷ cs) = c ∷ init (d ∷ cs)

-- A comment does not continue a line.
abbrev pub is_comment : Bytes → Bytes → Bool
is_comment pending slice = is_empty pending && is_parm_commented_out slice

-- The full lines of the records behind a line that was begun. A line that the last record
-- continues is not one of them.
unfoldable pub joined : Bytes → List Bytes → List Bytes
unfolding trim init
joined pending [] = []
joined pending (r ∷ rs) =
    let skipped = joined pending rs in
    let continued = joined (pending ++ init (trim r)) rs in
    let finished = (pending ++ trim r) ∷ joined [] rs in
    if is_comment pending (trim r)
    then skipped
    else if ends_with_backslash (trim r)
    then continued
    else finished

-- Every line fits into the visitor's buffer with its NUL.
unfoldable pub fits : Bytes → List Bytes → Bool
unfolding trim init
fits pending [] = true
fits pending (r ∷ rs) =
    let skipped = fits pending rs in
    let continued = fits (pending ++ init (trim r)) rs in
    let finished = fits [] rs in
    if is_comment pending (trim r)
    then skipped
    else if ltb curr_record_size (length pending + length (trim r) + 1)
    then false
    else if ends_with_backslash (trim r)
    then continued
    else finished

-- The names and values are put in order.
unfoldable pub upsert_all : Contents → List (Bytes × Bytes) → Contents
upsert_all c [] = c
upsert_all c ((n, v) ∷ l) = upsert_all (upsert n v c) l

take-length : (s : Bytes) → take (length s) s ≡ s
take-length [] = refl
take-length (c ∷ s) = ap (◌∷◌ c) (take-length s)

-- Dropping the backslash from the buffer drops it from the slice.
pub take-init :
    (pending t : Bytes)
    → ends_with_backslash t ≡ true
    → take (length (pending ++ t) - 1) (pending ++ t) ≡ pending ++ init t
unfolding init ends_with_backslash
take-init [] [] h = cc
take-init [] (c ∷ []) h = refl
take-init [] (c ∷ d ∷ t) h = ground (arith, take-init [] (d ∷ t) h)
take-init (p ∷ pending) [] h = cc
take-init (p ∷ pending) (c ∷ t) h =
    let e : suc (length (pending ++ c ∷ t)) - 1 ≡ suc (length (pending ++ c ∷ t) - 1) =
      omega (arith, length-append pending (c ∷ t)) in
    rw e (ap (◌∷◌ p) (take-init pending (c ∷ t) h))
