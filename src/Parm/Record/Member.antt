-- ===== src/Parm/Record/Member.antt =====
-- Reading the records of a member puts the parameters that they mean.
use zss.Prelude.{
  ℕ, ◌+◌, ◌≡◌, refl, ◌⊎◌, inl, inr, true, false, Option, none, some, List, [], ◌∷◌, ◌++◌, map,
  length, Bytes, ltb, if◌then◌else◌, arith, Bool-cases, Option-cases,
}
use zss.Parm.Set.{rc_zisparm_ok, rc_zisparm_slh_alloc_failed}
use zss.Parm.Set.Contents.{Contents, Represents, upsert}
use zss.Parm.Set.Refines.{zis_put_parm_value-upsert}
use zss.Parm.Record.{
  ParmRecordVisitorData, key_value, ends_with_backslash, is_empty, finish_record, handle_slice,
  handle_parm_record, iterate_member, rc_zisparm_continuation_too_long, curr_record_size,
}
use zss.Parm.Set.Storage.{grants, put_sizes, grants-append, grants-append_none}
use zss.Parm.Record.Trim.{trim, get_trimmed_slice-trim}
use zss.Parm.Record.Lines.{joined, fits, init, upsert_all, is_comment, take-init}

-- The storage for one line: a copy of the line, and the parameter.
abbrev pub line_sizes : Contents → Bytes → List ℕ
line_sizes c line = (length line + 1) ∷ put_sizes c (key_value line).0 (key_value line).1

-- The storage for lines, one after the other.
unfoldable pub lines_sizes : Contents → List Bytes → List ℕ
lines_sizes c [] = []
lines_sizes c (line ∷ lines) =
    line_sizes c line ++ lines_sizes (upsert (key_value line).0 (key_value line).1 c) lines

module _ {S : Type 0} (slh_alloc : S → ℕ → Option S) where
  -- A line is put, or the heap refuses a request for its storage.
  Finished : S → Contents → Bytes → ℕ × ParmRecordVisitorData S → Type 0
  Finished slh c line (rc, d) =
      ((rc ≡ rc_zisparm_ok)
        × Represents d.parm_set (upsert (key_value line).0 (key_value line).1 c)
        × (d.curr_record ≡ [])
        × (grants slh_alloc slh (line_sizes c line) ≡ some d.parm_set.slh))
      ⊎ ((rc ≡ rc_zisparm_slh_alloc_failed) × (grants slh_alloc slh (line_sizes c line) ≡ none))

  finish_record-Finished :
      (d : ParmRecordVisitorData S) (c : Contents)
      → Represents d.parm_set c
      → (r : ℕ × ParmRecordVisitorData S) × (finish_record slh_alloc d ≡ some r)
        × Finished d.parm_set.slh c d.curr_record r
  unfolding Finished finish_record grants
  finish_record-Finished d c h =
      elim (Option-cases (slh_alloc d.parm_set.slh (length d.curr_record + 1))) [
        | inl e ↦ ((rc_zisparm_slh_alloc_failed, d), ground arith, inr (refl, rw (e, grants)))
        | inr (slh', e) ↦
            let line = key_value d.curr_record in
            let ((rc, p), q, o) =
              zis_put_parm_value-upsert slh_alloc
                (record { slh = slh'; entries = d.parm_set.entries }) line.0 line.1 c h in
            ((rc, record d { parm_set = p; curr_record = [] }), ground arith, ground arith)
      ]

  -- How the reading of records ends.
  unfoldable pub Outcome : S → Contents → Bytes → List Bytes → ℕ × ParmRecordVisitorData S → Type 0
  Outcome slh c pending rs (rc, d) =
      ((rc ≡ rc_zisparm_ok)
        × (fits pending rs ≡ true)
        × Represents d.parm_set (upsert_all c (map key_value (joined pending rs))))
      ⊎ ((rc ≡ rc_zisparm_slh_alloc_failed)
          × (grants slh_alloc slh (lines_sizes c (joined pending rs)) ≡ none))
      ⊎ ((rc ≡ rc_zisparm_continuation_too_long) × (fits pending rs ≡ false))

  -- The four ways of a slice: a comment, a line too long, a continuation, a full line.
  Handled :
      Contents → ParmRecordVisitorData S → Bytes → Option (ℕ × ParmRecordVisitorData S) → Type 0
  Handled c d t x =
      ((is_comment d.curr_record t ≡ true) × (x ≡ some (rc_zisparm_ok, d)))
      ⊎ ((is_comment d.curr_record t ≡ false)
          × (ltb curr_record_size (length d.curr_record + length t + 1) ≡ true)
          × (x ≡ some (rc_zisparm_continuation_too_long, d)))
      ⊎ ((is_comment d.curr_record t ≡ false)
          × (ltb curr_record_size (length d.curr_record + length t + 1) ≡ false)
          × (ends_with_backslash t ≡ true)
          × (x ≡ some (rc_zisparm_ok, record d { curr_record = d.curr_record ++ init t })))
      ⊎ ((is_comment d.curr_record t ≡ false)
          × (ltb curr_record_size (length d.curr_record + length t + 1) ≡ false)
          × (ends_with_backslash t ≡ false)
          × (r : ℕ × ParmRecordVisitorData S) × (x ≡ some r)
          × Finished d.parm_set.slh c (d.curr_record ++ t) r)

  handle_slice-Handled :
      (d : ParmRecordVisitorData S) (t : Bytes) (c : Contents)
      → Represents d.parm_set c
      → Handled c d t (handle_slice slh_alloc d t)
  unfolding Handled handle_slice
  handle_slice-Handled d t c h = elim (Bool-cases (is_comment d.curr_record t)) [
    | inl e ↦ inl (e, rw e)
    | inr e ↦ elim (Bool-cases (ltb curr_record_size (length d.curr_record + length t + 1))) [
      | inl l ↦ inr (inl (e, l, rw (e, l)))
      | inr l ↦ elim (Bool-cases (ends_with_backslash t)) [
        | inl b ↦ inr (inr (inl (e, l, b, rw (e, l, b) (rw (take-init d.curr_record t b)))))
        | inr b ↦
            let (r, q, f) =
              finish_record-Finished (record d { curr_record = d.curr_record ++ t }) c h in
            inr (inr (inr (e, l, b, r, rw (e, l, b) q, f)))
      ]
    ]
  ]

  handle_parm_record-slice :
      (d : ParmRecordVisitorData S) (r : Bytes)
      → (d' : ParmRecordVisitorData S) × (handle_parm_record slh_alloc d r
          ≡ handle_slice slh_alloc d' (trim r))
        × (d'.parm_set ≡ d.parm_set)
        × (d'.curr_record ≡ d.curr_record)
  unfolding handle_parm_record
  handle_parm_record-slice d r = (
    record d {
      curr_record_start =
          if is_empty d.curr_record then d.curr_record_end + 1 else d.curr_record_start;
      curr_record_end = d.curr_record_end + 1;
    },
    rw (get_trimmed_slice-trim r, handle_parm_record),
    refl,
    refl,
  )

  -- The rest of the records, by induction.
  abbrev Reads : List Bytes → Type 0
  Reads rs =
      (d : ParmRecordVisitorData S) (c : Contents)
      → Represents d.parm_set c
      → (x : ℕ × ParmRecordVisitorData S) × (iterate_member slh_alloc d rs ≡ some x)
        × Outcome d.parm_set.slh c d.curr_record rs x

  Handled-Outcome :
      (d d' : ParmRecordVisitorData S) (c : Contents) (r : Bytes) (rs : List Bytes)
      → Reads rs
      → handle_parm_record slh_alloc d r ≡ handle_slice slh_alloc d' (trim r)
      → d'.parm_set ≡ d.parm_set
      → Represents d'.parm_set c
      → d'.curr_record ≡ d.curr_record
      → Handled c d' (trim r) (handle_slice slh_alloc d' (trim r))
      → (x : ℕ × ParmRecordVisitorData S) × (iterate_member slh_alloc d (r ∷ rs) ≡ some x)
        × Outcome d.parm_set.slh c d.curr_record (r ∷ rs) x
  unfolding Handled Outcome Finished iterate_member joined fits upsert_all lines_sizes
  Handled-Outcome d d' c r rs ih e k h p (inl (m, q)) =
      let (x, y, o) = ih d' c h in (x, ground arith, ground arith)
  Handled-Outcome d d' c r rs ih e k h p (inr (inl (m, l, q))) =
      ((rc_zisparm_continuation_too_long, d'), ground arith, ground arith)
  Handled-Outcome d d' c r rs ih e k h p (inr (inr (inl (m, l, b, q)))) =
      let (x, y, o) = ih (record d' { curr_record = d'.curr_record ++ init (trim r) }) c h in
      (x, ground arith, ground arith)
  Handled-Outcome d d' c r rs ih e k h p (inr (inr (inr (m, l, b, (rc, d''), q, inr (z, f))))) =
      let line = d'.curr_record ++ trim r in
      let kv = key_value line in
      let g =
        grants-append_none slh_alloc d'.parm_set.slh (line_sizes c line)
          (lines_sizes (upsert kv.0 kv.1 c) (joined [] rs)) f in
      ((rc, d''), ground arith, ground (arith, g))
  Handled-Outcome d d' c r rs ih e k h p
        (inr (inr (inr (m, l, b, (rc, d''), q, inl (z, f, n, g))))) =
      let (x, y, o) =
        ih d''
          (upsert (key_value (d'.curr_record ++ trim r)).0 (key_value (d'.curr_record ++ trim r)).1
            c)
          f in
      let line = d'.curr_record ++ trim r in
      let kv = key_value line in
      let g' =
        grants-append slh_alloc d'.parm_set.slh d''.parm_set.slh (line_sizes c line)
          (lines_sizes (upsert kv.0 kv.1 c) (joined [] rs)) g in
      (x, ground arith, ground (arith, g'))

  -- On a set in which every entry is filled, reading a member has no undefined behaviour. It puts exactly the parameters that its joined
  -- lines mean, in order, and all lines fit the buffer; or the status is 16, and the heap refuses one of
  -- the requests for the storage of these lines; or some line does not fit, with status 19.
  pub iterate_member-Outcome :
      (d : ParmRecordVisitorData S) (c : Contents) (rs : List Bytes)
      → Represents d.parm_set c
      → (x : ℕ × ParmRecordVisitorData S) × (iterate_member slh_alloc d rs ≡ some x)
        × Outcome d.parm_set.slh c d.curr_record rs x
  unfolding iterate_member Outcome joined fits upsert_all
  iterate_member-Outcome d c [] h = ((rc_zisparm_ok, d), refl, inl (refl, refl, h))
  iterate_member-Outcome d c (r ∷ rs) h =
      let ih : Reads rs = λ d c h. iterate_member-Outcome d c rs h in
      let (d', e, p, q) = handle_parm_record-slice d r in
      Handled-Outcome d d' c r rs ih e p (rw p h) q (handle_slice-Handled d' (trim r) c (rw p h))
