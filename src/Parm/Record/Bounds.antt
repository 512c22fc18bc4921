-- ===== src/Parm/Record/Bounds.antt =====
-- The visitor's buffer of 4096 bytes is never written past its end.
use zss.Prelude.{
  ℕ, ◌-◌, ◌<◌, inl, inr, Option, none, some, List, [], ◌∷◌, ◌++◌, length, length-append,
  length-take, Bytes, ◌==◌, arith, Bool-cases, Option-cases,
}
use zss.Parm.Record.{
  ParmRecordVisitorData, get_trimmed_slice, finish_record, handle_slice, handle_parm_record,
  iterate_member, curr_record_size,
}

module _ {S : Type 0} (slh_alloc : S → ℕ → Option S) where
  -- The bytes in the buffer and their NUL fit into it.
  abbrev pub HasRoom : Option (ℕ × ParmRecordVisitorData S) → Type 0
  HasRoom none = Unit
  HasRoom (some (rc, d)) = length d.curr_record < curr_record_size

  finish_record-HasRoom :
      (d : ParmRecordVisitorData S)
      → length d.curr_record < curr_record_size
      → HasRoom (finish_record slh_alloc d)
  unfolding finish_record
  finish_record-HasRoom d h = ground arith

  handle_slice-HasRoom :
      (d : ParmRecordVisitorData S) (t : Bytes)
      → length d.curr_record < curr_record_size
      → HasRoom (handle_slice slh_alloc d t)
  unfolding handle_slice
  handle_slice-HasRoom d t h = ground (
    arith,
    length-append d.curr_record t,
    length-take (length (d.curr_record ++ t) - 1) (d.curr_record ++ t),
    finish_record-HasRoom (record d { curr_record = d.curr_record ++ t }),
  )

  handle_parm_record-HasRoom :
      (d : ParmRecordVisitorData S) (r : Bytes)
      → length d.curr_record < curr_record_size
      → HasRoom (handle_parm_record slh_alloc d r)
  unfolding handle_parm_record
  handle_parm_record-HasRoom d r h = elim (Option-cases (get_trimmed_slice r)) [
    | inl e ↦ rw (e, handle_parm_record) tt
    | inr (slice, e) ↦ rw (e, handle_parm_record) (handle_slice-HasRoom _ slice h)
  ]

  -- If the buffer has room for its NUL at the start, then whatever the records are and however the
  -- reading ends, it keeps room for its NUL.
  pub iterate_member-HasRoom :
      (d : ParmRecordVisitorData S) (rs : List Bytes)
      → length d.curr_record < curr_record_size
      → HasRoom (iterate_member slh_alloc d rs)
  unfolding iterate_member
  iterate_member-HasRoom d [] h = h
  iterate_member-HasRoom d (r ∷ rs) h = elim (Option-cases (handle_parm_record slh_alloc d r)) [
    | inl e ↦ rw (e, iterate_member) tt
    | inr ((rc, d'), e) ↦
        let b : length d'.curr_record < curr_record_size =
          rw e at (handle_parm_record-HasRoom d r h) in
        elim (Bool-cases (rc == 0)) [
          | inl z ↦ rw (e, iterate_member) (rw z (iterate_member-HasRoom d' rs b))
          | inr z ↦ rw (e, iterate_member) (rw z b)
        ]
  ]
