-- ===== src/Parm/Parmlib/Reading.antt =====
-- When `zisReadParmlib` succeeds, what it has put, and where it reads through NULL.
use zss.Prelude.{
  ℕ, ◌≤◌, ◌≡◌, ◌≢◌, ◌∙◌, ◌⊎◌, inl, inr, Bool, true, false, Option, none, some, List, [], Bytes,
  arith, length, map,
}
use zss.Parm.Set.{ParmSet, rc_zisparm_ok}
use zss.Parm.Set.Contents.{Contents, Represents}
use zss.Parm.Record.{ParmRecordVisitorData, key_value}
use zss.Parm.Record.Lines.{joined, fits, upsert_all}
use zss.Parm.Record.Member.{iterate_member-Outcome, Outcome}
use zss.Parm.Parmlib.{
  ReadReply, ParmlibService, ParmStatus, Progress, alloc_read_buffer, read_rounds, allocate_library,
  read_library, release_buffer, free_library, parse_buffer, read_named, zis_read_parmlib,
  is_buffer_full, space_padded, name_size, read_buffer_default_size, iefprmlb_ok,
}

-- The library is there, allocated by this call or before it.
abbrev pub IsAllocated : ℕ × ℕ → Type 0
IsAllocated (rc, rsn) = (rc ≡ 0) ⊎ ((rc ≡ 4) × (rsn ≡ 1))

allocate_library-IsAllocated :
    (sys : ParmlibService) (ddname : Bytes) (st : ParmStatus)
    → IsAllocated (sys.allocate ddname)
    → ((allocate_library sys ddname st).1.status ≡ rc_zisparm_ok)
      × ((allocate_library sys ddname st).1.read_buffer ≡ none)
unfolding allocate_library
allocate_library-IsAllocated sys ddname st h = ground arith

-- Two replies that ask for a larger buffer leave no buffer, and the status as it was.
read_rounds_full_twice :
    (sys : ParmlibService) (ddname member : Bytes) (size : ℕ) (p : Progress)
    → alloc_read_buffer sys size ≡ true
    → is_buffer_full (sys.read_member 1 ddname member size) ≡ true
    → alloc_read_buffer sys (sys.read_member 1 ddname member size).size_required ≡ true
    → is_buffer_full
        (sys.read_member 0 ddname member (sys.read_member 1 ddname member size).size_required)
      ≡ true
    → ((read_rounds sys ddname member 2 size p).status ≡ p.status)
      × ((read_rounds sys ddname member 2 size p).read_buffer ≡ none)
unfolding read_rounds
read_rounds_full_twice sys ddname member size p a b c d = ground arith

-- A reply with code 0 is kept.
read_rounds_ok :
    (sys : ParmlibService) (ddname member : Bytes) (size : ℕ) (p : Progress)
    → alloc_read_buffer sys size ≡ true
    → (sys.read_member 1 ddname member size).rc ≡ iefprmlb_ok
    → ((read_rounds sys ddname member 2 size p).status ≡ p.status)
      × ((read_rounds sys ddname member 2 size p).read_buffer
          ≡ some (sys.read_member 1 ddname member size))
unfolding read_rounds
read_rounds_ok sys ddname member size p a b = ground arith

-- The status that the release of the library leaves is 0 exactly if it was 0 before.
free_library-status :
    (sys : ParmlibService) (ddname : Bytes) (b : Bool) (p : Progress)
    → ((p.status ≡ 0) × ((free_library sys ddname b p).status ≡ 0))
      ⊎ ((p.status ≢ 0) × ((free_library sys ddname b p).status ≢ 0))
unfolding free_library
free_library-status sys ddname false p = ground arith
free_library-status sys ddname true p = ground arith

module _ {S : Type 0} (slh_alloc : S → ℕ → Option S) where
  -- A call with status 0 has put what the records mean.
  abbrev pub ReadsTo : Contents → List Bytes → Progress × ParmSet S → Type 0
  ReadsTo c records (q, parms) =
      ((q.status ≡ rc_zisparm_ok)
        × (fits [] records ≡ true)
        × Represents parms (upsert_all c (map key_value (joined [] records))))
      ⊎ (q.status ≢ rc_zisparm_ok)

  parse_buffer-ReadsTo :
      (p : Progress) (parms : ParmSet S) (c : Contents) (reply : ReadReply)
      → p.status ≡ rc_zisparm_ok
      → p.read_buffer ≡ some reply
      → Represents parms c
      → (x : Progress × ParmSet S) × (parse_buffer slh_alloc p parms ≡ some x)
        × ReadsTo c reply.records x
  unfolding parse_buffer Outcome
  parse_buffer-ReadsTo p parms c reply e f h =
      let d : ParmRecordVisitorData S = record {
        parm_set = parms;
        curr_record_start = 0;
        curr_record_end = 0;
        curr_record = [];
      } in
      let ((rc, d'), i, o) = iterate_member-Outcome slh_alloc d c reply.records h in
      let failed : Progress = record p {
        status = rc;
        read_status = record {
          internal_rc = d'.curr_record_start;
          internal_rsn = d'.curr_record_end;
        };
      } in
      elim o [
        | inl (z, g, k) ↦ ((p, d'.parm_set), ground arith, inl (e, g, k))
        | inr g ↦ ((failed, d'.parm_set), ground arith, inr (ground arith))
      ]

  read_named-ReadsTo :
      (sys : ParmlibService) (ddname member : Bytes) (st : ParmStatus) (parms : ParmSet S)
      (c : Contents) (p : Progress) (reply : ReadReply)
      → read_library sys ddname member (allocate_library sys ddname st).1 ≡ p
      → p.status ≡ rc_zisparm_ok
      → p.read_buffer ≡ some reply
      → Represents parms c
      → (x : Progress × ParmSet S) × (read_named slh_alloc sys ddname member st parms ≡ some x)
        × ReadsTo c reply.records x
  unfolding read_named
  read_named-ReadsTo sys ddname member st parms c p reply r e f h =
      let ((q, parms'), i, o) = parse_buffer-ReadsTo p parms c reply e f h in
      let b = (allocate_library sys ddname st).0 in
      let released : (release_buffer q).status ≡ q.status = unfold release_buffer in ground arith in
      (
        (free_library sys ddname b (release_buffer q), parms'),
        rw (r, i, read_named),
        ground (arith, free_library-status sys ddname b (release_buffer q)),
      )

module _ {S : Type 0} (slh_alloc : S → ℕ → Option S) (sys : ParmlibService) (ddname member : Bytes)
    (st : ParmStatus) (parms : ParmSet S) (ddname_fits : length ddname ≤ name_size)
    (member_fits : length member ≤ name_size)
    (allocated : IsAllocated (sys.allocate (space_padded ddname)))
    (first_buffer : sys.safe_malloc31 read_buffer_default_size ≡ true) where
  abbrev first_reply : ReadReply
  first_reply =
      sys.read_member 1 (space_padded ddname) (space_padded member) read_buffer_default_size

  zis_read_parmlib-read_named :
      zis_read_parmlib slh_alloc sys ddname member st parms
      ≡ read_named slh_alloc sys (space_padded ddname) (space_padded member) st parms
  unfolding zis_read_parmlib
  zis_read_parmlib-read_named = ground arith

  -- With names of at most eight bytes, the library and storage for the first two buffers: if the
  -- member does not fit the first buffer, and has grown past the size that was asked for
  -- when it is read again, both buffers are gone, the status is still 0, and the records are
  -- iterated through a NULL pointer.
  pub zis_read_parmlib_full_twice :
      is_buffer_full first_reply ≡ true
      → alloc_read_buffer sys first_reply.size_required ≡ true
      → is_buffer_full
          (sys.read_member 0 (space_padded ddname) (space_padded member) first_reply.size_required)
        ≡ true
      → zis_read_parmlib slh_alloc sys ddname member st parms ≡ none
  unfolding read_named read_library parse_buffer
  zis_read_parmlib_full_twice full second again =
      let d = space_padded ddname in
      let m = space_padded member in
      let first : alloc_read_buffer sys 1048576 ≡ true = unfold alloc_read_buffer in first_buffer in
      let (a, b) = allocate_library-IsAllocated sys d st allocated in
      let (e, f) =
        read_rounds_full_twice sys d m 1048576 (allocate_library sys d st).1 first full second
          again in
      rw zis_read_parmlib-read_named (ground arith)

  -- With names of at most eight bytes, the library, storage for the first buffer, and a set in which
  -- every entry is filled: if the first reply delivers the member, the call returns, and with status 0 the set holds what
  -- it held before, with the parameters that the joined records mean put in order.
  pub zis_read_parmlib-ReadsTo :
      (c : Contents)
      → first_reply.rc ≡ iefprmlb_ok
      → Represents parms c
      → (x : Progress × ParmSet S) × (zis_read_parmlib slh_alloc sys ddname member st parms
          ≡ some x)
        × ReadsTo slh_alloc c first_reply.records x
  unfolding read_library
  zis_read_parmlib-ReadsTo c delivered h =
      let d = space_padded ddname in
      let m = space_padded member in
      let first : alloc_read_buffer sys 1048576 ≡ true = unfold alloc_read_buffer in first_buffer in
      let (a, b) = allocate_library-IsAllocated sys d st allocated in
      let (e, f) = read_rounds_ok sys d m 1048576 (allocate_library sys d st).1 first delivered in
      rw zis_read_parmlib-read_named (
        read_named-ReadsTo slh_alloc sys d m st parms c
          (read_rounds sys d m 2 1048576 (allocate_library sys d st).1) first_reply (ground arith)
          (e ∙ a) f h)
