-- ===== src/Parm/Parmlib/Balance.antt =====
-- What `zisReadParmlib` takes and gives back.
use zss.Prelude.{
  ℕ, zero, suc, ◌+◌, ◌≡◌, ◌≢◌, ◌⊎◌, inl, inr, Bool, true, false, Option, none, some, List, [], ◌∷◌,
  Bytes, arith, Option-cases,
}
use zss.Parm.Set.{ParmSet}
use zss.Parm.Parmlib.{
  ReadReply, ParmlibService, Event, library_allocated, library_freed, buffer_allocated,
  buffer_freed, ParmStatus, Progress, read_rounds, allocate_library, read_library, release_buffer,
  free_library, parse_buffer, read_named, zis_read_parmlib, space_padded,
}

-- How often each event occurs.
record Counts : Type 0 where
  libraries_taken : ℕ
  libraries_given : ℕ
  buffers_taken : ℕ
  buffers_given : ℕ

abbrev counts : List Event → Counts
counts [] = record {
  libraries_taken = 0;
  libraries_given = 0;
  buffers_taken = 0;
  buffers_given = 0;
}
counts (library_allocated ∷ t) =
    let n = counts t in record n { libraries_taken = n.libraries_taken + 1 }
counts (library_freed ∷ t) =
    let n = counts t in record n { libraries_given = n.libraries_given + 1 }
counts (buffer_allocated ∷ t) = let n = counts t in record n { buffers_taken = n.buffers_taken + 1 }
counts (buffer_freed ∷ t) = let n = counts t in record n { buffers_given = n.buffers_given + 1 }

-- The number of buffers that are held.
abbrev held : Option ReadReply → ℕ
held none = 0
held (some _) = 1

-- `n` libraries are held, and the buffer that the progress names.
record IsConsistent (n : ℕ) (p : Progress) : Type 0 where
  libraries : (counts p.trace).libraries_taken ≡ (counts p.trace).libraries_given + n
  buffers : (counts p.trace).buffers_taken ≡ (counts p.trace).buffers_given + held p.read_buffer

read_rounds-IsConsistent :
    (sys : ParmlibService) (ddname member : Bytes) (n rounds size : ℕ) (p : Progress)
    → p.read_buffer ≡ none
    → IsConsistent n p
    → IsConsistent n (read_rounds sys ddname member rounds size p)
unfolding read_rounds
read_rounds-IsConsistent sys ddname member n zero size p e h = h
read_rounds-IsConsistent sys ddname member n (suc rounds) size p e h =
    let reply = sys.read_member rounds ddname member size in
    let rest =
      read_rounds-IsConsistent sys ddname member n rounds reply.size_required
        (record p { read_buffer = none; trace = buffer_freed ∷ buffer_allocated ∷ p.trace }) in
    ground (arith, rest)

-- One if the flag is set.
abbrev held_library : Bool → ℕ
held_library true = 1
held_library false = 0

allocate_library-IsConsistent :
    (sys : ParmlibService) (ddname : Bytes) (st : ParmStatus)
    → IsConsistent
        (held_library (allocate_library sys ddname st).0)
        (allocate_library sys ddname st).1
unfolding allocate_library
allocate_library-IsConsistent sys ddname st = ground arith

allocate_library-no_buffer :
    (sys : ParmlibService) (ddname : Bytes) (st : ParmStatus)
    → (allocate_library sys ddname st).1.read_buffer ≡ none
unfolding allocate_library
allocate_library-no_buffer sys ddname st = ground arith

read_library-IsConsistent :
    (sys : ParmlibService) (ddname member : Bytes) (n : ℕ) (p : Progress)
    → p.read_buffer ≡ none
    → IsConsistent n p
    → IsConsistent n (read_library sys ddname member p)
unfolding read_library
read_library-IsConsistent sys ddname member n p e h =
    ground (arith, read_rounds-IsConsistent sys ddname member n 2 1048576 p e h)

-- The parsing keeps the buffer and the trace.
parse_buffer-IsConsistent :
    {S : Type 0} (slh_alloc : S → ℕ → Option S) (n : ℕ) (p q : Progress) (parms parms' : ParmSet S)
    → parse_buffer slh_alloc p parms ≡ some (q, parms')
    → IsConsistent n p
    → IsConsistent n q
unfolding parse_buffer
parse_buffer-IsConsistent slh_alloc n p q parms parms' e h = ground arith

release_buffer-IsConsistent :
    (n : ℕ) (p : Progress)
    → IsConsistent n p
    → IsConsistent n (release_buffer p) × ((release_buffer p).read_buffer ≡ none)
unfolding release_buffer
release_buffer-IsConsistent n p h = ground arith

free_library-IsConsistent :
    (sys : ParmlibService) (ddname : Bytes) (b : Bool) (p : Progress)
    → p.read_buffer ≡ none
    → IsConsistent (held_library b) p
    → (IsConsistent 0 (free_library sys ddname b p)
        ⊎ (IsConsistent 1 (free_library sys ddname b p) × ((sys.free ddname).0 ≢ 0)))
      × ((free_library sys ddname b p).read_buffer ≡ none)
unfolding free_library
free_library-IsConsistent sys ddname false p e h = ground arith
free_library-IsConsistent sys ddname true p e h = ground arith

-- All that was taken is given back, but for a library whose release fails.
pub record IsBalanced (sys : ParmlibService) (ddname : Bytes) (p : Progress) : Type 0 where
  pub libraries :
      ((counts p.trace).libraries_taken ≡ (counts p.trace).libraries_given)
      ⊎ (((counts p.trace).libraries_taken ≡ (counts p.trace).libraries_given + 1)
          × ((sys.free ddname).0 ≢ 0))
  pub buffers : (counts p.trace).buffers_taken ≡ (counts p.trace).buffers_given

module _ {S : Type 0} (slh_alloc : S → ℕ → Option S) where
  read_named-IsBalanced :
      (sys : ParmlibService) (ddname member : Bytes) (st : ParmStatus) (parms parms' : ParmSet S)
      (q : Progress)
      → read_named slh_alloc sys ddname member st parms ≡ some (q, parms')
      → IsBalanced sys ddname q
  unfolding read_named
  read_named-IsBalanced sys ddname member st parms parms' q e =
      let (b, p) = allocate_library sys ddname st in
      let c =
        read_library-IsConsistent sys ddname member (held_library b) p
          (allocate_library-no_buffer sys ddname st)
          (allocate_library-IsConsistent sys ddname st) in
      elim (Option-cases (parse_buffer slh_alloc (read_library sys ddname member p) parms)) [
        | inl z ↦ ground arith
        | inr ((r, parms''), z) ↦
            let d = parse_buffer-IsConsistent slh_alloc (held_library b) _ r parms parms'' z c in
            let (f, g) = release_buffer-IsConsistent (held_library b) r d in
            let (h, i) = free_library-IsConsistent sys ddname b (release_buffer r) g f in
            ground arith
      ]

  -- On every path that returns, each read buffer that the call allocated is freed, and so is the logical library,
  -- if this call allocated it and the service does not fail to release it; one that it fails to release is left allocated.
  pub zis_read_parmlib-IsBalanced :
      (sys : ParmlibService) (ddname member : Bytes) (st : ParmStatus) (parms parms' : ParmSet S)
      (q : Progress)
      → zis_read_parmlib slh_alloc sys ddname member st parms ≡ some (q, parms')
      → IsBalanced sys (space_padded ddname) q
  unfolding zis_read_parmlib
  zis_read_parmlib-IsBalanced sys ddname member st parms parms' q e = ground (
    arith,
    read_named-IsBalanced sys (space_padded ddname) (space_padded member) st parms parms' q,
  )
