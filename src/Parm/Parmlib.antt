-- ===== src/Parm/Parmlib.antt =====
-- `zisReadParmlib` of c/zis/parm.c, with its helpers. The service IEFPRMLB and the storage manager
-- are not part of the repository: a `ParmlibService` gives their replies. A trace holds what the
-- call took and gave back, newest first.
pub mod Balance
pub mod Reading
use zss.Prelude.{
  ℕ, zero, suc, ◌+◌, ◌-◌, ◌≡◌, Bool, true, false, ◌&&◌, not, Option, none, some, List, [], ◌∷◌,
  ◌++◌, length, replicate, Bytes, ◌==◌, ltb, leb, if◌then◌else◌,
}
use zss.Parm.Set.{ParmSet, rc_zisparm_ok}
use zss.Parm.Record.{ParmRecordVisitorData, iterate_member}

-- A reply of IEFPRMLB REQUEST=READMEMBER: codes, `sizeRequired`, and the records in the buffer.
pub record ReadReply : Type 0 where
  pub rc : ℕ
  pub rsn : ℕ
  pub size_required : ℕ
  pub records : List Bytes

pub record ParmlibService : Type 0 where
  pub allocate : Bytes → ℕ × ℕ
  pub read_member : ℕ → Bytes → Bytes → ℕ → ReadReply
  pub free : Bytes → ℕ × ℕ
  pub safe_malloc31 : ℕ → Bool

pub data Event : Type 0 where
  library_allocated library_freed buffer_allocated buffer_freed : Event

-- `ZISParmStatus`
pub record ParmStatus : Type 0 where
  pub internal_rc : ℕ
  pub internal_rsn : ℕ

abbrev pub rc_zisparm_member_not_found : ℕ
rc_zisparm_member_not_found = 2

abbrev pub rc_zisparm_ddname_too_long : ℕ
rc_zisparm_ddname_too_long = 8

abbrev pub rc_zisparm_member_name_too_long : ℕ
rc_zisparm_member_name_too_long = 9

abbrev pub rc_zisparm_parmlib_alloc_failed : ℕ
rc_zisparm_parmlib_alloc_failed = 10

abbrev pub rc_zisparm_read_buffer_alloc_failed : ℕ
rc_zisparm_read_buffer_alloc_failed = 11

abbrev pub rc_zisparm_parmlib_read_failed : ℕ
rc_zisparm_parmlib_read_failed = 12

abbrev pub rc_zisparm_parmlib_free_failed : ℕ
rc_zisparm_parmlib_free_failed = 13

-- RC_IEFPRMLB_OK, _WARN and _FAILED, with the reason codes that are looked at.
abbrev pub iefprmlb_ok : ℕ
iefprmlb_ok = 0

abbrev pub is_already_allocated : ℕ × ℕ → Bool
is_already_allocated (rc, rsn) = rc == 4 && rsn == 1

abbrev pub is_not_found : ReadReply → Bool
is_not_found r = r.rc == 12 && r.rsn == 1

abbrev pub is_buffer_full : ReadReply → Bool
is_buffer_full r = r.rc == 12 && r.rsn == 10

abbrev pub name_size : ℕ
name_size = 8

-- The memset and memcpy on a field of eight bytes.
abbrev pub space_padded : Bytes → Bytes
space_padded name = name ++ replicate (name_size - length name) b' '

abbrev pub read_buffer_default_size : ℕ
read_buffer_default_size = 1048576

-- `allocReadBuffer`: a size that holds no more than the header of 24 bytes is refused.
unfoldable pub alloc_read_buffer : ParmlibService → ℕ → Bool
alloc_read_buffer sys size = if leb size 24 then false else sys.safe_malloc31 size

-- What the part in front of the parsing leaves behind.
pub record Progress : Type 0 where
  pub status : ℕ
  pub read_status : ParmStatus
  pub read_buffer : Option ReadReply
  pub trace : List Event

-- The loop of at most two rounds: `rounds` are left. A reply that fails otherwise leaves the loop
-- at the next test of the status, with the buffer kept.
unfoldable pub read_rounds : ParmlibService → Bytes → Bytes → ℕ → ℕ → Progress → Progress
unfolding alloc_read_buffer
read_rounds sys ddname member zero size p = p
read_rounds sys ddname member (suc rounds) size p =
    let reply = sys.read_member rounds ddname member size in
    let trace = buffer_allocated ∷ p.trace in
    let again =
      read_rounds sys ddname member rounds reply.size_required
        (record p { read_buffer = none; trace = buffer_freed ∷ trace }) in
    if alloc_read_buffer sys size
    then (if reply.rc == iefprmlb_ok
        then record p { read_buffer = some reply; trace = trace }
        else if is_not_found reply
        then record p {
          status = rc_zisparm_member_not_found;
          read_buffer = some reply;
          trace = trace;
        }
        else if is_buffer_full reply
        then again
        else record {
          status = rc_zisparm_parmlib_read_failed;
          read_status = record { internal_rc = reply.rc; internal_rsn = reply.rsn };
          read_buffer = some reply;
          trace = trace;
        })
    else record p { status = rc_zisparm_read_buffer_alloc_failed }

-- The allocation of the logical library; the flag is `ddnameAllocated`.
unfoldable pub allocate_library : ParmlibService → Bytes → ParmStatus → Bool × Progress
allocate_library sys ddname st =
    let (rc, rsn) = sys.allocate ddname in
    if rc == iefprmlb_ok
    then (
      true,
      record {
        status = rc_zisparm_ok;
        read_status = st;
        read_buffer = none;
        trace = library_allocated ∷ [];
      },
    )
    else if is_already_allocated (rc, rsn)
    then (
      false,
      record { status = rc_zisparm_ok; read_status = st; read_buffer = none; trace = [] },
    )
    else (
      false,
      record {
        status = rc_zisparm_parmlib_alloc_failed;
        read_status = record { internal_rc = rc; internal_rsn = rsn };
        read_buffer = none;
        trace = [];
      },
    )

-- The loop is left at once when the allocation has failed.
unfoldable pub read_library : ParmlibService → Bytes → Bytes → Progress → Progress
read_library sys ddname member p =
    if p.status == rc_zisparm_ok
    then read_rounds sys ddname member 2 read_buffer_default_size p
    else p

-- `freeReadBuffer`, if there is a buffer.
unfoldable pub release_buffer : Progress → Progress
release_buffer p = elim p.read_buffer [
  | none ↦ p
  | some _ ↦ record p { read_buffer = none; trace = buffer_freed ∷ p.trace }
]

-- The release of the library, if this call has allocated it; a release that fails leaves it.
unfoldable pub free_library : ParmlibService → Bytes → Bool → Progress → Progress
free_library sys ddname false p = p
free_library sys ddname true p =
    let (rc, rsn) = sys.free ddname in
    let freed = record p { trace = library_freed ∷ p.trace } in
    if rc == iefprmlb_ok then freed else if p.status == rc_zisparm_ok then p else record p {
      status = rc_zisparm_parmlib_free_failed;
      read_status = record { internal_rc = rc; internal_rsn = rsn };
    }

-- A return in front of any call of the service.
abbrev pub refused : ℕ → ParmStatus → Progress
refused rc st = record { status = rc; read_status = st; read_buffer = none; trace = [] }

module _ {S : Type 0} (slh_alloc : S → ℕ → Option S) where
  -- `iterateMember` on the buffer that was read; `none` reads through a NULL buffer.
  unfoldable pub parse_buffer : Progress → ParmSet S → Option (Progress × ParmSet S)
  parse_buffer p parms =
      if p.status == rc_zisparm_ok
      then elim p.read_buffer [
        | none ↦ none
        | some reply ↦
            elim (iterate_member slh_alloc
              (record {
                parm_set = parms;
                curr_record_start = 0;
                curr_record_end = 0;
                curr_record = [];
              })
              reply.records) [
                | none ↦ none
                | some (rc, d) ↦ some (
                  if rc == rc_zisparm_ok then p else record p {
                    status = rc;
                    read_status = record {
                      internal_rc = d.curr_record_start;
                      internal_rsn = d.curr_record_end;
                    };
                  },
                  d.parm_set,
                )
              ]
      ]
      else some (p, parms)

  unfoldable pub read_named :
      ParmlibService → Bytes → Bytes → ParmStatus → ParmSet S → Option (Progress × ParmSet S)
  read_named sys ddname member st parms =
      let (allocated, p) = allocate_library sys ddname st in
      elim (parse_buffer (read_library sys ddname member p) parms) [
        | none ↦ none
        | some (q, parms') ↦ some (free_library sys ddname allocated (release_buffer q), parms')
      ]

  -- `zisReadParmlib`
  unfoldable pub zis_read_parmlib :
      ParmlibService → Bytes → Bytes → ParmStatus → ParmSet S → Option (Progress × ParmSet S)
  zis_read_parmlib sys ddname member st parms =
      if ltb name_size (length ddname)
      then some (refused rc_zisparm_ddname_too_long st, parms)
      else if ltb name_size (length member)
      then some (refused rc_zisparm_member_name_too_long st, parms)
      else read_named sys (space_padded ddname) (space_padded member) st parms
