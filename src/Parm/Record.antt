-- ===== src/Parm/Record.antt =====
-- One record of a PARMLIB member, c/zis/parm.c: trimming, comments, continuation, key and value.
-- `curr_record` is the first `currRecordLen` bytes of the visitor's buffer of 4096.
pub mod Trim
pub mod Lines
pub mod Member
pub mod Bounds
use zss.Prelude.{
  ℕ, zero, suc, ◌+◌, ◌-◌, ◌≡◌, Bool, true, false, ◌&&◌, ◌||◌, Option, none, some, List, [], ◌∷◌,
  ◌++◌, length, take, drop, get_elem?, Bytes, has_prefix, c_string, codes, ◌==◌, ltb, leb,
  if◌then◌else◌,
}
use zss.Parm.Set.{ParmSet, zis_put_parm_value, rc_zisparm_ok, rc_zisparm_slh_alloc_failed}

-- The first loop of `getTrimmedSlice`: the remaining bytes, the index of the first of them, and
-- `resultLength`. The index is `none` when the loop ran to the end.
unfoldable pub skip_leading : Bytes → ℕ → ℕ → Option ℕ × ℕ
skip_leading [] i result_length = (none, result_length)
skip_leading (c ∷ cs) i result_length =
    let rest = skip_leading cs (i + 1) (result_length - 1) in
    if c == b' ' then rest else (some i, result_length)

-- The second loop, from index n - 1 down. At n = 0 the source would read before the string.
unfoldable pub skip_trailing : Bytes → ℕ → ℕ → Option ℕ
skip_trailing string n zero = some zero
skip_trailing string zero (suc r) = none
skip_trailing string (suc n) (suc r) =
    let rest = skip_trailing string n r in
    elim (get_elem? string n) [ none ↦ none | some c ↦ if c == b' ' then rest else some (suc r) ]

-- The end of `getTrimmedSlice`: the slice begins where the first loop stopped, or at the string.
unfoldable pub cut_slice : Bytes → Option ℕ × ℕ → Option Bytes
cut_slice string (start, result_length) =
    elim (skip_trailing string (length string) result_length) [
      | none ↦ none
      | some n ↦ some (take n (elim start [ none ↦ string | some i ↦ drop i string ]))
    ]

-- `getTrimmedSlice`: the slice of the string; `none` is a read out of bounds.
unfoldable pub get_trimmed_slice : Bytes → Option Bytes
get_trimmed_slice [] = some []
get_trimmed_slice (c ∷ cs) = cut_slice (c ∷ cs) (skip_leading (c ∷ cs) 0 (length (c ∷ cs)))

-- `isParmCommentedOut`
unfoldable pub is_parm_commented_out : Bytes → Bool
unfolding has_prefix
is_parm_commented_out parm = has_prefix (b'*' ∷ []) parm || has_prefix (codes "//*") parm

-- `strchr(s, '=')`: the bytes in front of the sign, and those behind it if there is one.
unfoldable pub split_at_equal_sign : Bytes → Bytes × Option Bytes
split_at_equal_sign [] = ([], none)
split_at_equal_sign (c ∷ cs) =
    let (key, value) = split_at_equal_sign cs in
    if c == b'=' then ([], some cs) else (c ∷ key, value)

-- The key and the value of a full record; the value is empty with no sign.
unfoldable pub key_value : Bytes → Bytes × Bytes
unfolding c_string split_at_equal_sign
key_value record_bytes =
    let (key, value) = split_at_equal_sign (c_string record_bytes) in
    (key, elim value [ none ↦ [] | some v ↦ v ])

abbrev pub rc_zisparm_continuation_too_long : ℕ
rc_zisparm_continuation_too_long = 19

abbrev pub curr_record_size : ℕ
curr_record_size = 4096

pub record ParmRecordVisitorData (S : Type 0) : Type 0 where
  pub parm_set : ParmSet S
  pub curr_record_start : ℕ
  pub curr_record_end : ℕ
  pub curr_record : Bytes

-- `slice[sliceLength - 1] == '\\'`
unfoldable pub ends_with_backslash : Bytes → Bool
ends_with_backslash [] = false
ends_with_backslash (c ∷ []) = c == b'\\'
ends_with_backslash (c ∷ d ∷ cs) = ends_with_backslash (d ∷ cs)

abbrev pub is_empty : Bytes → Bool
is_empty [] = true
is_empty (c ∷ cs) = false

module _ {S : Type 0} (slh_alloc : S → ℕ → Option S) where
  -- The end of `handleParmRecord`: the full record is copied, the buffer is emptied, and the
  -- parameter is put. The set keeps the heap, so a failed copy leaves it as it was.
  unfoldable pub finish_record : ParmRecordVisitorData S → Option (ℕ × ParmRecordVisitorData S)
  unfolding key_value
  finish_record d = elim (slh_alloc d.parm_set.slh (length d.curr_record + 1)) [
    | none ↦ some (rc_zisparm_slh_alloc_failed, d)
    | some slh' ↦
        let (key, value) = key_value d.curr_record in
        elim (zis_put_parm_value slh_alloc (record { slh = slh'; entries = d.parm_set.entries }) key
          value) [
            | none ↦ none
            | some (rc, p) ↦ some (rc, record d { parm_set = p; curr_record = [] })
          ]
  ]

  -- `handleParmRecord` behind the trimming.
  unfoldable pub handle_slice :
      ParmRecordVisitorData S → Bytes → Option (ℕ × ParmRecordVisitorData S)
  unfolding is_parm_commented_out ends_with_backslash finish_record
  handle_slice d slice =
      if is_empty d.curr_record && is_parm_commented_out slice
      then some (rc_zisparm_ok, d)
      else if ltb curr_record_size (length d.curr_record + length slice + 1)
      then some (rc_zisparm_continuation_too_long, d)
      else if ends_with_backslash slice
      then some (
        rc_zisparm_ok,
        record d {
          curr_record = take (length (d.curr_record ++ slice) - 1) (d.curr_record ++ slice);
        },
      )
      else finish_record (record d { curr_record = d.curr_record ++ slice })

  -- `handleParmRecord`
  unfoldable pub handle_parm_record :
      ParmRecordVisitorData S → Bytes → Option (ℕ × ParmRecordVisitorData S)
  unfolding get_trimmed_slice handle_slice
  handle_parm_record d parm_record =
      let end = d.curr_record_end + 1 in
      let start = if is_empty d.curr_record then end else d.curr_record_start in
      elim (get_trimmed_slice parm_record) [
        | none ↦ none
        | some slice ↦
            handle_slice (record d { curr_record_start = start; curr_record_end = end }) slice
      ]

  -- `iterateMember` with `handleParmRecord` as the visitor.
  unfoldable pub iterate_member :
      ParmRecordVisitorData S → List Bytes → Option (ℕ × ParmRecordVisitorData S)
  unfolding handle_parm_record
  iterate_member d [] = some (rc_zisparm_ok, d)
  iterate_member d (r ∷ rs) = elim (handle_parm_record d r) [
    | none ↦ none
    | some (rc, d') ↦ elim (rc == 0) [ true ↦ iterate_member d' rs | false ↦ some (rc, d') ]
  ]
