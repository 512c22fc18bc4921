-- ===== src/Tests/Parm.antt =====
-- The parameters at concrete inputs: a heap of 4096 bytes, and a service that delivers a member.
use zss.Server.Config.{extract_parmlib_member_name}
use zss.Server.Load.{load_config}
use zss.Server.Load.Sources.{main_contents, Loaded, load_config-Loaded}
use zss.Parm.Record.Lines.{upsert_all}
use zss.Parm.MainParms.Fields.{fields}
use zss.Parm.Set.{Entry}
use zss.Prelude.{
  suc, ℕ, ◌-◌, ◌≡◌, refl, inl, inr, true, Option, none, some, List, [], ◌∷◌, map, Bytes, codes, ltb,
  bytes_eq, has_prefix, c_string, if◌then◌else◌, arith,
}
use zss.Parm.Set.{
  ParmSet, find_entry, zis_put_parm_value, rc_zisparm_ok, add_entry, change_entry, store_key,
  store_value,
}
use zss.Parm.Set.Contents.{upsert, Contents, stored, value_of}
use zss.Parm.Set.Refines.{PutResult, zis_put_parm_value-upsert}
use zss.Parm.Record.{
  ParmRecordVisitorData, iterate_member, handle_parm_record, handle_slice, finish_record, cut_slice,
  skip_leading, skip_trailing, is_parm_commented_out, ends_with_backslash, key_value,
  split_at_equal_sign,
}
use zss.Parm.Record.Member.{Outcome, iterate_member-Outcome}
use zss.Parm.Record.Bounds.{HasRoom, iterate_member-HasRoom}
use zss.Parm.Record.Trim.{trim, get_trimmed_slice-trim}
use zss.Parm.Record.{get_trimmed_slice}
use zss.Parm.MainParms.{zis_read_main_parms}
use zss.Parm.MainParms.Fields.{Outcome as MainOutcome, zis_read_main_parms-Outcome}
use zss.Parm.Parmlib.{
  ParmlibService, ParmStatus, Progress, library_allocated, library_freed, buffer_allocated,
  buffer_freed, zis_read_parmlib, alloc_read_buffer, read_named, read_library, read_rounds,
  allocate_library, release_buffer, free_library, parse_buffer,
}
use zss.Parm.Parmlib.Balance.{IsBalanced, zis_read_parmlib-IsBalanced}
use zss.Parm.Parmlib.Reading.{ReadsTo, zis_read_parmlib-ReadsTo, zis_read_parmlib_full_twice}

abbrev heap : ℕ → ℕ → Option ℕ
heap left n = if ltb left n then none else some (left - n)

abbrev held : Contents
held = (codes "NAME", codes "ZWESIS_STD") ∷ []

abbrev parms : ParmSet ℕ
parms = record { slh = 4096; entries = map stored held }

abbrev records : List Bytes
records = codes "* comment" ∷ codes "  A=1\\" ∷ codes "23 " ∷ codes "NAME=X" ∷ []

abbrev visitor : ParmRecordVisitorData ℕ
visitor = record { parm_set = parms; curr_record_start = 0; curr_record_end = 0; curr_record = [] }

zis_put_parm_value-upsert_example :
    (r : ℕ × ParmSet ℕ) × (zis_put_parm_value heap parms (codes "NAME") (codes "NEW") ≡ some r)
    × PutResult heap parms.slh held (codes "NAME") (codes "NEW") r
zis_put_parm_value-upsert_example =
    zis_put_parm_value-upsert heap parms (codes "NAME") (codes "NEW") held refl

iterate_member-Outcome_example :
    (x : ℕ × ParmRecordVisitorData ℕ) × (iterate_member heap visitor records ≡ some x)
    × Outcome heap visitor.parm_set.slh held [] records x
iterate_member-Outcome_example = iterate_member-Outcome heap visitor held records refl

iterate_member-HasRoom_example : HasRoom heap (iterate_member heap visitor records)
iterate_member-HasRoom_example = iterate_member-HasRoom heap visitor records (omega arith)

get_trimmed_slice-trim_example : get_trimmed_slice (codes "  A=1 ") ≡ some (trim (codes "  A=1 "))
get_trimmed_slice-trim_example = get_trimmed_slice-trim (codes "  A=1 ")

zis_read_main_parms-Outcome_example :
    (x : ℕ × ParmSet ℕ) × (zis_read_main_parms heap true (codes "COLD,NAME=X") parms ≡ some x)
    × MainOutcome heap parms.slh held (codes "COLD,NAME=X") x
zis_read_main_parms-Outcome_example =
    zis_read_main_parms-Outcome heap (codes "COLD,NAME=X") parms held refl

-- The member is in the first buffer.
abbrev delivering : ParmlibService
delivering = record {
  allocate = λ d. (0, 0);
  read_member = λ k d m n. record { rc = 0; rsn = 0; size_required = 0; records = records };
  free = λ d. (0, 0);
  safe_malloc31 = λ n. true;
}

-- Every buffer is too small for the member.
abbrev growing : ParmlibService
growing = record {
  allocate = λ d. (4, 1);
  read_member = λ k d m n. record { rc = 12; rsn = 10; size_required = 2000000; records = [] };
  free = λ d. (0, 0);
  safe_malloc31 = λ n. true;
}

abbrev fresh : ParmStatus
fresh = record { internal_rc = 0; internal_rsn = 0 }

zis_read_parmlib-ReadsTo_example :
    (x : Progress × ParmSet ℕ) × (zis_read_parmlib heap delivering
        (codes "PARMLIB")
        (codes "ZWESIP00")
        fresh
        parms
      ≡ some x)
    × ReadsTo heap held records x
zis_read_parmlib-ReadsTo_example =
    zis_read_parmlib-ReadsTo heap delivering (codes "PARMLIB") (codes "ZWESIP00") fresh parms
      (omega arith) (omega arith) (inl refl) refl held refl refl

zis_read_parmlib_full_twice_example :
    zis_read_parmlib heap growing (codes "PARMLIB") (codes "ZWESIP00") fresh parms ≡ none
zis_read_parmlib_full_twice_example =
    zis_read_parmlib_full_twice heap growing (codes "PARMLIB") (codes "ZWESIP00") fresh parms
      (omega arith) (omega arith) (inr (refl, refl)) refl refl (unfold alloc_read_buffer in refl)
      refl

-- What the call on the delivering service returns.
abbrev read : ParmSet ℕ
read = record {
  slh = 4043;
  entries = map stored ((codes "NAME", codes "X") ∷ (codes "A", codes "123") ∷ []);
}

abbrev done : Progress
done = record {
  status = rc_zisparm_ok;
  read_status = fresh;
  read_buffer = none;
  trace = library_freed ∷ buffer_freed ∷ buffer_allocated ∷ library_allocated ∷ [];
}

delivered :
    zis_read_parmlib heap delivering (codes "PARMLIB") (codes "ZWESIP00") fresh parms
    ≡ some (done, read)
unfolding zis_read_parmlib read_named read_library read_rounds alloc_read_buffer allocate_library
    release_buffer free_library parse_buffer iterate_member handle_parm_record handle_slice
    finish_record get_trimmed_slice cut_slice skip_leading skip_trailing is_parm_commented_out
    ends_with_backslash key_value split_at_equal_sign has_prefix c_string zis_put_parm_value
    find_entry add_entry change_entry store_key store_value bytes_eq
delivered = refl

zis_read_parmlib-IsBalanced_example : IsBalanced delivering (codes "PARMLIB ") done
zis_read_parmlib-IsBalanced_example =
    zis_read_parmlib-IsBalanced heap delivering (codes "PARMLIB") (codes "ZWESIP00") fresh parms
      read done delivered

-- The member that the main parameters name.
member_named :
    extract_parmlib_member_name
      (codes "ZWESIS01")
      (value_of (codes "MEM") (main_contents (codes "COLD,MEM=07")))
    ≡ some (codes "ZWESIP07")
unfolding extract_parmlib_member_name value_of upsert upsert_all fields key_value
    split_at_equal_sign c_string bytes_eq
member_named = refl

load_config-Loaded_example :
    (x : ℕ × Option (ParmSet ℕ)) × (load_config heap delivering
        (codes "ZWESIS01")
        (some 4096)
        true
        (codes "COLD,MEM=07")
      ≡ some x)
    × Loaded heap delivering
        (codes "ZWESIS01")
        (inl refl)
        refl
        (main_contents (codes "COLD,MEM=07"))
        records
        x
load_config-Loaded_example =
    load_config-Loaded heap delivering (codes "ZWESIS01") (inl refl) refl (some 4096) true
      (codes "COLD,MEM=07") (codes "ZWESIP07") member_named refl

-- A core server that counts its parameters and takes one.
abbrev add_parm : ℕ → Option Bytes → Option Bytes → ℕ × ℕ
add_parm n key value = if ltb n 1 then (0, suc n) else (8, n)

abbrev two : List Entry
two = stored (codes "A", codes "1") ∷ stored (codes "B", codes "2") ∷ []
