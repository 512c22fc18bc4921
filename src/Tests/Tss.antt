-- ===== src/Tests/Tss.antt =====
-- A line of TSS output.
use zss.Prelude.{
  refl, ℕ, has_prefix, [], ◌≤◌, ◌<◌, ◌+◌, ◌-◌, ◌≡◌, none, some, length, drop, Bytes, codes, ◌==◌,
  leb, if◌then◌else◌, arith,
}
use zss.Tss.Keys.{Parsed, tss_parse_line_for_keys-Parsed}
use zss.Tss.{
  TssKeyData, TssKeys, Search, count_keys, tss_find_all_possible_keys, tss_find_single_key,
  first_non_blank, tss_find_end_of_key_reverse, end_of_key_reverse, close_key, int_distance,
  is_key_too_long, tss_find_name_for_keys, tss_parse_line_for_keys, tss_find_number_of_keys,
  tss_is_line_blank, tss_find_value_single_key,
}
use zss.Tss.Value.{overwritten, tss_find_value_single_key_lem}

abbrev line : Bytes
line = codes "ACCESSORID = USER01"

abbrev key : TssKeyData
key = record {
  start_pos = 0;
  end_pos = 9;
  delim_pos = 10;
  key_name = codes "ACCESSORID";
  key_length = 10;
}

abbrev buffer : Bytes
buffer = codes "        "

tss_find_value_single_key_lem_example : tss_find_value_single_key (λ b. b) line key buffer ≡ (
    if length line - (key.delim_pos + 3) == length buffer + 1
    then none
    else if leb (length line - (key.delim_pos + 3)) (length buffer)
    then some
        (overwritten (drop (key.delim_pos + 3) line) (length line - (key.delim_pos + 3)) buffer)
    else some (overwritten (drop (key.delim_pos + 3) line) (length buffer) buffer))
tss_find_value_single_key_lem_example =
    tss_find_value_single_key_lem (λ b. b) line key buffer (omega arith) (omega arith) (omega arith)
      (omega arith)

-- The searches for this line.
abbrev searches : Search
searches = record { index_of_string = λ s d. some 10; last_index_of_string = λ s d. some 10 }

abbrev no_key : TssKeyData
no_key = record { start_pos = 0; end_pos = 0; delim_pos = 0; key_name = []; key_length = 0 }

abbrev found : TssKeys
found = record { first = key; second = no_key }

line_parsed :
    tss_parse_line_for_keys searches line (record { first = no_key; second = no_key })
    ≡ some (1, found)
unfolding tss_parse_line_for_keys tss_is_line_blank tss_find_number_of_keys count_keys has_prefix
    tss_find_all_possible_keys tss_find_single_key first_non_blank tss_find_end_of_key_reverse
    end_of_key_reverse close_key int_distance is_key_too_long tss_find_name_for_keys
line_parsed = refl

in_line : (d : ℕ) → some 10 ≡ some d → d + 3 ≤ length line
in_line d e = ground arith

line_short : length line < 2147483648
line_short = omega arith

tss_parse_line_for_keys-Parsed_example :
    Parsed searches line in_line in_line line_short
      (record { first = no_key; second = no_key })
      1
      found
tss_parse_line_for_keys-Parsed_example =
    tss_parse_line_for_keys-Parsed searches line in_line in_line line_short
      (record { first = no_key; second = no_key }) found 1 line_parsed
