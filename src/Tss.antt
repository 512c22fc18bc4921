-- ===== src/Tss.antt =====
-- The parsing of the output of TSS commands: c/zis/services/tssparsing.c and its header. A line is
-- given by its bytes and `len` is their number; the C `int` result -1 is `none`. Positions are of
-- `unsigned int`, so what is subtracted from them wraps. Lines are shorter than 2^31.
pub mod Keys
pub mod Scan
pub mod Trailing
pub mod Value
use zss.Prelude.{
  ℕ, zero, suc, ◌+◌, ◌-◌, ◌%◌, ◌≡◌, Bool, true, false, ◌&&◌, ◌||◌, not, Option, none, some, List,
  [], ◌∷◌, ◌++◌, length, get_elem?, take, drop, Bytes, codes, bytes_eq, has_prefix, ◌==◌, ltb, leb,
  if◌then◌else◌,
}

abbrev pub u32_mod : ℕ
u32_mod = 4294967296

-- TSS_KEY_DELIMITER.
abbrev pub tss_key_delimiter : Bytes
tss_key_delimiter = codes " = "

abbrev pub tss_key_delimiter_len : ℕ
tss_key_delimiter_len = 3

abbrev pub tss_max_key_length : ℕ
tss_max_key_length = 10

-- `TSSKeyData`; the callers set all of it to zero.
pub record TssKeyData : Type 0 where
  pub start_pos : ℕ
  pub end_pos : ℕ
  pub delim_pos : ℕ
  pub key_name : Bytes
  pub key_length : ℕ

-- The array of two keys.
pub record TssKeys : Type 0 where
  pub first : TssKeyData
  pub second : TssKeyData

-- `tssIsErrorDetected`
unfoldable pub tss_is_error_detected : Bytes → Bool
tss_is_error_detected str =
    if ltb (length str) 8
    then false
    else if has_prefix (codes "TSS") str
    then not (has_prefix (codes "TSS0300I") str)
    else false

-- `tssIsOutputDone`
unfoldable pub tss_is_output_done : Bytes → Bool
tss_is_output_done str = if ltb (length str) 3 then false else has_prefix (codes "TSS") str

abbrev key_matches : Bytes → TssKeyData → Bool
key_matches search k = k.key_length == length search && bytes_eq k.key_name search

-- `tssFindDesiredKey`; a key's name is the first `keyLength` bytes of its buffer.
unfoldable pub tss_find_desired_key : Bytes → TssKeys → Option ℕ
tss_find_desired_key search keys =
    if key_matches search keys.first
    then some 0
    else if key_matches search keys.second
    then some 1
    else none

-- The loop of `tssGetActualValueLength`, over the first n bytes from the last one down.
unfoldable pub actual_value_length : Bytes → ℕ → Option ℕ
actual_value_length str zero = none
actual_value_length str (suc n) =
    let rest = actual_value_length str n in
    elim (get_elem? str n) [
      | none ↦ rest
      | some c ↦ if not (c == b' ') && not (c == 0) then some (suc n) else rest
    ]

-- `tssGetActualValueLength`
unfoldable pub tss_get_actual_value_length : Bytes → Option ℕ
unfolding actual_value_length
tss_get_actual_value_length str = actual_value_length str (length str)

-- `tssIsLineBlank`
unfoldable pub tss_is_line_blank : Bytes → Bool
tss_is_line_blank [] = true
tss_is_line_blank (c ∷ cs) =
    let rest = tss_is_line_blank cs in if not (c == b' ') then false else rest

-- The loop of `tssFindNumberOfKeys`: a step for each place where the delimiter still fits.
unfoldable pub count_keys : ℕ → Bytes → ℕ → ℕ
count_keys zero str key_count = key_count
count_keys (suc places) str key_count =
    count_keys places (drop 1 str)
      (if has_prefix tss_key_delimiter str then key_count + 1 else key_count)

-- `tssFindNumberOfKeys` from the start of the line. On a line shorter than the delimiter
-- `lastPossibleStart` is negative.
unfoldable pub tss_find_number_of_keys : Bytes → ℕ
unfolding count_keys
tss_find_number_of_keys str =
    if ltb (length str) tss_key_delimiter_len then 0 else count_keys (length str - 2) str 0

-- `tssFindStartOfKeyReverse`: the position is the number of the pattern.
unfoldable pub tss_find_start_of_key_reverse : Bytes → ℕ → Option ℕ
tss_find_start_of_key_reverse str zero = none
tss_find_start_of_key_reverse str (suc zero) = none
tss_find_start_of_key_reverse str (suc (suc p)) =
    let rest = tss_find_start_of_key_reverse str (suc p) in
    elim (get_elem? str (suc p)) [
      | none ↦ rest
      | some c ↦ elim (get_elem? str p) [
        | none ↦ rest
        | some d ↦ if c == b' ' && d == b' ' then some (suc (suc p)) else rest
      ]
    ]

-- The loop of `tssFindEndOfKeyReverse` with n positions left, the first of them n - 1.
unfoldable pub end_of_key_reverse : Bytes → ℕ → Option ℕ
end_of_key_reverse str zero = none
end_of_key_reverse str (suc p) =
    let rest = end_of_key_reverse str p in
    elim (get_elem? str p) [ none ↦ rest | some c ↦ if not (c == b' ') then some p else rest ]

-- `tssFindEndOfKeyReverse`
unfoldable pub tss_find_end_of_key_reverse : Bytes → ℕ → Option ℕ
unfolding end_of_key_reverse
tss_find_end_of_key_reverse str start_pos = end_of_key_reverse str (start_pos + 1)

-- The loop of `tssFindSingleKey` for the first byte that is no blank; it leaves out the last byte
-- of the line, and leaves `startPos` as it was if there is none.
unfoldable pub first_non_blank : ℕ → Bytes → ℕ → ℕ
first_non_blank i [] start_pos = start_pos
first_non_blank i (c ∷ []) start_pos = start_pos
first_non_blank i (c ∷ d ∷ cs) start_pos =
    let rest = first_non_blank (i + 1) (d ∷ cs) start_pos in if not (c == b' ') then i else rest

-- The length of a key from its ends, an `int`: too long, or negative if the key ends before it
-- starts. A negative one is not more than the bound, and is stored.
unfoldable pub int_distance : ℕ → ℕ → ℕ
int_distance start_pos end_pos = (end_pos + 1 + u32_mod - start_pos) % u32_mod

-- `x > TSS_MAX_KEY_LENGTH` for an `int` by its 32 bits.
unfoldable pub is_key_too_long : ℕ → Bool
is_key_too_long n = ltb tss_max_key_length n && ltb n 2147483648

-- What `indexOfString` and `lastIndexOfString` of the common utilities return for the delimiter.
pub record Search : Type 0 where
  pub index_of_string : Bytes → Bytes → Option ℕ
  pub last_index_of_string : Bytes → Bytes → Option ℕ

-- The end and the length of a key whose delimiter and start are known.
unfoldable pub close_key : Bytes → ℕ → ℕ → TssKeyData → Option TssKeyData
unfolding int_distance is_key_too_long
close_key str start_pos end_pos k =
    let n = int_distance start_pos end_pos in
    if is_key_too_long n
    then none
    else some (record k { start_pos = start_pos; end_pos = end_pos; key_length = n })

-- The byte in front, if there is one.
abbrev starts_with_text : Bytes → Bool
starts_with_text [] = false
starts_with_text (c ∷ cs) = not (c == b' ')

-- `tssFindSingleKey`; `startPos == -1` is a test for all bits.
unfoldable pub tss_find_single_key : Search → Bytes → TssKeyData → Option TssKeyData
unfolding first_non_blank tss_find_end_of_key_reverse close_key
tss_find_single_key sys str k =
    let start_pos = if starts_with_text str then 0 else first_non_blank 0 str k.start_pos in
    if not (starts_with_text str) && start_pos == u32_mod - 1
    then none
    else elim (sys.index_of_string str tss_key_delimiter) [
      | none ↦ none
      | some delim ↦ elim (tss_find_end_of_key_reverse str delim) [
        | none ↦ none
        | some end_pos ↦ close_key str start_pos end_pos (record k { delim_pos = delim })
      ]
    ]

-- The second half of `tssFindDoubleKey`.
unfoldable pub tss_find_second_key : Search → Bytes → TssKeyData → Option TssKeyData
unfolding tss_find_start_of_key_reverse tss_find_end_of_key_reverse close_key
tss_find_second_key sys str k = elim (sys.last_index_of_string str tss_key_delimiter) [
  | none ↦ none
  | some delim ↦ elim (tss_find_end_of_key_reverse str delim) [
    | none ↦ none
    | some end_pos ↦ elim (tss_find_start_of_key_reverse str end_pos) [
      | none ↦ none
      | some start_pos ↦ close_key str start_pos end_pos (record k { delim_pos = delim })
    ]
  ]
]

-- `tssFindAllPossibleKeys`, with `tssFindDoubleKey`.
unfoldable pub tss_find_all_possible_keys : Search → Bytes → TssKeys → ℕ → Option TssKeys
unfolding tss_find_single_key tss_find_second_key
tss_find_all_possible_keys sys str keys number_of_keys =
    if number_of_keys == 1
    then elim (tss_find_single_key sys str keys.first) [
      | none ↦ none
      | some k ↦ some (record keys { first = k })
    ]
    else if number_of_keys == 2
    then elim (tss_find_single_key sys str keys.first) [
      | none ↦ none
      | some k ↦ elim (tss_find_second_key sys str keys.second) [
        | none ↦ none
        | some l ↦ some (record { first = k; second = l })
      ]
    ]
    else none

-- One copy of `tssFindNameForKeys`.
abbrev named : Bytes → TssKeyData → TssKeyData
named str k = record k { key_name = take k.key_length (drop k.start_pos str) }

-- `tssFindNameForKeys`
unfoldable pub tss_find_name_for_keys : Bytes → TssKeys → TssKeys
tss_find_name_for_keys str keys = record {
  first = named str keys.first;
  second = named str keys.second;
}

-- `tssParseLineForKeys`
unfoldable pub tss_parse_line_for_keys : Search → Bytes → TssKeys → Option (ℕ × TssKeys)
unfolding tss_is_line_blank tss_find_number_of_keys tss_find_all_possible_keys
    tss_find_name_for_keys
tss_parse_line_for_keys sys str keys =
    let n = tss_find_number_of_keys str in
    if tss_is_line_blank str
    then some (0, keys)
    else if ltb 2 n || n == 0
    then none
    else elim (tss_find_all_possible_keys sys str keys n) [
      | none ↦ none
      | some found ↦ some (n, tss_find_name_for_keys str found)
    ]

-- The last position of a value, from the size of the buffer and the end of the line. All sums are
-- of `unsigned int`.
unfoldable pub value_end : ℕ → ℕ → ℕ → ℕ
value_end len start size =
    let last = (len + u32_mod - 1) % u32_mod in
    if leb last ((start + size) % u32_mod) then last else (start + size + u32_mod - 1) % u32_mod

-- The copy of the value into the buffer: the bytes of the line from `start`, `val_len` of them, and
-- the rest of the buffer. `none` is -1.
unfoldable pub copy_value : Bytes → ℕ → ℕ → Bytes → Option Bytes
copy_value str start end_pos buffer =
    let val_len = (end_pos + 1 + u32_mod - start) % u32_mod in
    if ltb (length buffer) val_len
    then none
    else some (take val_len (drop start str) ++ drop val_len buffer)

-- `tssFindValueSingleKey`
unfoldable pub tss_find_value_single_key :
    (Bytes → Bytes) → Bytes → TssKeyData → Bytes → Option Bytes
tss_find_value_single_key pad str k buffer =
    let start = (k.delim_pos + tss_key_delimiter_len) % u32_mod in
    elim (copy_value str start (value_end (length str) start (length buffer)) buffer) [
      | none ↦ none
      | some b ↦ some (pad b)
    ]

-- `tssFindValueDoubleKey`: a value does not go into the other key.
unfoldable pub tss_find_value_double_key :
    (Bytes → Bytes) → Bytes → TssKeyData → TssKeyData → Bytes → Option Bytes
tss_find_value_double_key pad str k other buffer =
    let start = (k.delim_pos + tss_key_delimiter_len) % u32_mod in
    let last = value_end (length str) start (length buffer) in
    let last' =
      if leb other.start_pos last && leb last other.end_pos
      then (other.start_pos + u32_mod - 3) % u32_mod
      else last in
    elim (copy_value str start last' buffer) [ none ↦ none | some b ↦ some (pad b) ]

-- `tssFindValueForKey`, with `tssGetOtherKeyIndex`; `pad` is `padWithSpaces` on the buffer.
unfoldable pub tss_find_value_for_key :
    (Bytes → Bytes) → Bytes → TssKeys → ℕ → ℕ → Bytes → Option Bytes
unfolding tss_find_value_single_key tss_find_value_double_key
tss_find_value_for_key pad str keys key_index number_of_keys buffer =
    let k = if key_index == 0 then keys.first else keys.second in
    let other = if key_index == 0 then keys.second else keys.first in
    if number_of_keys == 1
    then tss_find_value_single_key pad str k buffer
    else if number_of_keys == 2
    then tss_find_value_double_key pad str k other buffer
    else none
