-- ===== src/Tss/Value.antt =====
-- The copy of a value into the caller's buffer.
use zss.Prelude.{
  ℕ, ◌+◌, ◌-◌, ◌%◌, ◌≤◌, ◌<◌, ◌≡◌, none, some, ◌++◌, length, take, drop, Bytes, ◌==◌, ltb, leb,
  if◌then◌else◌, arith,
}
use zss.Tss.{TssKeyData, value_end, copy_value, tss_find_value_single_key, u32_mod}

-- The value behind a delimiter, as far as the buffer goes, over what was in the buffer.
abbrev pub overwritten : Bytes → ℕ → Bytes → Bytes
overwritten value n buffer = take n value ++ drop n buffer

-- The position of the last byte that is copied, one up, and how many there are.
value_end_lem :
    (len start size : ℕ)
    → 0 < len
    → start ≤ len
    → len < 2147483648
    → size < 2147483648
    → 0 < size
    → (value_end len start size + 1 + u32_mod - start) % u32_mod
      ≡ (if leb (len - 1) (start + size) then len - start else size)
unfolding value_end
value_end_lem len start size a b c d e = ground arith

copy_value_lem :
    (str : Bytes) (start end_pos : ℕ) (buffer : Bytes) (n : ℕ)
    → (end_pos + 1 + u32_mod - start) % u32_mod ≡ n
    → copy_value str start end_pos buffer
      ≡ (if ltb (length buffer) n then none else some (overwritten (drop start str) n buffer))
unfolding copy_value
copy_value_lem str start end_pos buffer n e = rw e

-- For one key on a line shorter than 2^31, with its delimiter in the line and a buffer that is not
-- empty and shorter than 2^31: a value that fits is copied whole, a longer one is cut to the buffer,
-- but one that is longer by a single byte is refused.
pub tss_find_value_single_key_lem :
    (pad : Bytes → Bytes) (str : Bytes) (k : TssKeyData) (buffer : Bytes)
    → k.delim_pos + 3 ≤ length str
    → length str < 2147483648
    → 0 < length buffer
    → length buffer < 2147483648
    → tss_find_value_single_key pad str k buffer ≡ (
        if length str - (k.delim_pos + 3) == length buffer + 1
        then none
        else if leb (length str - (k.delim_pos + 3)) (length buffer)
        then some
            (pad (overwritten (drop (k.delim_pos + 3) str) (length str - (k.delim_pos + 3)) buffer))
        else some (pad (overwritten (drop (k.delim_pos + 3) str) (length buffer) buffer)))
unfolding tss_find_value_single_key
tss_find_value_single_key_lem pad str k buffer a b c d =
    let start : (k.delim_pos + 3) % u32_mod ≡ k.delim_pos + 3 = omega arith in
    let n = value_end_lem (length str) (k.delim_pos + 3) (length buffer) (omega arith) a b d c in
    let copied = copy_value_lem str (k.delim_pos + 3) _ buffer _ n in
    rw (tss_find_value_single_key, start)
      (rw (copied, tss_find_value_single_key) (ground (arith, n)))
