-- ===== src/Tss/Keys.antt =====
-- The keys that are found on a line, and the copy of their names.
use zss.Prelude.{
  ℕ, zero, suc, ◌+◌, ◌-◌, ◌%◌, ◌≤◌, ◌<◌, ◌≡◌, refl, ◌⊎◌, inl, inr, true, false, Option, none, some,
  [], ◌∷◌, length, length-take, length-drop, take, drop, get_elem?, Bytes, ◌==◌, if◌then◌else◌,
  arith, Bool-cases, Option-cases,
}
use zss.Tss.{
  u32_mod, tss_key_delimiter, tss_max_key_length, TssKeyData, TssKeys,
  tss_find_start_of_key_reverse, end_of_key_reverse, tss_find_end_of_key_reverse, first_non_blank,
  int_distance, is_key_too_long, Search, close_key, starts_with_text, tss_find_single_key,
  tss_find_second_key, tss_find_all_possible_keys, named, tss_find_name_for_keys,
  tss_parse_line_for_keys, tss_is_line_blank, tss_find_number_of_keys,
}

-- There is a byte at the position, and it is no blank.
abbrev pub IsText : Option ℕ → Type 0
IsText none = ⊥
IsText (some c) = (c == b' ') ≡ false

end_of_key_reverse-IsText :
    (str : Bytes) (n e : ℕ) → end_of_key_reverse str n ≡ some e → (e < n) × IsText (get_elem? str e)
unfolding end_of_key_reverse
end_of_key_reverse-IsText str zero e h = ground arith
end_of_key_reverse-IsText str (suc p) e h = elim (Option-cases (get_elem? str p)) [
  | inl g ↦ let (a, b) = end_of_key_reverse-IsText str p e (ground arith) in (omega arith, b)
  | inr (c, g) ↦ elim (Bool-cases (c == b' ')) [
    | inl f ↦ let (a, b) = end_of_key_reverse-IsText str p e (ground arith) in (omega arith, b)
    | inr f ↦ let i : p ≡ e = ground arith in (omega arith, rw (← i) (rw g f))
  ]
]

-- The loop stops at the first byte that is no blank, so not behind another one.
first_non_blank_le :
    (i : ℕ) (str : Bytes) (start_pos e : ℕ)
    → IsText (get_elem? str e)
    → e + 1 < length str
    → first_non_blank i str start_pos ≤ i + e
unfolding first_non_blank
first_non_blank_le i [] start_pos e t l = absurd (omega arith)
first_non_blank_le i (c ∷ []) start_pos e t l = absurd (omega arith)
first_non_blank_le i (c ∷ d ∷ cs) start_pos zero t l = ground arith
first_non_blank_le i (c ∷ d ∷ cs) start_pos (suc e) t l =
    ground (arith, first_non_blank_le (i + 1) (d ∷ cs) start_pos e t (omega arith))

tss_find_start_of_key_reverse_le :
    (str : Bytes) (p s : ℕ) → tss_find_start_of_key_reverse str p ≡ some s → s ≤ p
unfolding tss_find_start_of_key_reverse
tss_find_start_of_key_reverse_le str zero s h = ground arith
tss_find_start_of_key_reverse_le str (suc zero) s h = ground arith
tss_find_start_of_key_reverse_le str (suc (suc p)) s h =
    ground (arith, tss_find_start_of_key_reverse_le str (suc p) s)

-- The ends of a key are in the line, in order, and its length is that of the key.
pub record IsKey (str : Bytes) (k : TssKeyData) : Type 0 where
  pub ordered : k.start_pos ≤ k.end_pos
  pub within : k.end_pos < length str
  pub distance : k.key_length ≡ k.end_pos + 1 - k.start_pos
  pub key_length_le : k.key_length ≤ tss_max_key_length

close_key-IsKey :
    (str : Bytes) (start_pos end_pos : ℕ) (k l : TssKeyData)
    → start_pos ≤ end_pos
    → end_pos < length str
    → length str < 2147483648
    → close_key str start_pos end_pos k ≡ some l
    → IsKey str l
unfolding close_key int_distance is_key_too_long
close_key-IsKey str s e k l a b c h =
    let n : (e + 1 + u32_mod - s) % u32_mod ≡ e + 1 - s = omega arith in
    elim (Bool-cases (is_key_too_long (int_distance s e))) [
      | inl f ↦ ground arith
      | inr f ↦
          let i : record k { start_pos = s; end_pos = e; key_length = int_distance s e } ≡ l =
            ground (arith, f) in
          rw (← i)
            (record { ordered = a; within = b; distance = n; key_length_le = ground (arith, f, n) })
    ]

-- The searches give positions at which the delimiter is in the line.
module _ (sys : Search) (str : Bytes)
    (index : (d : ℕ) → sys.index_of_string str tss_key_delimiter ≡ some d → d + 3 ≤ length str)
    (last_index : (d : ℕ)
      → sys.last_index_of_string str tss_key_delimiter ≡ some d
      → d + 3 ≤ length str)
    (short : length str < 2147483648) where
  -- The start of a key is not behind the text that its end was found at.
  start_le :
      (start_pos e : ℕ)
      → IsText (get_elem? str e)
      → e + 1 < length str
      → (if starts_with_text str then 0 else first_non_blank 0 str start_pos) ≤ e
  start_le start_pos e t l = ground (arith, first_non_blank_le 0 str start_pos e t l)

  tss_find_single_key-IsKey :
      (k l : TssKeyData) → tss_find_single_key sys str k ≡ some l → IsKey str l
  unfolding tss_find_single_key tss_find_end_of_key_reverse
  tss_find_single_key-IsKey k l h =
      elim (Option-cases (sys.index_of_string str tss_key_delimiter)) [
        | inl g ↦ ground arith
        | inr (d, g) ↦ elim (Option-cases (end_of_key_reverse str (d + 1))) [
          | inl f ↦ ground arith
          | inr (e, f) ↦
              let (b, t) = end_of_key_reverse-IsText str (d + 1) e f in
              let r = index d g in
              close_key-IsKey str _ e (record k { delim_pos = d }) l
                (start_le k.start_pos e t (omega arith)) (omega arith) short (ground arith)
        ]
      ]

  tss_find_second_key-IsKey :
      (k l : TssKeyData) → tss_find_second_key sys str k ≡ some l → IsKey str l
  unfolding tss_find_second_key tss_find_end_of_key_reverse
  tss_find_second_key-IsKey k l h =
      elim (Option-cases (sys.last_index_of_string str tss_key_delimiter)) [
        | inl g ↦ ground arith
        | inr (d, g) ↦ elim (Option-cases (end_of_key_reverse str (d + 1))) [
          | inl f ↦ ground arith
          | inr (e, f) ↦
              let (b, t) = end_of_key_reverse-IsText str (d + 1) e f in
              let r = last_index d g in
              elim (Option-cases (tss_find_start_of_key_reverse str e)) [
                | inl z ↦ ground arith
                | inr (s, z) ↦
                    close_key-IsKey str s e (record k { delim_pos = d }) l
                      (tss_find_start_of_key_reverse_le str e s z) (omega arith) short
                      (ground arith)
              ]
        ]
      ]

  -- A key whose name was copied: the copy has the length of the key, so it fits its field of ten.
  pub record IsNamed (k : TssKeyData) : Type 0 where
    pub key : IsKey str k
    pub name : k.key_name ≡ take k.key_length (drop k.start_pos str)
    pub name_length : length k.key_name ≡ k.key_length

  named-IsNamed : (k : TssKeyData) → IsKey str k → IsNamed (named str k)
  named-IsNamed k v = record {
    key = record {
      ordered = v.ordered;
      within = v.within;
      distance = v.distance;
      key_length_le = v.key_length_le;
    };
    name = refl;
    name_length = ground (
      arith,
      v.ordered,
      v.within,
      v.distance,
      length-take k.key_length (drop k.start_pos str),
      length-drop k.start_pos str,
    );
  }

  -- A blank line, with the keys as they were, or a line with one key or with two.
  pub Parsed : TssKeys → ℕ → TssKeys → Type 0
  Parsed keys n found =
      ((n ≡ 0) × (tss_is_line_blank str ≡ true) × (found ≡ keys))
      ⊎ ((n ≡ 1) × IsNamed found.first)
      ⊎ ((n ≡ 2) × IsNamed found.first × IsNamed found.second)

  -- The keys that were found for one or for two.
  AreFound : ℕ → TssKeys → Type 0
  AreFound n found =
      ((n ≡ 1) × IsKey str found.first) ⊎ ((n ≡ 2) × IsKey str found.first × IsKey str found.second)

  tss_find_all_possible_keys-AreFound :
      (keys found : TssKeys) (n : ℕ)
      → tss_find_all_possible_keys sys str keys n ≡ some found
      → AreFound n found
  unfolding tss_find_all_possible_keys AreFound
  tss_find_all_possible_keys-AreFound keys found n h =
      elim (Option-cases (tss_find_single_key sys str keys.first)) [
        | inl f ↦ ground arith
        | inr (k, f) ↦
            let a = tss_find_single_key-IsKey keys.first k f in
            elim (Option-cases (tss_find_second_key sys str keys.second)) [
              | inl g ↦ ground arith
              | inr (l, g) ↦ let b = tss_find_second_key-IsKey keys.second l g in ground arith
            ]
      ]

  -- If the searches give positions of the delimiter in the line and the line is shorter than 2^31,
  -- a line that is parsed is blank, or has one key or two; each key found lies in the line with its
  -- start not behind its end, is at most ten bytes long, and its name is that part of the line.
  pub tss_parse_line_for_keys-Parsed :
      (keys found : TssKeys) (n : ℕ)
      → tss_parse_line_for_keys sys str keys ≡ some (n, found)
      → Parsed keys n found
  unfolding tss_parse_line_for_keys tss_find_name_for_keys Parsed AreFound
  tss_parse_line_for_keys-Parsed keys found n h = elim (Bool-cases (tss_is_line_blank str)) [
    | inl b ↦ ground arith
    | inr b ↦
        elim (Option-cases
          (tss_find_all_possible_keys sys str keys (tss_find_number_of_keys str))) [
            | inl f ↦ ground arith
            | inr (ks, f) ↦
                let a =
                  tss_find_all_possible_keys-AreFound keys ks (tss_find_number_of_keys str) f in
                let i : tss_find_number_of_keys str ≡ n = ground arith in
                let j : tss_find_name_for_keys str ks ≡ found = ground arith in
                elim a [
                  | inl (z, k) ↦ rw (← j) (inr (inl (cc (i, z), named-IsNamed ks.first k)))
                  | inr (z, k, l) ↦
                      rw (← j)
                        (inr (inr (cc (i, z), named-IsNamed ks.first k, named-IsNamed ks.second l)))
                ]
          ]
  ]
