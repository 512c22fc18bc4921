-- ===== src/Aux/Host/Boot/Parms.antt =====
-- The host finds in its parameter string what the manager put there.
use Prim.Native.Nat.{◌/◌}
use zss.Prelude.{
  ℕ, zero, suc, ◌≡◌, ◌≢◌, ◌⊎◌, ◌∙◌, refl, ap, inl, inr, true, false, Option, none, some, List, [],
  ◌∷◌, ◌++◌, map, All, append_assoc, Bytes, codes, bytes_eq, bytes_eq_iff, bytes_eq_refl, c_string,
  ◌==◌, ==_iff, ltb, arith,
}
use zss.Aux.Return.{rc_zisaux_ok, rc_zisaux_error}
use zss.Parm.Set.{ParmSet, rc_zisparm_ok, rc_zisparm_slh_alloc_failed, zis_get_parm_value}
use zss.Parm.Set.Contents.{Contents, Represents, value_of, upsert, value_of-upsert}
use zss.Parm.Set.Storage.{grants, parms_sizes}
use zss.Parm.Set.Refines.{zis_get_parm_value-value_of}
use zss.Parm.Record.{split_at_equal_sign, key_value}
use zss.Parm.Record.Lines.{upsert_all}
use zss.Parm.MainParms.{zis_read_main_parms}
use zss.Parm.MainParms.Fields.{fields, Outcome, zis_read_main_parms-Outcome}
use zss.Aux.{CommArea, comm_eyecatcher, comm_version}
use zss.Aux.Manager.{hex_digit, hex_digits, host_parm}
use zss.Aux.Host.Boot.{
  Storage, get_master_comm_area_address, Loaded, find_comm_area, load_master_parm,
}

-- Bytes without a separator of the fields, and without a NUL.
abbrev pub IsPlain : Bytes → Type 0
IsPlain = All (λ c. (c ≢ b',') × (c ≢ 0))

IsPlain-append : (a b : Bytes) → IsPlain a → IsPlain b → IsPlain (a ++ b)
IsPlain-append [] b h k = k
IsPlain-append (c ∷ a) b h k = (h.0, IsPlain-append a b h.1 k)

fields-comma : (a b : Bytes) → IsPlain a → fields (a ++ (b',' ∷ b)) ≡ a ∷ fields b
unfolding fields
fields-comma [] b h = refl
fields-comma (c ∷ a) b h =
    let e : (c == b',') ≡ false = ground (arith, ==_iff c b',', h.0) in
    rw e (rw (fields-comma a b h.1) refl)

c_string-IsPlain : (a : Bytes) → IsPlain a → c_string a ≡ a
unfolding c_string
c_string-IsPlain [] h = refl
c_string-IsPlain (c ∷ a) h =
    let e : (c == 0) ≡ false = ground (arith, ==_iff c 0, h.0) in
    rw e (ap (λ x. c ∷ x) (c_string-IsPlain a h.1))

hex_digits-IsPlain : (n a : ℕ) → IsPlain (hex_digits n a)
unfolding hex_digits hex_digit
hex_digits-IsPlain zero a = tt
hex_digits-IsPlain (suc n) a =
    IsPlain-append (hex_digits n (a / 16)) _ (hex_digits-IsPlain n (a / 16))
      ((ground arith, ground arith), tt)

-- The fields of the string.
fields-host_parm :
    (name : Bytes) (area : ℕ) (guest_parm : Option Bytes)
    → IsPlain (c_string name)
    → fields (host_parm name area guest_parm)
      ≡ codes ":=)"
        ∷ (codes "MOD=" ++ c_string name)
        ∷ (codes "COMM=" ++ hex_digits 8 area)
        ∷ fields (elim guest_parm as (λ _. Bytes) [ none ↦ [] | some value ↦ c_string value ])
unfolding host_parm
fields-host_parm name area guest_parm h =
    let g : Bytes = elim guest_parm [ none ↦ [] | some value ↦ c_string value ] in
    let n = c_string name in
    let hex = hex_digits 8 area in
    let three : (n ++ codes ",COMM=") ++ hex ++ (b',' ∷ g)
        ≡ n ++ (b',' ∷ ((codes "COMM=" ++ hex) ++ (b',' ∷ g))) =
      ap (λ r. r ++ (b',' ∷ g)) (append_assoc n (codes ",COMM=") hex)
      ∙ append_assoc n _ (b',' ∷ g) in
    ap (λ r. fields (codes ":=),MOD=" ++ r)) three
    ∙ fields-comma (codes ":=)") _ (omega arith)
    ∙ ap (λ fs. codes ":=)" ∷ fs)
        (fields-comma (codes "MOD=" ++ n) _ (IsPlain-append (codes "MOD=") n (omega arith) h))
    ∙ ap (λ fs. codes ":=)" ∷ (codes "MOD=" ++ n) ∷ fs)
        (fields-comma (codes "COMM=" ++ hex) g
          (IsPlain-append (codes "COMM=") hex (omega arith) (hex_digits-IsPlain 8 area)))

key_value_mod : (n : Bytes) → IsPlain n → key_value (codes "MOD=" ++ n) ≡ (codes "MOD", n)
unfolding key_value split_at_equal_sign
key_value_mod n h = rw (c_string-IsPlain n h) refl

key_value_comm : (n : Bytes) → IsPlain n → key_value (codes "COMM=" ++ n) ≡ (codes "COMM", n)
unfolding key_value split_at_equal_sign
key_value_comm n h = rw (c_string-IsPlain n h) refl

upsert_all-other :
    (m : Bytes) (c : Contents) (l : List (Bytes × Bytes))
    → All (λ kv. kv.0 ≢ m) l
    → value_of m (upsert_all c l) ≡ value_of m c
unfolding upsert_all
upsert_all-other m c [] h = refl
upsert_all-other m c ((n, v) ∷ l) h =
    let e : bytes_eq n m ≡ false = ground (arith, bytes_eq_iff n m, h.0) in
    upsert_all-other m (upsert n v c) l h.1 ∙ value_of-upsert n m v c ∙ rw e refl

-- The parameter of the guest names neither the module nor the area.
abbrev pub guest_text : Option Bytes → Bytes
guest_text none = []
guest_text (some value) = c_string value

abbrev pub HasOwnNames : Option Bytes → Type 0
HasOwnNames guest_parm =
    All (λ kv. (kv.0 ≢ codes "MOD") × (kv.0 ≢ codes "COMM"))
      (map key_value (fields (guest_text guest_parm)))

not-mod :
    (l : List (Bytes × Bytes))
    → All (λ kv. (kv.0 ≢ codes "MOD") × (kv.0 ≢ codes "COMM")) l
    → All (λ kv. kv.0 ≢ codes "MOD") l × All (λ kv. kv.0 ≢ codes "COMM") l
not-mod [] h = (tt, tt)
not-mod (kv ∷ l) h = let (a, b) = not-mod l h.1 in ((h.0.0, a), (h.0.1, b))

-- The contents of the set behind the string.
abbrev told : Contents → Bytes → Bytes → List (Bytes × Bytes) → Contents
told c n hex l =
    upsert_all
      (upsert (codes "COMM") hex (upsert (codes "MOD") n (upsert (codes ":") (codes ")") c))) l

told-values :
    (c : Contents) (n hex : Bytes) (l : List (Bytes × Bytes))
    → All (λ kv. (kv.0 ≢ codes "MOD") × (kv.0 ≢ codes "COMM")) l
    → (value_of (codes "MOD") (told c n hex l) ≡ some n)
      × (value_of (codes "COMM") (told c n hex l) ≡ some hex)
unfolding bytes_eq
told-values c n hex l h =
    let (a, b) = not-mod l h in
    let c1 = upsert (codes ":") (codes ")") c in
    let c2 = upsert (codes "MOD") n c1 in
    (
      upsert_all-other (codes "MOD") (upsert (codes "COMM") hex c2) l a
          ∙ value_of-upsert (codes "COMM") (codes "MOD") hex c2
          ∙ value_of-upsert (codes "MOD") (codes "MOD") n c1,
      upsert_all-other (codes "COMM") (upsert (codes "COMM") hex c2) l b
          ∙ value_of-upsert (codes "COMM") (codes "COMM") hex c2,
    )

upsert_all-host_parm :
    (c : Contents) (name : Bytes) (area : ℕ) (guest_parm : Option Bytes)
    → IsPlain (c_string name)
    → upsert_all c (map key_value (fields (host_parm name area guest_parm)))
      ≡ told c (c_string name) (hex_digits 8 area) (map key_value (fields (guest_text guest_parm)))
unfolding upsert_all key_value split_at_equal_sign c_string
upsert_all-host_parm c name area guest_parm h =
    let n = c_string name in
    let hex = hex_digits 8 area in
    let l = map key_value (fields (guest_text guest_parm)) in
    ap (λ fs. upsert_all c (map key_value fs)) (fields-host_parm name area guest_parm h)
    ∙ ap
        (λ kv.
          upsert_all (upsert (codes ":") (codes ")") c) (kv ∷ key_value (codes "COMM=" ++ hex) ∷ l))
        (key_value_mod n h)
    ∙ ap (λ kv. upsert_all (upsert (codes "MOD") n (upsert (codes ":") (codes ")") c)) (kv ∷ l))
        (key_value_comm hex (hex_digits-IsPlain 8 area))

find_comm_area-found :
    {S : Type 0} (slh_alloc : S → ℕ → Option S) (storage : Storage) (p : ParmSet S) (digits : Bytes)
    (a : ℕ) (area : CommArea)
    → zis_get_parm_value p (codes "COMM") ≡ some (some digits)
    → storage.scan_pointer digits ≡ some a
    → storage.area_at a ≡ some area
    → area.eyecatcher ≡ comm_eyecatcher
    → find_comm_area slh_alloc storage p
      ≡ some (record {
        rc = rc_zisaux_ok;
        parms = p;
        master_comm_area = some a;
        legacy_api = ltb area.version comm_version;
      })
unfolding find_comm_area get_master_comm_area_address
find_comm_area-found slh_alloc storage p digits a area named scanned used eye =
    let same : bytes_eq area.eyecatcher comm_eyecatcher ≡ true =
      ap (λ b. bytes_eq b comm_eyecatcher) eye ∙ bytes_eq_refl comm_eyecatcher in
    rw (named, find_comm_area, get_master_comm_area_address)
      (rw (scanned, get_master_comm_area_address)
        (rw (used, get_master_comm_area_address) (rw (same, get_master_comm_area_address) refl)))

-- The host reads the manager's string into its parameters and finds the area that the manager made for it, whether the
-- area is of an older version, and the name of the guest's module; or the heap refuses one of the requests for the storage of the
-- parameters in the string, and the reading fails. The module's name has no comma, the guest's parameter has no MOD and no COMM in it, every entry of the set is
-- filled, `sscanf` reads back the digits of the address, and the area at the address has its eyecatcher.
pub load_master_parm-host_parm :
    {S : Type 0} (slh_alloc : S → ℕ → Option S) (storage : Storage) (p : ParmSet S) (c : Contents)
    (name : Bytes) (a : ℕ) (guest_parm : Option Bytes) (area : CommArea)
    → IsPlain (c_string name)
    → HasOwnNames guest_parm
    → Represents p c
    → storage.scan_pointer (hex_digits 8 a) ≡ some a
    → storage.area_at a ≡ some area
    → area.eyecatcher ≡ comm_eyecatcher
    → (loaded : Loaded S) × (load_master_parm slh_alloc storage
          (some (host_parm name a guest_parm))
          true
          p
        ≡ some loaded)
      × (((loaded.rc ≡ rc_zisaux_ok)
            × (loaded.master_comm_area ≡ some a)
            × (loaded.legacy_api ≡ ltb area.version comm_version)
            × (zis_get_parm_value loaded.parms (codes "MOD") ≡ some (some (c_string name))))
          ⊎ ((loaded.rc ≡ rc_zisaux_error)
              × (grants slh_alloc p.slh
                    (parms_sizes c (map key_value (fields (host_parm name a guest_parm))))
                  ≡ none)))
unfolding load_master_parm find_comm_area get_master_comm_area_address Outcome
load_master_parm-host_parm slh_alloc storage p c name a guest_parm area plain own filled scanned
      used eye =
    let text = host_parm name a guest_parm in
    let ((rc, p'), read, o) = zis_read_main_parms-Outcome slh_alloc text p c filled in
    elim o [
      | inr (e, refused) ↦
          let full : zis_read_main_parms slh_alloc true text p
              ≡ some (rc_zisparm_slh_alloc_failed, p') =
            read ∙ ap (λ r. some (r, p')) e in
          (
            record {
              rc = rc_zisaux_error;
              parms = p';
              master_comm_area = none;
              legacy_api = false;
            },
            rw (full, load_master_parm),
            inr (refl, refused),
          )
      | inl (e, h) ↦
          let told =
            told-values c (c_string name) (hex_digits 8 a)
              (map key_value (fields (guest_text guest_parm))) own in
          let same = upsert_all-host_parm c name a guest_parm plain in
          let look : (n : Bytes) → zis_get_parm_value p' n ≡ some (value_of n _) =
            λ n. zis_get_parm_value-value_of p' n _ h in
          let the_name =
            look (codes "MOD") ∙ ap (λ k. some (value_of (codes "MOD") k)) same ∙ ap some told.0 in
          let the_area =
            look (codes "COMM")
            ∙ ap (λ k. some (value_of (codes "COMM") k)) same
            ∙ ap some told.1 in
          let good : zis_read_main_parms slh_alloc true text p ≡ some (rc_zisparm_ok, p') =
            read ∙ ap (λ r. some (r, p')) e in
          (
            record {
              rc = rc_zisaux_ok;
              parms = p';
              master_comm_area = some a;
              legacy_api = ltb area.version comm_version;
            },
            rw (good, load_master_parm)
                (find_comm_area-found slh_alloc storage p' (hex_digits 8 a) a area the_area scanned
                  used eye),
            inl (refl, refl, refl, the_name),
          )
    ]
