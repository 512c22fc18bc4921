-- ===== src/Parm/Set.antt =====
-- The parameter set of c/zis/parm.c: a linked list of key and value strings in a short-lived heap.
-- The list stands for the chain `firstEntry` .. `lastEntry`, a NULL string is `none`. The heap is
-- not part of the repository: `slh_alloc` is `SLHAlloc`, which hands out zeroed storage or NULL.
-- The outer `none` of a result is undefined behaviour: `strcmp` on a NULL key.
pub mod Contents
pub mod Loading
pub mod Refines
pub mod Storage
use zss.Prelude.{
  ℕ, zero, suc, ◌+◌, ◌≡◌, Bool, true, false, Option, none, some, List, [], ◌∷◌, ◌++◌, map, length,
  get_elem?, set, Bytes, bytes_eq, codes, ◌==◌, if◌then◌else◌,
}

pub record Entry : Type 0 where
  pub key : Option Bytes
  pub value : Option Bytes

pub record ParmSet (S : Type 0) : Type 0 where
  pub slh : S
  pub entries : List Entry

abbrev pub rc_zisparm_ok : ℕ
rc_zisparm_ok = 0

abbrev pub rc_zisparm_slh_alloc_failed : ℕ
rc_zisparm_slh_alloc_failed = 16

abbrev pub rc_zisparm_cms_call_failed : ℕ
rc_zisparm_cms_call_failed = 17

-- `sizeof(ZISParmSetEntry)` and `sizeof(ZISParmSet)` in 64-bit mode.
abbrev pub parm_set_entry_size : ℕ
parm_set_entry_size = 32

abbrev pub parm_set_size : ℕ
parm_set_size = 32

-- A new entry after the memset.
abbrev pub blank_entry : Entry
blank_entry = record { key = none; value = none }

-- One more entry was passed over.
abbrev next_index : Option (Option ℕ) → Option (Option ℕ)
next_index none = none
next_index (some none) = some none
next_index (some (some i)) = some (some (suc i))

-- `findEntry`: the place of the first entry with the key.
unfoldable pub find_entry : List Entry → Bytes → Option (Option ℕ)
find_entry [] name = some none
find_entry (e ∷ es) name = elim e.key [
  | none ↦ none
  | some k ↦ if bytes_eq k name then some (some 0) else next_index (find_entry es name)
]

module _ {S : Type 0} (slh_alloc : S → ℕ → Option S) where
  -- The end of `zisPutParmValue`: a new copy of the value replaces the old pointer.
  unfoldable pub store_value : S → List Entry → ℕ → Entry → Bytes → ℕ × ParmSet S
  store_value slh es i e value = elim (slh_alloc slh (length value + 1)) [
    | none ↦ (
      rc_zisparm_slh_alloc_failed,
      record { slh = slh; entries = set es i (record e { value = none }) },
    )
    | some slh' ↦
        (rc_zisparm_ok, record { slh = slh'; entries = set es i (record e { value = some value }) })
  ]

  -- The key is copied only into an entry that has none.
  unfoldable pub store_key : S → List Entry → ℕ → Entry → Bytes → Bytes → ℕ × ParmSet S
  unfolding store_value
  store_key slh es i e name value = elim e.key [
    | some _ ↦ store_value slh es i e value
    | none ↦ elim (slh_alloc slh (length name + 1)) [
      | none ↦ (rc_zisparm_slh_alloc_failed, record { slh = slh; entries = es })
      | some slh' ↦
          store_value slh' (set es i (record e { key = some name })) i
            (record e { key = some name }) value
    ]
  ]

  -- A new entry is allocated and chained to the last one.
  unfoldable pub add_entry : S → List Entry → Bytes → Bytes → ℕ × ParmSet S
  unfolding store_key
  add_entry slh es name value = elim (slh_alloc slh parm_set_entry_size) [
    | none ↦ (rc_zisparm_slh_alloc_failed, record { slh = slh; entries = es })
    | some slh' ↦ store_key slh' (es ++ blank_entry ∷ []) (length es) blank_entry name value
  ]

  -- The entry that `findEntry` returned is filled again.
  unfoldable pub change_entry : S → List Entry → ℕ → Bytes → Bytes → ℕ × ParmSet S
  unfolding store_key
  change_entry slh es i name value = elim (get_elem? es i) [
    | none ↦ (rc_zisparm_ok, record { slh = slh; entries = es })
    | some e ↦ store_key slh es i e name value
  ]

  -- `zisPutParmValue`
  unfoldable pub zis_put_parm_value : ParmSet S → Bytes → Bytes → Option (ℕ × ParmSet S)
  unfolding find_entry add_entry change_entry
  zis_put_parm_value p name value = elim (find_entry p.entries name) [
    | none ↦ none
    | some none ↦ some (add_entry p.slh p.entries name value)
    | some (some i) ↦ some (change_entry p.slh p.entries i name value)
  ]

  -- `zisMakeParmSet`: the heap, the set in it, and a test parameter. The inner `none` is NULL.
  unfoldable pub zis_make_parm_set : Option S → Option (Option (ParmSet S))
  unfolding zis_put_parm_value
  zis_make_parm_set heap = elim heap [
    | none ↦ some none
    | some slh ↦ elim (slh_alloc slh parm_set_size) [
      | none ↦ some none
      | some slh' ↦
          elim (zis_put_parm_value (record { slh = slh'; entries = [] }) (codes "TEST_ZIS_PARM")
            (codes "THIS VALUE MUST BE AVAILABLE IN ANY SERVICE")) [
              | none ↦ none
              | some (rc, p) ↦ if rc == rc_zisparm_ok then some (some p) else some none
            ]
    ]
  ]

-- `zisGetParmValue`; the inner `none` is NULL.
unfoldable pub zis_get_parm_value : {S : Type 0} → ParmSet S → Bytes → Option (Option Bytes)
unfolding find_entry
zis_get_parm_value p name = elim (find_entry p.entries name) [
  | none ↦ none
  | some none ↦ some none
  | some (some i) ↦ some (elim (get_elem? p.entries i) [ none ↦ none | some e ↦ e.value ])
]

-- `zisIterateParms`: the visitor sees every entry in order.
unfoldable pub zis_iterate_parms :
    {D : Type 0} → (Option Bytes → Option Bytes → D → D) → List Entry → D → D
zis_iterate_parms visitor [] d = d
zis_iterate_parms visitor (e ∷ es) d = zis_iterate_parms visitor es (visitor e.key e.value d)

-- `zisLoadParmsToCMServer`; `cms_add_config_parm` is `cmsAddConfigParm`, whose status stops the
-- loop when it is not 0. The result has the status, the reason code if one was set, and the server.
unfoldable pub zis_load_parms_to_cm_server :
    {C : Type 0} → (C → Option Bytes → Option Bytes → ℕ × C) → List Entry → C → ℕ × Option ℕ × C
zis_load_parms_to_cm_server cms_add_config_parm [] server = (rc_zisparm_ok, none, server)
zis_load_parms_to_cm_server cms_add_config_parm (e ∷ es) server =
    let (rc, server') = cms_add_config_parm server e.key e.value in
    let rest = zis_load_parms_to_cm_server cms_add_config_parm es server' in
    if rc == 0 then rest else (rc_zisparm_cms_call_failed, some rc, server')
