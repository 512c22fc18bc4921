-- ===== src/Server/Config/Behaviour.antt =====
-- How the configuration behaves on every input.
use zss.Prelude.{
  ◌-◌, ◌≤◌, ◌<◌, ◌≡◌, ◌≢◌, refl, ◌⊎◌, ◌↔◌, inl, inr, Bool, true, false, Option, none, some, List,
  [], ◌∷◌, ◌++◌, length, length-append, length-take, take, replicate, Bytes, codes, bytes_eq_iff,
  ◌==◌, ltb, arith, Bool-cases, Option-cases,
}
use zss.Plugin.{Plugin}
use zss.Server.State.{rc_zis_ok, rc_zis_error}
use zss.Server.Anchors.{CmsFlags}
use zss.Server.Deploy.{get_plugin_by_nickname}
use zss.Server.Config.{
  cold_start_parm, reset_lookup_parm, reset_lookup_flag, get_cms_config_flags,
  extract_parmlib_member_name, ServerAnchor, init_global_resources, handle_modify_commands,
  nickname_size,
}

-- The flags are computed, unless RESET(LOOKUP) is given and COLD is not: then the length of a NULL
-- string is taken.
get_cms_config_flags_null :
    (prod_id : Bytes) (get : Bytes → Option Bytes)
    → (get_cms_config_flags prod_id get ≡ none)
      ↔ ((get reset_lookup_parm ≢ none) × (get cold_start_parm ≡ none))
unfolding get_cms_config_flags reset_lookup_flag
get_cms_config_flags_null prod_id get = (λ h. ground arith, λ h. ground arith)

-- With the flags computed, RESET(LOOKUP) counts only next to a COLD without a value, and so never
-- without a cold start.
pub get_cms_config_flags_reset :
    (prod_id : Bytes) (get : Bytes → Option Bytes) (f : CmsFlags)
    → get_cms_config_flags prod_id get ≡ some f
    → (f.reset_lookup ≡ true) ↔ ((get reset_lookup_parm ≢ none) × (f.cold_start ≡ true))
unfolding get_cms_config_flags reset_lookup_flag
get_cms_config_flags_reset prod_id get f e = (λ h. ground arith, λ h. ground arith)

-- The member name is at most eight bytes, so `zisReadParmlib` does not refuse it for its length.
pub length-extract_parmlib_member_name :
    (zis_module_name : Bytes) (suffix : Option Bytes) (name : Bytes)
    → extract_parmlib_member_name zis_module_name suffix ≡ some name
    → length name ≤ 8
unfolding extract_parmlib_member_name
length-extract_parmlib_member_name m none name e =
    let i : take 4 m ++ codes "IP00" ≡ name = ground arith in
    rw (← i) (omega (arith, length-append (take 4 m) (codes "IP00"), length-take 4 m))
length-extract_parmlib_member_name m (some v) name e = elim (Bool-cases (length v == 2)) [
  | inr g ↦ ground arith
  | inl g ↦
      let i : take 4 m ++ b'I' ∷ b'P' ∷ v ≡ name = ground arith in
      rw (← i) (ground (arith, length-append (take 4 m) (b'I' ∷ b'P' ∷ v), length-take 4 m))
]

-- The service table of an old anchor, or what `makeCrossMemoryMap` returned.
abbrev pub table_after : {M : Type 0} → Option M → Option (ServerAnchor M) → Option M
table_after made none = made
table_after made (some a) = elim a.service_table [ none ↦ made | some m ↦ some m ]

-- The global resources are reported as initialised exactly if there is a server anchor, old or new;
-- it then has both feature flags. Its service table is the old one, or else whatever
-- `makeCrossMemoryMap` returned, NULL included.
pub init_global_resources_lem :
    {M : Type 0} (allocated : Bool) (made : Option M) (old : Option (ServerAnchor M))
    → (((init_global_resources allocated made old).0 ≡ rc_zis_error)
        × (old ≡ none)
        × (allocated ≡ false))
      ⊎ (((init_global_resources allocated made old).0 ≡ rc_zis_ok)
          × (a : ServerAnchor M) × ((init_global_resources allocated made old).1 ≡ some a)
          × (a.dynlink ≡ true)
          × (a.versioned_context ≡ true)
          × (a.service_table ≡ table_after made old))
unfolding init_global_resources
init_global_resources_lem false made none = inl (refl, refl, refl)
init_global_resources_lem true made none = inr (refl, _, refl, refl, refl, refl)
init_global_resources_lem allocated made (some a) = elim (Option-cases a.service_table) [
  | inl e ↦ inr (
    ground arith,
    record { dynlink = true; versioned_context = true; service_table = made },
    ground arith,
    refl,
    refl,
    ground arith,
  )
  | inr (m, e) ↦ inr (
    ground arith,
    record { dynlink = true; versioned_context = true; service_table = some m },
    ground arith,
    refl,
    refl,
    ground arith,
  )
]

get_plugin_by_nickname-nickname :
    (plugins : List Plugin) (n : Bytes) (p : Plugin)
    → get_plugin_by_nickname plugins n ≡ some p
    → p.nickname ≡ n
unfolding get_plugin_by_nickname
get_plugin_by_nickname-nickname [] n p e = cc
get_plugin_by_nickname-nickname (q ∷ plugins) n p e =
    ground (arith, bytes_eq_iff q.nickname n, get_plugin_by_nickname-nickname plugins n p)

-- The target, filled up with blanks.
abbrev pub padded_target : Bytes → Bytes
padded_target target = target ++ replicate (nickname_size - length target) b' '

-- The command reaches no plug-in, or one with the padded target for its nickname and a handler.
abbrev pub Reaches : Bytes → Option Plugin → Type 0
Reaches target none = Unit
Reaches target (some p) = (p.nickname ≡ padded_target target) × (p.handle_command ≢ none)

-- A command whose target is longer than a nickname is copied past its end; any other reaches at
-- most a plug-in whose nickname is the padded target and that has a handler.
pub handle_modify_commands_lem :
    (plugins : List Plugin) (target : Bytes)
    → ((nickname_size < length target) × (handle_modify_commands plugins (some target) ≡ none))
      ⊎ ((length target ≤ nickname_size)
          × (o : Option Plugin) × (handle_modify_commands plugins (some target) ≡ some o)
          × Reaches target o)
unfolding handle_modify_commands
handle_modify_commands_lem plugins target = elim (Bool-cases (ltb nickname_size (length target))) [
  | inl e ↦ inl (ground arith, ground arith)
  | inr e ↦
      let short : length target ≤ nickname_size = ground arith in
      inr (elim (Option-cases (get_plugin_by_nickname plugins (padded_target target))) [
        | inl f ↦ (short, none, ground arith, tt)
        | inr (p, f) ↦
            let n = get_plugin_by_nickname-nickname plugins (padded_target target) p f in
            elim (Option-cases p.handle_command) [
              | inl g ↦ (short, none, ground arith, tt)
              | inr (h, g) ↦ (short, some p, ground arith, (n, λ z. cc))
            ]
      ])
]
