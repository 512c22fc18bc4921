-- ===== src/Server/Install/Keeps.antt =====
-- The installation of a service keeps the anchors and the table well formed.
use mathlib.Core.Path.{subst}
use zss.Prelude.{
  ℕ, ◌≤◌, ◌<◌, ◌≡◌, ◌≢◌, refl, sym, ap, ◌∙◌, inl, inr, Bool, true, false, Option, none, some, List,
  [], ◌∷◌, Bytes, Occurs, bytes_eq_iff, ◌==◌, ==_iff, if◌then◌else◌, arith, Bool-cases,
}
use zss.Service.{Service, ServicePath, ServiceAnchor, path_eq}
use zss.Plugin.{PluginAnchor}
use zss.Server.State.{ServiceMap, State, update}
use zss.Server.Anchors.{find_service_anchor, is_service_anchor, modify}
use zss.Server.Anchors.WellFormed.{IsListed, IsTarget, IsWellFormed}
use zss.Server.Install.{add_service_anchor}

-- The table is well formed, and the addresses that common storage has not given yet are free.
pub record Inv (t : ServiceMap) (st : State t.Map) : Type 0 where
  pub targets : IsWellFormed t st
  pub free_services : (b : ℕ) → st.next ≤ b → st.service_at b ≡ none
  pub free_plugins : (b : ℕ) → st.next ≤ b → st.plugin_at b ≡ none

pub path_eq_iff : (p q : ServicePath) → path_eq p q ≡ true → p ≡ q
path_eq_iff p q h =
    ground
      (arith, bytes_eq_iff p.plugin_name q.plugin_name, bytes_eq_iff p.service_name q.service_name)

pub path_eq_refl : (p : ServicePath) → path_eq p p ≡ true
path_eq_refl p =
    ground
      (arith, bytes_eq_iff p.plugin_name p.plugin_name, bytes_eq_iff p.service_name p.service_name)

pub modify-some {ℓ} :
    {A : Type ℓ} (f : A → A) (h : ℕ → Option A) (a b : ℕ) (x : A)
    → h b ≡ some x
    → modify f h a b ≡ some (if a == b then f x else x)
unfolding modify
modify-some f h a b x e = elim (Bool-cases (a == b)) [
  | inl g ↦ let g' = ap h ((==_iff a b).0 g) in ground arith
  | inr g ↦ ground arith
]

pub modify-none {ℓ} :
    {A : Type ℓ} (f : A → A) (h : ℕ → Option A) (a b : ℕ) → h b ≡ none → modify f h a b ≡ none
unfolding modify
modify-none f h a b e = elim (Bool-cases (a == b)) [
  | inl g ↦ let g' = ap h ((==_iff a b).0 g) in ground arith
  | inr g ↦ ground arith
]

-- A change that keeps the path of the anchor.
pub modify-Inv :
    (t : ServiceMap) (st : State t.Map) (f : ServiceAnchor → ServiceAnchor) (a : ℕ)
    → ((s : ServiceAnchor) → (f s).path ≡ s.path)
    → Inv t st
    → Inv t (record st { service_at = modify f st.service_at a })
modify-Inv t st f a keeps v = record {
  targets = λ path b e.
      let target = v.targets path b e in
      let s = target.anchor in
      record {
        anchor = if a == b then f s else s;
        anchor_at = modify-some f st.service_at a b s target.anchor_at;
        same_path = kept s (a == b) target.same_path;
        listed = record {
          owner = target.listed.owner;
          owner_anchor = target.listed.owner_anchor;
          in_chain = target.listed.in_chain;
          owner_at = target.listed.owner_at;
          in_services = target.listed.in_services;
        };
      };
  free_services = λ b l. modify-none f st.service_at a b (v.free_services b l);
  free_plugins = v.free_plugins;
}
  where
    kept :
        {p : ServicePath} (s : ServiceAnchor) (x : Bool)
        → s.path ≡ p
        → (if x then f s else s).path ≡ p
    kept s true e = keeps s ∙ e
    kept s false e = e

-- A new entry for an anchor that is there and listed.
pub enter-Inv :
    (t : ServiceMap) (st : State t.Map) (n : t.Map) (s : ServiceAnchor) (a : ℕ)
    → Inv t st
    → ((q : ServicePath) → t.get n q ≡ (if path_eq s.path q then some a else t.get st.table q))
    → st.service_at a ≡ some s
    → IsListed st a
    → Inv t (record st { table = n })
enter-Inv t st n s a v entered e l = record {
  targets = λ path b g. target path b (path_eq s.path path) refl (sym (entered path) ∙ g);
  free_services = v.free_services;
  free_plugins = v.free_plugins;
}
  where
    relisted : (b : ℕ) → IsListed st b → IsListed (record st { table = n }) b
    relisted b k = record {
      owner = k.owner;
      owner_anchor = k.owner_anchor;
      in_chain = k.in_chain;
      owner_at = k.owner_at;
      in_services = k.in_services;
    }

    target :
        (path : ServicePath) (b : ℕ) (x : Bool)
        → path_eq s.path path ≡ x
        → (if x then some a else t.get st.table path) ≡ some b
        → IsTarget (record st { table = n }) path b
    target path b true g h = record {
      anchor = s;
      anchor_at = ground arith;
      same_path = path_eq_iff s.path path g;
      listed = relisted b (rw (some-eq a b h) at l);
    }
      where
        some-eq : (x y : ℕ) → some x ≡ some y → x ≡ y
        some-eq x y z = cc
    target path b false g h =
        let old = v.targets path b h in
        record {
          anchor = old.anchor;
          anchor_at = old.anchor_at;
          same_path = old.same_path;
          listed = relisted b old.listed;
        }

pub update_eq {ℓ} : {A : Type ℓ} (h : ℕ → Option A) (a : ℕ) (x : A) → update h a x a ≡ some x
unfolding update
update_eq h a x = ground (arith, ==_iff a a)

-- More of common storage is used up.
pub Inv-later :
    (t : ServiceMap) (st : State t.Map) (n : ℕ)
    → st.next ≤ n
    → Inv t st
    → Inv t (record st { next = n })
Inv-later t st n h v = record {
  targets = λ path b e.
      let old = v.targets path b e in
      let l = old.listed in
      record {
        anchor = old.anchor;
        anchor_at = old.anchor_at;
        same_path = old.same_path;
        listed = record {
          owner = l.owner;
          owner_anchor = l.owner_anchor;
          in_chain = l.in_chain;
          owner_at = l.owner_at;
          in_services = l.in_services;
        };
      };
  free_services = λ b l. v.free_services b (omega arith);
  free_plugins = λ b l. v.free_plugins b (omega arith);
}

pub update_ne {ℓ} : {A : Type ℓ} (h : ℕ → Option A) (a b : ℕ) (x : A) → a ≢ b → update h a x b ≡ h b
unfolding update
update_ne h a b x n = ground (arith, ==_iff a b)

-- A new anchor is free storage filled, and listed by its plug-in anchor.
module _ (t : ServiceMap) (st : State t.Map) (name : Bytes) (w : ℕ) (p : PluginAnchor) (s : Service)
    (v : Inv t st) (at : st.plugin_at w ≡ some p) where
  abbrev pub grown : State t.Map
  grown = add_service_anchor st name w p s

  owner_used : (b : ℕ) (x : PluginAnchor) → st.plugin_at b ≡ some x → b < st.next
  owner_used b x e = ground (arith, v.free_plugins b)

  relist : (b : ℕ) → IsListed st b → IsListed grown b
  unfolding add_service_anchor
  relist b l = elim (Bool-cases (w == l.owner)) [
    | inl g ↦
        let e = (==_iff w l.owner).0 g in
        record {
          owner = w;
          owner_anchor = record p { services = st.next ∷ p.services };
          in_chain = rw e l.in_chain;
          owner_at = update_eq st.plugin_at w _;
          in_services =
              inr (subst (λ (x : PluginAnchor). Occurs b x.services) (same e) l.in_services);
        }
    | inr g ↦ record {
      owner = l.owner;
      owner_anchor = l.owner_anchor;
      in_chain = l.in_chain;
      owner_at = update_ne st.plugin_at w l.owner _ (ground (arith, ==_iff w l.owner)) ∙ l.owner_at;
      in_services = l.in_services;
    }
  ]
    where
      same : w ≡ l.owner → l.owner_anchor ≡ p
      same e = ground (arith, ap st.plugin_at e, l.owner_at)

  relisted-IsTarget : (path : ServicePath) (b : ℕ) → IsTarget st path b → IsTarget grown path b
  unfolding add_service_anchor
  relisted-IsTarget path b old = record {
    anchor = old.anchor;
    anchor_at =
        update_ne st.service_at st.next b _
          (λ e. cc (old.anchor_at, ap st.service_at e, v.free_services st.next (omega arith)))
        ∙ old.anchor_at;
    same_path = old.same_path;
    listed = relist b old.listed;
  }

  pub add_service_anchor-Inv : Inv t grown
  unfolding add_service_anchor
  add_service_anchor-Inv = record {
    targets = λ path b e. relisted-IsTarget path b (v.targets path b e);
    free_services =
        λ b l. update_ne st.service_at st.next b _ (omega arith) ∙ v.free_services b (omega arith);
    free_plugins = λ b l.
        update_ne st.plugin_at w b _ (omega (arith, owner_used w p at))
        ∙ v.free_plugins b (omega arith);
  }

  pub add_service_anchor-IsListed : Occurs w st.chain → IsListed grown st.next
  unfolding add_service_anchor
  add_service_anchor-IsListed c = record {
    owner = w;
    owner_anchor = record p { services = st.next ∷ p.services };
    in_chain = c;
    owner_at = update_eq st.plugin_at w _;
    in_services = inl refl;
  }

-- The address is listed by the plug-in anchor, if the search finds it.
pub find_service_anchor-Occurs :
    (h : ℕ → Option ServiceAnchor) (l : List ℕ) (name : Bytes) (a : ℕ)
    → find_service_anchor h l name ≡ some a
    → Occurs a l × (is_service_anchor name (h a) ≡ true)
unfolding find_service_anchor
find_service_anchor-Occurs h [] name a e = cc
find_service_anchor-Occurs h (x ∷ l) name a e = elim (Bool-cases (is_service_anchor name (h x))) [
  | inl g ↦ let i : x ≡ a = ground arith in (inl i, rw (← i) g)
  | inr g ↦ let (o, m) = find_service_anchor-Occurs h l name a (ground arith) in (inr o, m)
]

-- The listing does not look at the service anchors.
pub IsListed-modify :
    {M : Type 0} (st : State M) (h : ℕ → Option ServiceAnchor) (b : ℕ)
    → IsListed st b
    → IsListed (record st { service_at = h }) b
IsListed-modify st h b l = record {
  owner = l.owner;
  owner_anchor = l.owner_anchor;
  in_chain = l.in_chain;
  owner_at = l.owner_at;
  in_services = l.in_services;
}
