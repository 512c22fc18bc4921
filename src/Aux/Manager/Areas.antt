-- ===== src/Aux/Manager/Areas.antt =====
-- No entry of the manager's tables names a cell that is free.
use zss.Prelude.{
  ℕ, ◌≡◌, ◌≢◌, sym, ap, ◌∙◌, ◌⊎◌, inl, inr, Option, none, some, ◌==◌, ==_iff, Bool-cases, arith,
}
use zss.Aux.{CommArea}
use zss.Aux.Manager.{LongHashtable, put_area}

pub put_area-same : (h : ℕ → Option CommArea) (a : ℕ) (o : Option CommArea) → put_area h a o a ≡ o
unfolding put_area
put_area-same h a o = ground (arith, ==_iff a a)

pub put_area-other :
    (h : ℕ → Option CommArea) (a b : ℕ) (o : Option CommArea) → a ≢ b → put_area h a o b ≡ h b
unfolding put_area
put_area-other h a b o n = ground (arith, ==_iff a b)

-- A free cell is not one that is in use.
pub free-ne : (h : ℕ → Option CommArea) (a b : ℕ) (x : CommArea) → h a ≡ none → h b ≡ some x → a ≢ b
free-ne h a b x free used e = let g = ap h e in ground arith

module _ (t : LongHashtable) where
  open t use {Table, empty, get, put, remove, get-empty, get-put, get-remove}

  -- The nicknames name cells in use, each its own; an ASCB names a cell in use that has this ASCB.
  pub record AreSound (nicknames ascbs : Table) (h : ℕ → Option CommArea) : Type 0 where
    pub nickname_area : (n a : ℕ) → get nicknames n ≡ some a → (area : CommArea) × (h a ≡ some area)
    pub nickname_alone : (n m a : ℕ) → get nicknames n ≡ some a → get nicknames m ≡ some a → n ≡ m
    pub ascb_area :
        (x a : ℕ) → get ascbs x ≡ some a → (area : CommArea) × (h a ≡ some area) × (area.ascb ≡ x)

  get-put_cases :
      (u : Table) (k l a b : ℕ)
      → get (put u k a) l ≡ some b
      → ((k ≡ l) × (a ≡ b)) ⊎ (get u l ≡ some b)
  get-put_cases u k l a b e = elim (Bool-cases (k == l)) [
    | inl g ↦ inl (ground (arith, ==_iff k l, get-put u k l a))
    | inr g ↦ inr (ground (arith, get-put u k l a))
  ]

  get-remove_cases :
      (u : Table) (k l b : ℕ) → get (remove u k) l ≡ some b → (k ≢ l) × (get u l ≡ some b)
  get-remove_cases u k l b e = elim (Bool-cases (k == l)) [
    | inl g ↦ ground (arith, get-remove u k l)
    | inr g ↦ (ground (arith, ==_iff k l), ground (arith, get-remove u k l))
  ]

  pub empty-AreSound : (h : ℕ → Option CommArea) → AreSound empty empty h
  empty-AreSound h = record {
    nickname_area = λ n a e. ground (arith, get-empty n);
    nickname_alone = λ n m a e f. ground (arith, get-empty n);
    ascb_area = λ x a e. ground (arith, get-empty x);
  }

  -- A cell that was free is written.
  pub AreSound-free :
      (nicknames ascbs : Table) (h : ℕ → Option CommArea) (a : ℕ) (o : Option CommArea)
      → h a ≡ none
      → AreSound nicknames ascbs h
      → AreSound nicknames ascbs (put_area h a o)
  AreSound-free nicknames ascbs h a o free v = record {
    nickname_area = λ n b e.
        let (area, used) = v.nickname_area n b e in
        (area, put_area-other h a b o (free-ne h a b area free used) ∙ used);
    nickname_alone = v.nickname_alone;
    ascb_area = λ x b e.
        let (area, used, own) = v.ascb_area x b e in
        (area, put_area-other h a b o (free-ne h a b area free used) ∙ used, own);
  }

  -- A guest is entered with a cell that no entry names.
  pub AreSound-enter :
      (nicknames ascbs : Table) (h : ℕ → Option CommArea) (n a : ℕ) (area : CommArea)
      → h a ≡ none
      → AreSound nicknames ascbs h
      → AreSound (put nicknames n a) (put ascbs area.ascb a) (put_area h a (some area))
  AreSound-enter nicknames ascbs h n a area free v =
      let w = AreSound-free nicknames ascbs h a (some area) free v in
      record {
        nickname_area = λ m b e. elim (get-put_cases nicknames n m a b e) [
          | inl (same, here) ↦
              (area, ap (put_area h a (some area)) (sym here) ∙ put_area-same h a _)
          | inr old ↦ w.nickname_area m b old
        ];
        nickname_alone = λ m l b e f. elim (get-put_cases nicknames n m a b e) [
          | inl (same, here) ↦ elim (get-put_cases nicknames n l a b f) [
            | inl (same', here') ↦ sym same ∙ same'
            | inr old ↦
                let (x, used) = v.nickname_area l b old in absurd (free-ne h a b x free used here)
          ]
          | inr old ↦ elim (get-put_cases nicknames n l a b f) [
            | inl (same', here') ↦
                let (x, used) = v.nickname_area m b old in absurd (free-ne h a b x free used here')
            | inr old' ↦ v.nickname_alone m l b old old'
          ]
        ];
        ascb_area = λ x b e. elim (get-put_cases ascbs area.ascb x a b e) [
          | inl (same, here) ↦
              (area, ap (put_area h a (some area)) (sym here) ∙ put_area-same h a _, same)
          | inr old ↦ w.ascb_area x b old
        ];
      }

  -- The entries of a guest are removed, and its cell is freed.
  pub AreSound-leave :
      (nicknames ascbs : Table) (h : ℕ → Option CommArea) (n a : ℕ) (area : CommArea)
      → get nicknames n ≡ some a
      → h a ≡ some area
      → AreSound nicknames ascbs h
      → AreSound (remove nicknames n) (remove ascbs area.ascb) (put_area h a none)
  AreSound-leave nicknames ascbs h n a area named used v = record {
    nickname_area = λ m b e.
        let (other, old) = get-remove_cases nicknames n m b e in
        let (x, there) = v.nickname_area m b old in
        (
          x,
          put_area-other h a b none (λ g. other (v.nickname_alone n m b (named ∙ ap some g) old))
              ∙ there,
        );
    nickname_alone = λ m l b e f.
        v.nickname_alone m l b (get-remove_cases nicknames n m b e).1
          (get-remove_cases nicknames n l b f).1;
    ascb_area = λ x b e.
        let (other, old) = get-remove_cases ascbs area.ascb x b e in
        let (y, there, own) = v.ascb_area x b old in
        (
          y,
          put_area-other h a b none (λ g.
                let k = ap h g in
                let same : some area ≡ some y = sym used ∙ k ∙ there in other (ground arith))
              ∙ there,
          own,
        );
  }

  -- The guest, or the system, writes to a cell in use and keeps its ASCB.
  pub AreSound-write :
      (nicknames ascbs : Table) (h : ℕ → Option CommArea) (a : ℕ) (old new : CommArea)
      → h a ≡ some old
      → new.ascb ≡ old.ascb
      → AreSound nicknames ascbs h
      → AreSound nicknames ascbs (put_area h a (some new))
  AreSound-write nicknames ascbs h a old new used kept v = record {
    nickname_area = λ n b e.
        let (x, there) = v.nickname_area n b e in
        elim (Bool-cases (a == b)) [
          | inl g ↦
              (new, ap (put_area h a (some new)) (sym ((==_iff a b).0 g)) ∙ put_area-same h a _)
          | inr g ↦ (x, put_area-other h a b _ (ground (arith, ==_iff a b)) ∙ there)
        ];
    nickname_alone = v.nickname_alone;
    ascb_area = λ y b e.
        let (x, there, own) = v.ascb_area y b e in
        elim (Bool-cases (a == b)) [
          | inl g ↦
              let k = ap h ((==_iff a b).0 g) in
              (
                new,
                ap (put_area h a (some new)) (sym ((==_iff a b).0 g)) ∙ put_area-same h a _,
                ground arith,
              )
          | inr g ↦ (x, put_area-other h a b _ (ground (arith, ==_iff a b)) ∙ there, own)
        ];
  }
