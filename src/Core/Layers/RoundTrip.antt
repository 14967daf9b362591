-- ===== src/Core/Layers/RoundTrip.antt =====
-- `user_delta` and `merge` of crates/core/src/config.rs: a file that holds only the differences gives
-- the configuration back, and what a file sets is what is read.
use Prim.Native.String.{String}
use text.Mathlib.Text.{◌==◌}
use text.Mathlib.TextEquality.{eq_iff}
use mobius_searcher.Base.{
  ◌≡◌, refl, sym, ap, subst, ◌∙◌, true, Option, none, some, List, [], ◌∷◌, ◌>>=◌, arith, ◌⊎◌, inl,
  inr, Bool-cases, if-eq, >>=-eq-some, IfSome,
}
use mobius_searcher.Core.Layers.{
  Value, leaf, table, Table, end, entry, Leaves, get, merge, merged, diff, changed, nonempty,
  with_entry,
}
use mobius_searcher.Core.Layers.Laws.{Distinct, DistinctValue, over, written, get-merge, get-diff}

-- What stands at a path of names.
pub data Found (A : Type 0) : Type 0 where
  value : A → Found A
  section : Found A

abbrev pub look : {A : Type 0} → List String → Value A → Option (Found A)
look [] (leaf a) = some (value a)
look [] (table t) = some section
look (k ∷ ks) (leaf a) = none
look (k ∷ ks) (table t) = get k t >>= λ v. look ks v

-- Every name of the first table is in the second one, at any depth that both have.
unfoldable mutual
  pub Covers : {A : Type 0} → Table A → Table A → Type 0
  Covers end c = Unit
  Covers (entry k v b) c = CoversAt v (get k c) × Covers b c

  pub CoversAt : {A : Type 0} → Value A → Option (Value A) → Type 0
  CoversAt v none = ⊥
  CoversAt (leaf b) (some v) = Unit
  CoversAt (table b) (some (leaf c)) = Unit
  CoversAt (table b) (some (table c)) = Covers b c

-- What the upper file sets at the path is read.
abbrev Upper : Type 0 → List String → Type 0
Upper A ks =
    (d s : Table A) (a : A)
    → Distinct s
    → look ks (table s) ≡ some (value a)
    → look ks (table (merge d s)) ≡ some (value a)

module _ {A : Type 0} where
  Distinct-get :
      (k : String) (t : Table A) {v : Value A} → Distinct t → get k t ≡ some v → DistinctValue v
  unfolding Distinct get
  Distinct-get k end d h = cc
  Distinct-get k (entry j w t) {v} (_, dw, dt) h = elim (if-eq (k == j) _ _ h) [
    | inl (_, e) ↦ let q : w ≡ v = cc in subst (λ x. DistinctValue x) q dw
    | inr (_, e) ↦ Distinct-get k t dt e
  ]

  Covers-get :
      (k : String) (b c : Table A) {v : Value A}
      → Covers b c
      → get k b ≡ some v
      → CoversAt v (get k c)
  unfolding Covers get
  Covers-get k end c h e = cc
  Covers-get k (entry j w b) c {v} (hw, hb) e = elim (if-eq (k == j) _ _ e) [
    | inl (same, h) ↦
        let q : w ≡ v = cc in
        let n = (eq_iff k j).0 same in
        subst (λ x. CoversAt v (get x c)) (sym n) (subst (λ x. CoversAt x (get j c)) q hw)
    | inr (_, h) ↦ Covers-get k b c hb h
  ]

  Upper-value :
      (ks : List String) (old : Option (Value A)) (v : Value A) (a : A)
      → Upper A ks
      → DistinctValue v
      → look ks v ≡ some (value a)
      → look ks (merged old v) ≡ some (value a)
  unfolding merged Distinct
  Upper-value ks none v a ih u h = h
  Upper-value ks (some (leaf b)) v a ih u h = h
  Upper-value ks (some (table b)) (leaf c) a ih u h = h
  Upper-value ks (some (table b)) (table c) a ih u h = ih b c a u h

  Upper-step : (k : String) (ks : List String) → Upper A ks → Upper A (k ∷ ks)
  Upper-step k ks ih d s a u h =
      let (v, e, h') = >>=-eq-some (get k s) _ h in
      let m = get-merge k d s u ∙ ap (over (get k d)) e in
      rw m (Upper-value ks (get k d) v a ih (Distinct-get k s u e) h')

  -- A value that the upper file sets, at any path of names, is the one that is read.
  pub merge-upper :
      (path : List String) (d s : Table A) (a : A)
      → Distinct s
      → look path (table s) ≡ some (value a)
      → look path (table (merge d s)) ≡ some (value a)
  merge-upper [] d s a u h = absurd (ground arith)
  merge-upper (k ∷ ks) d s a u h = Upper-step k ks (merge-upper ks) d s a u h

  module _ (l : Leaves A) where
    -- The same at a path: nothing, a section, or values that are equal by `==`.
    abbrev pub Agree : Option (Found A) → Option (Found A) → Type 0
    Agree none none = Unit
    Agree (some section) (some section) = Unit
    Agree (some (value a)) (some (value b)) = (a ≡ b) ⊎ (l.eq a b ≡ true)
    Agree _ _ = ⊥

    Agree-refl : (o : Option (Found A)) → Agree o o
    Agree-refl none = tt
    Agree-refl (some section) = tt
    Agree-refl (some (value a)) = inl refl

    abbrev Restored : List String → Type 0
    Restored ks =
        (b c : Table A)
        → Distinct c
        → Covers b c
        → Agree (look ks (table (merge b (diff l b c)))) (look ks (table c))

    equal_leaves :
        (ks : List String) (a b : A) → l.eq a b ≡ true → Agree (look ks (leaf a)) (look ks (leaf b))
    equal_leaves [] a b h = inr h
    equal_leaves (k ∷ ks) a b h = tt

    -- Two tables at a name, with what is written of their difference.
    restored_tables :
        (ks : List String) (b c t : Table A)
        → diff l b c ≡ t
        → Agree (look ks (table (merge b (diff l b c)))) (look ks (table c))
        → Agree (over (some (table b)) (nonempty t) >>= λ v. look ks v) (look ks (table c))
    unfolding merge
    restored_tables ks b c end e h =
        subst (λ x. Agree (look ks (table (merge b x))) (look ks (table c))) e h
    restored_tables ks b c (entry k v t) e h =
        subst (λ x. Agree (look ks (table (merge b x))) (look ks (table c))) e h

    Restored-value :
        (ks : List String) (old : Option (Value A)) (v : Value A)
        → Restored ks
        → DistinctValue v
        → IfSome (λ w. CoversAt w (some v)) old
        → Agree (over old (written l old (some v)) >>= λ w. look ks w) (look ks v)
    unfolding merged changed Covers Distinct
    Restored-value ks none v ih u h = Agree-refl (look ks v)
    Restored-value ks (some (leaf b)) (leaf c) ih u h = elim (Bool-cases (l.eq b c)) [
      | inl same ↦ rw same (equal_leaves ks b c same)
      | inr other ↦ rw other (Agree-refl (look ks (leaf c)))
    ]
    Restored-value ks (some (leaf b)) (table c) ih u h = Agree-refl (look ks (table c))
    Restored-value ks (some (table b)) (leaf c) ih u h = Agree-refl (look ks (leaf c))
    Restored-value ks (some (table b)) (table c) ih u h =
        restored_tables ks b c (diff l b c) refl (ih b c u h)

    restored_absent :
        (ks : List String) (old : Option (Value A))
        → IfSome (λ w. CoversAt w none) old
        → Agree (over old (written l old none) >>= λ w. look ks w) none
    unfolding Covers
    restored_absent ks none h = tt
    restored_absent ks (some (leaf a)) h = absurd h
    restored_absent ks (some (table t)) h = absurd h

    Restored-at :
        (ks : List String) (old new : Option (Value A))
        → Restored ks
        → IfSome DistinctValue new
        → IfSome (λ w. CoversAt w new) old
        → Agree (over old (written l old new) >>= λ w. look ks w) (new >>= λ w. look ks w)
    Restored-at ks old none ih u h = restored_absent ks old h
    Restored-at ks old (some v) ih u h = Restored-value ks old v ih u h

    with_entry-Distinct :
        (k : String) (o : Option (Value A)) (t : Table A)
        → get k t ≡ none
        → IfSome DistinctValue o
        → Distinct t
        → Distinct (with_entry k o t)
    unfolding Distinct
    with_entry-Distinct k none t e h u = u
    with_entry-Distinct k (some v) t e h u = (e, h, u)

    nonempty-Distinct : (t : Table A) → Distinct t → IfSome DistinctValue (nonempty t)
    unfolding Distinct
    nonempty-Distinct end u = tt
    nonempty-Distinct (entry k v t) u = u

    mutual
      unfolding diff Distinct

      diff-Distinct : (b c : Table A) → Distinct c → Distinct (diff l b c)
      diff-Distinct b end u = tt
      diff-Distinct b (entry k v c) (fresh, dv, dc) =
          with_entry-Distinct k (changed l (get k b) v) (diff l b c)
            (get-diff l k b c dc ∙ ap (written l (get k b)) fresh) (changed-Distinct (get k b) v dv)
            (diff-Distinct b c dc)

      changed-Distinct :
          (old : Option (Value A)) (v : Value A)
          → DistinctValue v
          → IfSome DistinctValue (changed l old v)
      changed-Distinct none v u = u
      changed-Distinct (some (leaf b)) (leaf c) u = elim (Bool-cases (l.eq b c)) [
        | inl same ↦ rw same tt
        | inr other ↦ rw other tt
      ]
      changed-Distinct (some (leaf b)) (table c) u = u
      changed-Distinct (some (table b)) (leaf c) u = tt
      changed-Distinct (some (table b)) (table c) u =
          nonempty-Distinct (diff l b c) (diff-Distinct b c u)

    all_at :
        (P : Value A → Type 0) (o : Option (Value A))
        → ((v : Value A) → o ≡ some v → P v)
        → IfSome P o
    all_at P none h = tt
    all_at P (some v) h = h v refl

    -- A file that holds only what a configuration changes, put over the files below it, gives the
    -- configuration back: at every path of names there is the same, nothing, a section, or an equal
    -- value. The configuration has no name twice, and every name of the files below.
    pub merge-diff :
        (path : List String) (b c : Table A)
        → Distinct c
        → Covers b c
        → Agree (look path (table (merge b (diff l b c)))) (look path (table c))
    merge-diff [] b c u h = tt
    merge-diff (k ∷ ks) b c u h =
        let m =
          get-merge k b (diff l b c) (diff-Distinct b c u)
          ∙ ap (over (get k b)) (get-diff l k b c u) in
        rw m (
          Restored-at ks (get k b) (get k c) (merge-diff ks)
            (all_at DistinctValue (get k c) (λ v e. Distinct-get k c u e))
            (all_at (λ w. CoversAt w (get k c)) (get k b) (λ v e. Covers-get k b c h e)))
