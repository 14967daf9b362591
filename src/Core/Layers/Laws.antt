-- ===== src/Core/Layers/Laws.antt =====
-- The tables of crates/core/src/config.rs, by what is found in them at a name.
use Prim.Native.String.{String}
use text.Mathlib.Text.{◌==◌}
use text.Mathlib.TextEquality.{eq_iff}
use text.Mathlib.TextPositions.{eq_refl}
use mobius_searcher.Base.{
  ◌≡◌, refl, ap, ◌∙◌, Option, none, some, if◌then◌else◌, arith, inl, inr, Bool-cases,
}
use mobius_searcher.Core.Layers.{
  Value, leaf, table, Table, end, entry, Leaves, get, insert, remove, merge, merged, diff, changed,
  with_entry,
}

-- No name twice, at any depth.
unfoldable mutual
  pub Distinct : {A : Type 0} → Table A → Type 0
  Distinct end = Unit
  Distinct (entry k v t) = (get k t ≡ none) × DistinctValue v × Distinct t

  pub DistinctValue : {A : Type 0} → Value A → Type 0
  DistinctValue (leaf a) = Unit
  DistinctValue (table t) = Distinct t

module _ {A : Type 0} where
  pub get-insert :
      (j k : String) (v : Value A) (t : Table A)
      → get j (insert k v t) ≡ (if j == k then some v else get j t)
  unfolding get insert
  get-insert j k v end = refl
  get-insert j k v (entry i w t) =
      ground (arith, eq_iff j k, eq_iff k i, eq_iff j i, get-insert j k v t)

  pub get-remove :
      (j k : String) (t : Table A) → get j (remove k t) ≡ (if j == k then none else get j t)
  unfolding get remove
  get-remove j k end = ground arith
  get-remove j k (entry i w t) =
      ground (arith, eq_iff j k, eq_iff k i, eq_iff j i, get-remove j k t)

  -- What a layer over `d` leaves at a name.
  abbrev pub over : Option (Value A) → Option (Value A) → Option (Value A)
  over old none = old
  over old (some v) = some (merged old v)

  merge-entry :
      (k : String) (v : Value A) (d s : Table A)
      → merge d (entry k v s) ≡ merge (insert k (merged (get k d) v) d) s
  unfolding merge
  merge-entry k v d s = refl

  -- One name that comes first, and the others.
  over_step :
      (j k : String) (v : Value A) (d s : Table A)
      → get k s ≡ none
      → over (get j (insert k (merged (get k d) v) d)) (get j s)
        ≡ over (get j d) (if j == k then some v else get j s)
  over_step j k v d s fresh = elim (Bool-cases (j == k)) [
    | inl same ↦ let e = (eq_iff j k).0 same in rw (e, fresh, get-insert, eq_refl) refl
    | inr other ↦ rw (get-insert, other) refl
  ]

  pub get-merge :
      (j : String) (d s : Table A) → Distinct s → get j (merge d s) ≡ over (get j d) (get j s)
  unfolding get Distinct
  get-merge j d end h = unfold merge in refl
  get-merge j d (entry k v s) (fresh, _, rest) =
      ap (get j) (merge-entry k v d s)
      ∙ get-merge j (insert k (merged (get k d) v) d) s rest
      ∙ over_step j k v d s fresh

  get-with_entry :
      (j k : String) (o : Option (Value A)) (t : Table A)
      → get k t ≡ none
      → get j (with_entry k o t) ≡ (if j == k then o else get j t)
  unfolding get
  get-with_entry j k none t h = ground (arith, eq_iff j k)
  get-with_entry j k (some v) t h = refl

  module _ (l : Leaves A) where
    abbrev pub written : Option (Value A) → Option (Value A) → Option (Value A)
    written old none = none
    written old (some v) = changed l old v

    diff-entry :
        (k : String) (v : Value A) (b c : Table A)
        → diff l b (entry k v c) ≡ with_entry k (changed l (get k b) v) (diff l b c)
    unfolding diff
    diff-entry k v b c = refl

    written_step :
        (j k : String) (v : Value A) (b c : Table A)
        → (if j == k then changed l (get k b) v else written (get j b) (get j c))
          ≡ written (get j b) (if j == k then some v else get j c)
    written_step j k v b c = elim (Bool-cases (j == k)) [
      | inl same ↦ let e = (eq_iff j k).0 same in rw (e, eq_refl) refl
      | inr other ↦ rw other refl
    ]

    pub get-diff :
        (j : String) (b c : Table A) → Distinct c → get j (diff l b c) ≡ written (get j b) (get j c)
    unfolding get Distinct
    get-diff j b end h = unfold diff in refl
    get-diff j b (entry k v c) (fresh, _, rest) =
        let absent : get k (diff l b c) ≡ none =
          get-diff k b c rest ∙ ap (written (get k b)) fresh in
        ap (get j) (diff-entry k v b c)
        ∙ get-with_entry j k (changed l (get k b) v) (diff l b c) absent
        ∙ ap (λ x. if j == k then changed l (get k b) v else x) (get-diff j b c rest)
        ∙ written_step j k v b c
