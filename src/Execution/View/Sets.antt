-- ===== src/Execution/View/Sets.antt =====
-- The sets and maps of addresses in crates/execution/src/view.rs: what is found after an entry was
-- added or taken out.
use mobius_searcher.Base.{
  ◌≡◌, refl, sym, ap, ◌∙◌, Bool, true, false, ◌||◌, some, List, [], ◌∷◌, if◌then◌else◌, inl, inr,
  Bool-cases,
}
use mobius_searcher.Core.Time.{Ts}
use mobius_searcher.Core.Route.{Address, address_eq}
use mobius_searcher.Strategy.Pricing.Chain.{address_eq_iff}
use mobius_searcher.Execution.View.{member, remove, insert, checked_at, set_checked}

module _ (a b : Address) where
  -- Two addresses that are not the same are not both the same as a third.
  not_both : (c : Address) → address_eq b c ≡ false → address_eq a c ≡ true → address_eq a b ≡ false
  not_both c apart same = elim (Bool-cases (address_eq a b)) [
    | inl e ↦
        let b-c : b ≡ c = sym ((address_eq_iff a b).0 e) ∙ (address_eq_iff a c).0 same in
        let t : address_eq b c ≡ true = (address_eq_iff b c).1 b-c in cc
    | inr e ↦ e
  ]

  pub checked_at-set_checked :
      (now : Ts) (cs : List (Address × Ts))
      → checked_at a (set_checked b now cs) ≡ (if address_eq a b then some now else checked_at a cs)
  unfolding checked_at set_checked
  checked_at-set_checked now [] = refl
  checked_at-set_checked now ((c, t) ∷ cs) = elim (Bool-cases (address_eq b c)) [
    | inl e ↦
        rw (e, ap (address_eq a) ((address_eq_iff b c).0 e))
          (again (address_eq a c) (some now) (some t) (checked_at a cs))
    | inr e ↦
        rw (e, checked_at-set_checked now cs)
          (elim (Bool-cases (address_eq a c)) [
            | inl same ↦ rw (same, not_both c e same) refl
            | inr other ↦ rw other refl
          ])
  ]
    where
      again :
          {A : Type 0} (x : Bool) (p q r : A)
          → (if x then p else r) ≡ (if x then p else (if x then q else r))
      again true p q r = refl
      again false p q r = refl

  pub member-insert : (bs : List Address) → member a (insert b bs) ≡ (address_eq a b || member a bs)
  unfolding member
  member-insert bs = elim (Bool-cases (member b bs)) [
    | inl e ↦ elim (Bool-cases (address_eq a b)) [
      | inl same ↦ rw (e, same) (ap (λ c. member c bs) ((address_eq_iff a b).0 same) ∙ e)
      | inr other ↦ rw (e, other) refl
    ]
    | inr e ↦ rw e refl
  ]

  pub member-remove :
      (bs : List Address) → member a (remove b bs) ≡ (if address_eq a b then false else member a bs)
  unfolding member remove
  member-remove [] = elim (Bool-cases (address_eq a b)) [ inl e ↦ rw e refl | inr e ↦ rw e refl ]
  member-remove (c ∷ bs) = elim (Bool-cases (address_eq b c)) [
    | inl e ↦
        rw (e, member-remove bs, ap (address_eq a) ((address_eq_iff b c).0 e))
          (gone (address_eq a c) (member a bs))
    | inr e ↦
        rw (e, member-remove bs)
          (elim (Bool-cases (address_eq a c)) [
            | inl same ↦ rw (same, not_both c e same) refl
            | inr other ↦ rw other refl
          ])
  ]
    where
      gone : (x r : Bool) → (if x then false else r) ≡ (if x then false else (x || r))
      gone true r = refl
      gone false r = refl
