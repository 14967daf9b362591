-- ===== src/Execution/View/Unchecked.antt =====
-- The token accounts that `unchecked_atas` of crates/execution/src/view.rs asks about.
use mobius_searcher.Base.{
  ◌<◌, ◌↔◌, ◌⊎◌, none, some, Option-cases, ltb→lt, lt→ltb, sym, ◌≡◌, refl, ap, ◌∙◌, Bool, true,
  false, ◌||◌, ◌&&◌, List, [], ◌∷◌, arith, inl, inr, Bool-cases,
}
use mobius_searcher.Core.Time.{Ts, age_ms}
use mobius_searcher.Core.Route.{Address, address_eq}
use mobius_searcher.Strategy.Pricing.Chain.{address_eq_iff}
use mobius_searcher.Execution.View.{
  View, checked_at, member, is_due, address_leb, place, sort, dedup_from, dedup, due_of,
  unchecked_atas,
}

address_eq→≡ : (a b : Address) → address_eq a b ≡ true → a ≡ b
address_eq→≡ a b h = (address_eq_iff a b).0 h

-- Of two addresses that are not in order, the other way round they are.
leb-total : (a b : Address) → address_leb a b ≡ false → address_leb b a ≡ true
unfolding address_leb
leb-total [] b h = cc
leb-total (x ∷ a) [] h = refl
leb-total (x ∷ a) (y ∷ b) h =
    let ih : (address_leb a b ≡ false → address_leb b a ≡ true) = leb-total a b in ground arith

-- Before an address, in order.
unfoldable pub Before : Address → List Address → Type 0
Before a [] = Unit {0}
Before a (b ∷ bs) = (address_leb a b ≡ true) × (address_eq a b ≡ false)

-- Each address strictly below the next one.
unfoldable pub Ascending : List Address → Type 0
Ascending [] = Unit {0}
Ascending (a ∷ as') = Before a as' × Ascending as'

unfoldable From : Address → List Address → Type 0
From a [] = Unit {0}
From a (b ∷ bs) = address_leb a b ≡ true

unfoldable Sorted : List Address → Type 0
Sorted [] = Unit {0}
Sorted (a ∷ as') = From a as' × Sorted as'

place-From :
    (c a : Address) (bs : List Address) → address_leb c a ≡ true → From c bs → From c (place a bs)
unfolding place From
place-From c a [] h f = h
place-From c a (b ∷ bs) h f = elim (Bool-cases (address_leb a b)) [
  | inl e ↦ rw e h
  | inr e ↦ rw e f
]

place-Sorted : (a : Address) (bs : List Address) → Sorted bs → Sorted (place a bs)
unfolding place From Sorted
place-Sorted a [] s = (tt, tt)
place-Sorted a (b ∷ bs) s = elim (Bool-cases (address_leb a b)) [
  | inl e ↦ rw e (e, s)
  | inr e ↦ rw e (place-From b a bs (leb-total a b e) s.0, place-Sorted a bs s.1)
]

sort-Sorted : (as' : List Address) → Sorted (sort as')
unfolding sort Sorted
sort-Sorted [] = tt
sort-Sorted (a ∷ as') = place-Sorted a (sort as') (sort-Sorted as')

dedup_from-Before :
    (c a : Address) (bs : List Address)
    → address_leb c a ≡ true
    → address_eq c a ≡ false
    → Before c (dedup_from a bs)
unfolding dedup_from Before
dedup_from-Before c a [] h n = (h, n)
dedup_from-Before c a (b ∷ bs) h n = elim (Bool-cases (address_eq a b)) [
  | inl e ↦ rw e (dedup_from-Before c a bs h n)
  | inr e ↦ rw e (h, n)
]

-- The same address again does not change what follows it.
From-same : (a b : Address) (bs : List Address) → a ≡ b → From b bs → From a bs
From-same a b bs e f = rw e f

dedup_from-Ascending :
    (a : Address) (bs : List Address) → From a bs → Sorted bs → Ascending (dedup_from a bs)
unfolding dedup_from Ascending Before From Sorted
dedup_from-Ascending a [] f s = (tt, tt)
dedup_from-Ascending a (b ∷ bs) f s = elim (Bool-cases (address_eq a b)) [
  | inl e ↦ rw e (dedup_from-Ascending a bs (From-same a b bs (address_eq→≡ a b e) s.0) s.1)
  | inr e ↦ rw e (dedup_from-Before a b bs f e, dedup_from-Ascending b bs s.0 s.1)
]

dedup-Ascending : (as' : List Address) → Sorted as' → Ascending (dedup as')
unfolding dedup Ascending Sorted
dedup-Ascending [] s = tt
dedup-Ascending (a ∷ as') s = dedup_from-Ascending a as' s.0 s.1

-- An address is found in a list, whatever is done to its order.
member-place :
    (c a : Address) (bs : List Address) → member c (place a bs) ≡ (address_eq c a || member c bs)
unfolding member place
member-place c a [] = refl
member-place c a (b ∷ bs) = elim (Bool-cases (address_leb a b)) [
  | inl e ↦ rw e refl
  | inr e ↦ rw (e, member-place c a bs) (swap (address_eq c b) (address_eq c a) (member c bs))
]
  where
    swap : (x y z : Bool) → (x || (y || z)) ≡ (y || (x || z))
    swap true true z = refl
    swap true false z = refl
    swap false true z = refl
    swap false false z = refl

member-sort : (c : Address) (as' : List Address) → member c (sort as') ≡ member c as'
unfolding member sort
member-sort c [] = refl
member-sort c (a ∷ as') =
    member-place c a (sort as') ∙ ap (λ b. address_eq c a || b) (member-sort c as')

member-dedup_from :
    (c a : Address) (bs : List Address)
    → member c (dedup_from a bs) ≡ (address_eq c a || member c bs)
unfolding member dedup_from
member-dedup_from c a [] = refl
member-dedup_from c a (b ∷ bs) = elim (Bool-cases (address_eq a b)) [
  | inl e ↦
      rw (e, member-dedup_from c a bs, address_eq→≡ a b e) (twice (address_eq c b) (member c bs))
  | inr e ↦ rw (e, member-dedup_from c b bs) refl
]
  where
    twice : (x z : Bool) → (x || z) ≡ (x || (x || z))
    twice true z = refl
    twice false z = refl

member-dedup : (c : Address) (as' : List Address) → member c (dedup as') ≡ member c as'
unfolding member dedup
member-dedup c [] = refl
member-dedup c (a ∷ as') = member-dedup_from c a as'

member-due_of :
    (now : Ts) (v : View) (c : Address) (as' : List Address)
    → member c (due_of now v as') ≡ (member c as' && is_due now v c)
unfolding member due_of
member-due_of now v c [] = refl
member-due_of now v c (a ∷ as') = elim (Bool-cases (is_due now v a)) [
  | inl e ↦ elim (Bool-cases (address_eq c a)) [
    | inl same ↦ rw (e, same, ap (is_due now v) (address_eq→≡ c a same) ∙ e) refl
    | inr other ↦ rw (e, other, member-due_of now v c as') refl
  ]
  | inr e ↦ elim (Bool-cases (address_eq c a)) [
    | inl same ↦
        rw (e, same, member-due_of now v c as', ap (is_due now v) (address_eq→≡ c a same) ∙ e)
          (neither (member c as'))
    | inr other ↦ rw (e, other, member-due_of now v c as') refl
  ]
]
  where
    neither : (b : Bool) → (b && false) ≡ false
    neither true = refl
    neither false = refl

-- An address among others.
unfoldable pub Among : Address → List Address → Type 0
Among a [] = ⊥
Among a (b ∷ bs) = (a ≡ b) ⊎ Among a bs

member-Among : (a : Address) (bs : List Address) → (member a bs ≡ true) ↔ Among a bs
unfolding member Among
member-Among a [] = (λ h. cc, λ h. absurd h)
member-Among a (b ∷ bs) =
    let i = address_eq_iff a b in
    let ih = member-Among a bs in
    elim (Bool-cases (address_eq a b)) [
      | inl e ↦ (λ h. inl (i.0 e), λ h. rw e refl)
      | inr e ↦ (
        λ h. inr (ih.0 (rw e at h)),
        λ h. rw e (elim h [ inl same ↦ absurd (let t = i.1 same in cc) | inr k ↦ ih.1 k ]),
      )
    ]

-- Never checked, or more than 60 s ago.
abbrev pub Due : Ts → View → Address → Type 0
Due now v a =
    (checked_at a v.checked_atas ≡ none)
    ⊎ ((t : Ts) × (checked_at a v.checked_atas ≡ some t) × (60_000 < age_ms t now))

is_due-Due : (now : Ts) (v : View) (a : Address) → (is_due now v a ≡ true) ↔ Due now v a
unfolding is_due
is_due-Due now v a = elim (Option-cases (checked_at a v.checked_atas)) [
  | inl never ↦ (λ h. inl never, λ h. rw (never, is_due) refl)
  | inr (t, at) ↦ (
    λ h. inr (t, at, ltb→lt 60_000 (age_ms t now) (rw (at, is_due) at h)),
    λ h.
        rw (at, is_due)
          (elim h [
            | inl never ↦ absurd (ground arith)
            | inr (u, k, old) ↦ let q : u ≡ t = cc in lt→ltb 60_000 (age_ms t now) (rw q at old)
          ]),
  )
]

both_true : (a b : Bool) → ((a && b) ≡ true) ↔ ((a ≡ true) × (b ≡ true))
both_true a b = (λ h. (ground arith, ground arith), λ h. ground arith)

-- `unchecked_atas` asks about exactly the candidates that were never checked or were checked more
-- than 60 s ago, about each of them once, in the order of the addresses.
pub unchecked_atas-exact :
    (now : Ts) (candidates : List Address) (v : View)
    → ((a : Address)
        → Among a (unchecked_atas now candidates v) ↔ (Among a candidates × Due now v a))
      × Ascending (unchecked_atas now candidates v)
unfolding unchecked_atas
unchecked_atas-exact now candidates v =
    let due = due_of now v candidates in
    let asked = unchecked_atas now candidates v in
    (
      λ a.
          let e : member a asked ≡ (member a candidates && is_due now v a) =
            member-dedup a (sort due) ∙ member-sort a due ∙ member-due_of now v a candidates in
          let m = member-Among a asked in
          let c = member-Among a candidates in
          let d = is_due-Due now v a in
          let b = both_true (member a candidates) (is_due now v a) in
          (
            λ h. let k = b.0 (sym e ∙ m.1 h) in (c.0 k.0, d.0 k.1),
            λ h. m.0 (e ∙ b.1 (c.1 h.0, d.1 h.1)),
          ),
      dedup-Ascending (sort due) (sort-Sorted due),
    )
