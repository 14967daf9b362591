-- ===== src/Execution/View/Current.antt =====
-- The view of crates/execution/src/view.rs after any calls that write it.
use Prim.Native.String.{String}
use mobius_searcher.Base.{
  ℕ, ◌≡◌, refl, ap, subst, ◌∙◌, Bool, true, false, Option, none, some, List, [], ◌∷◌, if◌then◌else◌,
  inl, inr, Bool-cases,
}
use mobius_searcher.Base.Int.{ℤ, pos, ◌+ℤ◌}
use mobius_searcher.Base.Words.{wrap_i64, wrap_i64-sum}
use mobius_searcher.Core.Units.{UsdPrice}
use mobius_searcher.Core.Time.{Ts}
use mobius_searcher.Core.Route.{Address, address_eq}
use mobius_searcher.Jito.Tip.{TipFloor}
use mobius_searcher.Execution.View.{
  View, empty, member, checked_at, set_sol_price, set_tip_floor, set_tip_accounts, record_ata,
  record_atas, add_paper_net, set_wallet_lamports,
}
use mobius_searcher.Execution.View.Sets.{checked_at-set_checked, member-insert, member-remove}

-- The calls that write.
pub data Write : Type 0 where
  sol : UsdPrice → Ts → String → Write
  floor : TipFloor → Write
  accounts : List Address → Write
  atas : Ts → List (Address × Bool) → Write
  paper : ℤ → Write
  wallet : ℕ → Ts → Write

abbrev pub written : Write → View → View
written (sol p ts source) v = set_sol_price p ts source v
written (floor t) v = set_tip_floor t v
written (accounts as') v = set_tip_accounts as' v
written (atas now rs) v = record_atas now rs v
written (paper l) v = (add_paper_net l v).1
written (wallet l ts) v = set_wallet_lamports l ts v

-- The view after the calls, the last one first.
abbrev pub after : List Write → View
after [] = empty
after (w ∷ older) = written w (after older)

-- The newer of two answers, where it says anything.
abbrev pub newer {ℓ} : {A : Type ℓ} → Option A → Option A → Option A
newer none old = old
newer (some a) old = some a

-- What the calls last said of something, each call saying it or not.
unfoldable pub latest {ℓ} : {A : Type ℓ} → (Write → Option A) → List Write → Option A
latest says [] = none
latest says (w ∷ older) = newer (says w) (latest says older)

abbrev pub says_price : Write → Option (UsdPrice × Ts × String)
says_price (sol p ts source) = some (p, ts, source)
says_price _ = none

abbrev pub says_floor : Write → Option TipFloor
says_floor (floor t) = some t
says_floor _ = none

abbrev pub says_accounts : Write → Option (List Address)
says_accounts (accounts (a ∷ as')) = some (a ∷ as')
says_accounts _ = none

abbrev pub says_wallet : Write → Option (ℕ × Ts)
says_wallet (wallet l ts) = some (l, ts)
says_wallet _ = none

-- The last result about an address: when it was checked, and whether it exists.
unfoldable pub last_result : Ts → Address → List (Address × Bool) → Option (Ts × Bool)
last_result now a [] = none
last_result now a ((b, found) ∷ rs) =
    newer (last_result now a rs) (if address_eq a b then some (now, found) else none)

abbrev pub says_ata : Address → Write → Option (Ts × Bool)
says_ata a (atas now rs) = last_result now a rs
says_ata a _ = none

-- A list of addresses and a map of times that agree with what was last said of an address.
pub record Agrees (v : View) (a : Address) (said : Option (Ts × Bool)) : Type 0 where
  pub checked : checked_at a v.checked_atas ≡ elim said [ none ↦ none | some r ↦ some r.0 ]
  pub exists : member a v.existing_atas ≡ elim said [ none ↦ false | some r ↦ r.1 ]

-- One result, and all of them.
record_ata-Agrees :
    (now : Ts) (b : Address) (found : Bool) (v : View) (a : Address) (said : Option (Ts × Bool))
    → Agrees v a said
    → Agrees
        (record_ata now b found v)
        a
        (newer (if address_eq a b then some (now, found) else none) said)
unfolding record_ata
record_ata-Agrees now b true v a said h = elim (Bool-cases (address_eq a b)) [
  | inl e ↦ record {
    checked = rw (checked_at-set_checked a b now v.checked_atas, e) refl;
    exists = rw (member-insert a b v.existing_atas, e) refl;
  }
  | inr e ↦ record {
    checked = rw (checked_at-set_checked a b now v.checked_atas, e) h.checked;
    exists = rw (member-insert a b v.existing_atas, e) h.exists;
  }
]
record_ata-Agrees now b false v a said h = elim (Bool-cases (address_eq a b)) [
  | inl e ↦ record {
    checked = rw (checked_at-set_checked a b now v.checked_atas, e) refl;
    exists = rw (member-remove a b v.existing_atas, e) refl;
  }
  | inr e ↦ record {
    checked = rw (checked_at-set_checked a b now v.checked_atas, e) h.checked;
    exists = rw (member-remove a b v.existing_atas, e) h.exists;
  }
]

record_atas-Agrees :
    (now : Ts) (rs : List (Address × Bool)) (v : View) (a : Address) (said : Option (Ts × Bool))
    → Agrees v a said
    → Agrees (record_atas now rs v) a (newer (last_result now a rs) said)
unfolding record_atas last_result
record_atas-Agrees now [] v a said h = h
record_atas-Agrees now ((b, found) ∷ rs) v a said h =
    subst (λ s. Agrees (record_atas now rs (record_ata now b found v)) a s)
      (regroup (last_result now a rs) (if address_eq a b then some (now, found) else none) said)
      (record_atas-Agrees now rs (record_ata now b found v) a _
        (record_ata-Agrees now b found v a said h))
  where
    regroup : {A : Type 0} (x y z : Option A) → newer x (newer y z) ≡ newer (newer x y) z
    regroup none y z = refl
    regroup (some x) y z = refl

-- The other fields, which the look-up of accounts leaves as they are.
abbrev pub Others : Type 0
Others = Option (UsdPrice × Ts × String) × Option TipFloor × List Address × Option (ℕ × Ts) × ℤ

abbrev pub others : View → Others
others v = (v.sol_price, v.tip_floor, v.tip_accounts, v.wallet_lamports, v.paper_net_lamports)

record_atas-others :
    (now : Ts) (rs : List (Address × Bool)) (v : View) → others (record_atas now rs v) ≡ others v
unfolding record_atas record_ata
record_atas-others now [] v = refl
record_atas-others now ((b, found) ∷ rs) v = record_atas-others now rs (record_ata now b found v)

-- The list that was said last, none at first.
abbrev pub or_empty : Option (List Address) → List Address
or_empty none = []
or_empty (some as') = as'

-- The exact sum of the paper results.
abbrev pub paper_sum : List Write → ℤ
paper_sum [] = pos 0
paper_sum (w ∷ older) = elim w [ paper l ↦ paper_sum older +ℤ l | _ ↦ paper_sum older ]

said_others : List Write → Others
said_others ws = (
  latest says_price ws,
  latest says_floor ws,
  or_empty (latest says_accounts ws),
  latest says_wallet ws,
  wrap_i64 (paper_sum ws),
)

after-others : (ws : List Write) → others (after ws) ≡ said_others ws
unfolding said_others latest set_sol_price set_tip_floor set_tip_accounts add_paper_net
    set_wallet_lamports wrap_i64 ◌+ℤ◌
after-others [] = refl
after-others (sol p ts source ∷ older) =
    ap (λ (o : Others). (some (p, ts, source), o.1, o.2, o.3, o.4)) (after-others older)
after-others (floor t ∷ older) =
    ap (λ (o : Others). (o.0, some t, o.2, o.3, o.4)) (after-others older)
after-others (accounts [] ∷ older) = (after-others older)
after-others (accounts (a ∷ as') ∷ older) =
    ap (λ (o : Others). (o.0, o.1, a ∷ as', o.3, o.4)) (after-others older)
after-others (atas now rs ∷ older) = record_atas-others now rs (after older) ∙ (after-others older)
after-others (paper l ∷ older) =
    let ih = after-others older in
    let e : wrap_i64 ((after older).paper_net_lamports +ℤ l) ≡ wrap_i64 (paper_sum older +ℤ l) =
      ap (λ (o : Others). wrap_i64 (o.4 +ℤ l)) ih ∙ wrap_i64-sum (paper_sum older) l in
    ap (λ (o : Others). (o.0, o.1, o.2, o.3, wrap_i64 ((after older).paper_net_lamports +ℤ l))) ih
    ∙ ap
        (λ x. (
          latest says_price older,
          latest says_floor older,
          or_empty (latest says_accounts older),
          latest says_wallet older,
          x,
        ))
        e
after-others (wallet l ts ∷ older) =
    ap (λ (o : Others). (o.0, o.1, o.2, some (l, ts), o.4)) (after-others older)

after-Agrees : (ws : List Write) (a : Address) → Agrees (after ws) a (latest (says_ata a) ws)
unfolding latest set_sol_price set_tip_floor set_tip_accounts add_paper_net set_wallet_lamports
    checked_at member
after-Agrees [] a = record { checked = refl; exists = refl }
after-Agrees (sol p ts source ∷ older) a =
    let ih = after-Agrees older a in record { checked = ih.checked; exists = ih.exists }
after-Agrees (floor t ∷ older) a =
    let ih = after-Agrees older a in record { checked = ih.checked; exists = ih.exists }
after-Agrees (accounts [] ∷ older) a = (after-Agrees older a)
after-Agrees (accounts (b ∷ bs) ∷ older) a =
    let ih = after-Agrees older a in record { checked = ih.checked; exists = ih.exists }
after-Agrees (atas now rs ∷ older) a =
    record_atas-Agrees now rs (after older) a _ (after-Agrees older a)
after-Agrees (paper l ∷ older) a =
    let ih = after-Agrees older a in record { checked = ih.checked; exists = ih.exists }
after-Agrees (wallet l ts ∷ older) a =
    let ih = after-Agrees older a in record { checked = ih.checked; exists = ih.exists }

-- After any calls that write the view, its fields are what the calls said: the price,
-- the tip floor and the balance of the wallet by the last call that set them, the tip accounts by
-- the last call that gave any, the paper result is the sum of all paper results as an i64, and of
-- each address it holds when it was last checked and whether it existed then.
pub after-Current :
    (ws : List Write)
    → (others (after ws) ≡ (
      latest says_price ws,
      latest says_floor ws,
      or_empty (latest says_accounts ws),
      latest says_wallet ws,
      wrap_i64 (paper_sum ws),
    ))
      × ((a : Address) → Agrees (after ws) a (latest (says_ata a) ws))
unfolding said_others
after-Current ws = (after-others ws, after-Agrees ws)
