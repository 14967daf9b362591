-- ===== src/Execution/View.antt =====
-- crates/execution/src/view.rs: what the pipeline shares of the market and of the wallet. The lock
-- is held for a whole call. A set is a list, a map a list of pairs; the clock and the random index
-- are arguments. The sum of the paper results wraps at 64 bits, as the release build does.
pub mod Sets
pub mod Current
pub mod Unchecked
mod Tests
use Prim.Native.String.{String}
use mobius_searcher.Base.{
  ℕ, Bool, true, false, ◌||◌, not, Option, none, some, List, [], ◌∷◌, length, get_elem?, ltb, leb,
  ◌==◌, if◌then◌else◌,
}
use mobius_searcher.Base.Int.{pos, ℤ, ◌+ℤ◌}
use mobius_searcher.Base.Words.{wrap_i64}
use mobius_searcher.Core.Units.{UsdPrice}
use mobius_searcher.Core.Time.{Ts, age_ms}
use mobius_searcher.Core.Route.{Address, address_eq}
use mobius_searcher.Jito.Tip.{TipFloor}

-- `struct Inner`
pub record View : Type 0 where
  pub sol_price : Option (UsdPrice × Ts × String)
  pub tip_floor : Option TipFloor
  pub tip_accounts : List Address
  pub existing_atas : List Address
  pub checked_atas : List (Address × Ts)
  pub paper_net_lamports : ℤ
  pub wallet_lamports : Option (ℕ × Ts)

-- `RuntimeView::default()`
abbrev pub empty : View
empty = record {
  sol_price = none;
  tip_floor = none;
  tip_accounts = [];
  existing_atas = [];
  checked_atas = [];
  paper_net_lamports = pos 0;
  wallet_lamports = none;
}

-- The operations of a `HashSet` and of a `HashMap`.
unfoldable pub member : Address → List Address → Bool
member a [] = false
member a (b ∷ bs) = address_eq a b || member a bs

unfoldable pub remove : Address → List Address → List Address
remove a [] = []
remove a (b ∷ bs) = let rest = remove a bs in if address_eq a b then rest else b ∷ rest

abbrev pub insert : Address → List Address → List Address
insert a bs = if member a bs then bs else a ∷ bs

unfoldable pub checked_at : Address → List (Address × Ts) → Option Ts
checked_at a [] = none
checked_at a ((b, t) ∷ cs) = if address_eq a b then some t else checked_at a cs

unfoldable pub set_checked : Address → Ts → List (Address × Ts) → List (Address × Ts)
set_checked a now [] = (a, now) ∷ []
set_checked a now ((b, t) ∷ cs) =
    if address_eq a b then (b, now) ∷ cs else (b, t) ∷ set_checked a now cs

unfoldable pub set_sol_price : UsdPrice → Ts → String → View → View
set_sol_price p ts source v = record v { sol_price = some (p, ts, source) }

unfoldable pub sol_price_at : Ts → ℕ → View → Option UsdPrice
sol_price_at now max_age_ms v = elim v.sol_price [
  | none ↦ none
  | some (p, t, source) ↦ if leb (age_ms t now) max_age_ms then some p else none
]

unfoldable pub set_tip_floor : TipFloor → View → View
set_tip_floor t v = record v { tip_floor = some t }

unfoldable pub set_tip_accounts : List Address → View → View
set_tip_accounts [] v = v
set_tip_accounts (a ∷ as') v = record v { tip_accounts = a ∷ as' }

-- `draw n` is the random index below `n`.
unfoldable pub pick_tip_account : (ℕ → ℕ) → View → Option Address
pick_tip_account draw v = elim v.tip_accounts [
  | [] ↦ none
  | a ∷ as' ↦ get_elem? (a ∷ as') (draw (length (a ∷ as')))
]

-- Never checked, or more than 60 s ago.
unfoldable pub is_due : Ts → View → Address → Bool
is_due now v a = elim (checked_at a v.checked_atas) [
  | none ↦ true
  | some t ↦ ltb 60_000 (age_ms t now)
]

-- `Ord` of an address: its bytes in order.
unfoldable pub address_leb : Address → Address → Bool
address_leb [] bs = true
address_leb (a ∷ as') [] = false
address_leb (a ∷ as') (b ∷ bs) = let rest = address_leb as' bs in if a == b then rest else ltb a b

-- `v.sort()` and `v.dedup()`
unfoldable pub place : Address → List Address → List Address
place a [] = a ∷ []
place a (b ∷ bs) = let rest = place a bs in if address_leb a b then a ∷ b ∷ bs else b ∷ rest

unfoldable pub sort : List Address → List Address
sort [] = []
sort (a ∷ as') = place a (sort as')

unfoldable pub dedup_from : Address → List Address → List Address
dedup_from a [] = a ∷ []
dedup_from a (b ∷ bs) =
    let same = dedup_from a bs in
    let other = dedup_from b bs in if address_eq a b then same else a ∷ other

unfoldable pub dedup : List Address → List Address
dedup [] = []
dedup (a ∷ as') = dedup_from a as'

unfoldable pub due_of : Ts → View → List Address → List Address
due_of now v [] = []
due_of now v (a ∷ as') = let rest = due_of now v as' in if is_due now v a then a ∷ rest else rest

unfoldable pub unchecked_atas : Ts → List Address → View → List Address
unchecked_atas now candidates v = dedup (sort (due_of now v candidates))

-- `record_atas`, and one of its results.
unfoldable pub record_ata : Ts → Address → Bool → View → View
record_ata now a found v = record v {
  checked_atas = set_checked a now v.checked_atas;
  existing_atas = if found then insert a v.existing_atas else remove a v.existing_atas;
}

unfoldable pub record_atas : Ts → List (Address × Bool) → View → View
record_atas now [] v = v
record_atas now ((a, found) ∷ rs) v = record_atas now rs (record_ata now a found v)

-- The view, and the sum that is returned.
unfoldable pub add_paper_net : ℤ → View → ℤ × View
add_paper_net lamports v =
    let sum = wrap_i64 (v.paper_net_lamports +ℤ lamports) in
    (sum, record v { paper_net_lamports = sum })

unfoldable pub set_wallet_lamports : ℕ → Ts → View → View
set_wallet_lamports l ts v = record v { wallet_lamports = some (l, ts) }

unfoldable pub wallet_lamports_at : Ts → ℕ → View → Option ℕ
wallet_lamports_at now max_age_ms v = elim v.wallet_lamports [
  | none ↦ none
  | some (l, t) ↦ if leb (age_ms t now) max_age_ms then some l else none
]
