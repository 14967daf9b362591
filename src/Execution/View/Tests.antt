-- ===== src/Execution/View/Tests.antt =====
-- The view of crates/execution/src/view.rs on examples.
use mobius_searcher.Base.{◌≡◌, ◌↔◌, refl, true, false, none, some, List, [], ◌∷◌}
use mobius_searcher.Base.Int.{pos, ◌-ℤ◌}
use mobius_searcher.Base.Words.{wrap_i64}
use mobius_searcher.Core.Time.{Ts, age_ms}
use mobius_searcher.Core.Route.{Address}
use mobius_searcher.Execution.View.{
  is_due, address_leb, place, sort, dedup_from, dedup, due_of, unchecked_atas, record_ata,
  record_atas, set_wallet_lamports, wallet_lamports_at, pick_tip_account, set_tip_accounts,
  checked_at, set_checked,
}
use mobius_searcher.Execution.View.Unchecked.{Among, Due, Ascending, unchecked_atas-exact}
use mobius_searcher.Execution.View.Current.{
  Write, atas, wallet, accounts, after, latest, says_price, says_floor, says_accounts, says_wallet,
  says_ata, or_empty, paper_sum, others, Agrees, after-Current,
}

abbrev one : Address
one = 1 ∷ 7 ∷ []

abbrev two : Address
two = 2 ∷ 0 ∷ []

abbrev three : Address
three = 2 ∷ 1 ∷ []

-- Ten seconds and two minutes after the start, in microseconds.
abbrev early : Ts
early = pos 10_000_000

abbrev late : Ts
late = pos 120_000_000

-- The first two were looked up early, and then again late; the wallet was read in between.
abbrev history : List Write
history =
    atas late ((one, false) ∷ [])
    ∷ wallet 500 early
    ∷ accounts []
    ∷ accounts (three ∷ [])
    ∷ atas early ((one, true) ∷ (two, true) ∷ [])
    ∷ []

-- `one` has just been checked, `two` long ago, and `three` never; each is asked about once.
asked_again :
    unchecked_atas late (three ∷ one ∷ two ∷ three ∷ []) (after history) ≡ two ∷ three ∷ []
unfolding unchecked_atas due_of is_due checked_at set_checked record_atas record_ata
    set_wallet_lamports set_tip_accounts dedup dedup_from sort place address_leb age_ms wrap_i64
    ◌-ℤ◌
asked_again = refl

-- A balance is forgotten after a minute.
stale_balance : wallet_lamports_at late 60_000 (after history) ≡ none
unfolding wallet_lamports_at set_wallet_lamports record_atas record_ata age_ms wrap_i64 ◌-ℤ◌
stale_balance = refl

fresh_balance : wallet_lamports_at late 120_000 (after history) ≡ some 500
unfolding wallet_lamports_at set_wallet_lamports record_atas record_ata age_ms wrap_i64 ◌-ℤ◌
fresh_balance = refl

-- An empty list of tip accounts is no news.
kept_account : pick_tip_account (λ n. 0) (after history) ≡ some three
unfolding pick_tip_account set_tip_accounts set_wallet_lamports record_atas record_ata
kept_account = refl

unchecked_atas-exact_example :
    ((a : Address)
      → Among a (unchecked_atas late (three ∷ one ∷ two ∷ three ∷ []) (after history))
        ↔ (Among a (three ∷ one ∷ two ∷ three ∷ []) × Due late (after history) a))
    × Ascending (unchecked_atas late (three ∷ one ∷ two ∷ three ∷ []) (after history))
unchecked_atas-exact_example =
    unchecked_atas-exact late (three ∷ one ∷ two ∷ three ∷ []) (after history)

after-Current_example :
    (others (after history) ≡ (
      latest says_price history,
      latest says_floor history,
      or_empty (latest says_accounts history),
      latest says_wallet history,
      wrap_i64 (paper_sum history),
    ))
    × ((a : Address) → Agrees (after history) a (latest (says_ata a) history))
after-Current_example = after-Current history
