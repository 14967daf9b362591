-- ===== src/Core/Layers/Tests.antt =====
-- Small configurations, with numbers for the values that are no tables.
use mobius_searcher.Base.{ℕ, ◌≡◌, refl, false, some, none, [], ◌∷◌, ◌==◌}
use mobius_searcher.Core.Layers.{
  leaf, table, Table, end, entry, Leaves, get, insert, remove, merge, diff, lifted, refused,
  set_twice, is_section, without_solana, solana_of, lift_sections, lift_table, lift_solana,
}
use mobius_searcher.Core.Layers.Laws.{Distinct}
use mobius_searcher.Core.Layers.RoundTrip.{value, look, Covers, Agree, merge-diff, merge-upper}

abbrev numbers : Leaves ℕ
numbers = record { eq = λ a b. a == b; as_str = λ a. none }

abbrev below : Table ℕ
below =
    entry "profit" (table (entry "min" (leaf 10_000) (entry "buffer" (leaf 5_000) end)))
      (entry "mode" (leaf 0) end)

abbrev chosen : Table ℕ
chosen = entry "mode" (leaf 0) (
    entry "profit" (table (entry "buffer" (leaf 0) (entry "min" (leaf 10_000) end)))
      (entry "rps" (leaf 2) end))

delta :
    diff numbers below chosen
    ≡ entry "profit" (table (entry "buffer" (leaf 0) end)) (entry "rps" (leaf 2) end)
unfolding diff get
delta = refl

chosen-Distinct : Distinct chosen
unfolding Distinct get
chosen-Distinct = ((refl), tt, ((refl), (refl, tt, (refl, tt, tt)), (refl, tt, tt)))

covered : Covers below chosen
unfolding Covers get
covered = ((tt, (tt, tt)), (tt, tt))

merge-diff_example :
    Agree numbers
      (look ("profit" ∷ "buffer" ∷ []) (table (merge below (diff numbers below chosen))))
      (look ("profit" ∷ "buffer" ∷ []) (table chosen))
merge-diff_example =
    merge-diff numbers ("profit" ∷ "buffer" ∷ []) below chosen chosen-Distinct covered

buffer_of_chosen : look ("profit" ∷ "buffer" ∷ []) (table chosen) ≡ some (value 0)
unfolding get
buffer_of_chosen = refl

read_above : look ("profit" ∷ "buffer" ∷ []) (table (merge below chosen)) ≡ some (value 0)
read_above = merge-upper ("profit" ∷ "buffer" ∷ []) below chosen 0 chosen-Distinct buffer_of_chosen

rpc_lifted :
    lift_solana numbers
      (entry "venues" (table (entry "solana" (table (entry "rpc" (leaf 3) end)) end)) end)
    ≡ lifted (entry "rpc" (leaf 3) end) false
unfolding lift_solana lift_table lift_sections without_solana solana_of is_section get insert remove
rpc_lifted = refl

rpc_twice :
    lift_solana numbers (
      entry "rpc"
        (leaf 1)
        (entry "venues" (table (entry "solana" (table (entry "rpc" (leaf 3) end)) end)) end))
    ≡ refused (set_twice "rpc")
unfolding lift_solana lift_table lift_sections without_solana solana_of is_section get insert remove
rpc_twice = refl
