-- ===== src/Core/Layers.antt =====
-- crates/core/src/config.rs: the layers of the configuration. `merge` puts one file over another,
-- the `diff` in `user_delta` finds what a file has to say, and `lift_solana` reads the sections of
-- [venues.solana]. A TOML table is its entries, found by the first of their name; a value that is no
-- table is of a parameter type, with the third-party `==`. Reading files, the conversion of tables and the
-- validation are parameters.
pub mod Laws
pub mod RoundTrip
mod Tests
use Prim.Native.String.{String}
use text.Mathlib.Text.{◌==◌}
use mobius_searcher.Base.{
  ℕ, Bool, true, false, ◌&&◌, ◌||◌, Option, none, some, List, [], ◌∷◌, if◌then◌else◌, ◌>>=◌,
}

mutual
  pub data Value (A : Type 0) : Type 0 where
    leaf : A → Value A
    table : Table A → Value A

  pub data Table (A : Type 0) : Type 0 where
    end : Table A
    entry : String → Value A → Table A → Table A

-- What the code asks of a value that is no table: `==` and `as_str`.
pub record Leaves (A : Type 0) : Type 0 where
  pub eq : A → A → Bool
  pub as_str : A → Option String

module _ {A : Type 0} where
  unfoldable pub get : String → Table A → Option (Value A)
  get k end = none
  get k (entry j v t) = if k == j then some v else get k t

  -- `t.insert(k, v)`
  unfoldable pub insert : String → Value A → Table A → Table A
  insert k v end = entry k v end
  insert k v (entry j w t) = if k == j then entry j v t else entry j w (insert k v t)

  -- `t.remove(k)`
  unfoldable pub remove : String → Table A → Table A
  remove k end = end
  remove k (entry j w t) = let rest = remove k t in if k == j then rest else entry j w rest

  abbrev pub is_empty : Table A → Bool
  is_empty end = true
  is_empty (entry k v t) = false

  -- `merge`, and the value that it leaves at a name.
  unfoldable mutual
    pub merge : Table A → Table A → Table A
    merge d end = d
    merge d (entry k v s) = merge (insert k (merged (get k d) v) d) s

    pub merged : Option (Value A) → Value A → Value A
    merged (some (table d)) (table s) = table (merge d s)
    merged _ v = v

  abbrev pub nonempty : Table A → Option (Value A)
  nonempty end = none
  nonempty (entry k v t) = some (table (entry k v t))

  abbrev pub with_entry : String → Option (Value A) → Table A → Table A
  with_entry k none t = t
  with_entry k (some v) t = entry k v t

  module _ (l : Leaves A) where
    -- The `diff` of `user_delta`, and what it writes at a name, if anything.
    unfoldable mutual
      pub diff : Table A → Table A → Table A
      diff b end = end
      diff b (entry k v c) = with_entry k (changed (get k b) v) (diff b c)

      pub changed : Option (Value A) → Value A → Option (Value A)
      changed (some (table b)) (table c) = nonempty (diff b c)
      changed (some (leaf b)) (leaf c) = if l.eq b c then none else some (leaf c)
      changed _ v = some v

abbrev pub solana_sections : List String
solana_sections = "rpc" ∷ "jupiter" ∷ "jito" ∷ "feeds" ∷ "wallet" ∷ []

pub data LiftError : Type 0 where
  not_a_table other_kind : LiftError
  unknown_section set_twice : String → LiftError

pub data Lift (A : Type 0) : Type 0 where
  lifted : Table A → Bool → Lift A
  refused : LiftError → Lift A

unfoldable pub is_section : String → List String → Bool
is_section k [] = false
is_section k (n ∷ ns) = k == n || is_section k ns

module _ {A : Type 0} (l : Leaves A) where
  abbrev pub has_key : String → Table A → Bool
  has_key k t = elim (get k t) [ none ↦ false | some v ↦ true ]

  pub any_section : List String → Table A → Bool
  any_section [] t = false
  any_section (n ∷ ns) t = has_key n t || any_section ns t

  -- The table without `venues.solana`, and without `venues` if nothing else is in it.
  unfoldable pub without_solana : Table A → Table A
  without_solana t = elim (get "venues" t) [
    | none ↦ t
    | some (leaf a) ↦ t
    | some (table v) ↦
        let v' = remove "solana" v in
        if is_empty v' then remove "venues" t else insert "venues" (table v') t
  ]

  unfoldable pub solana_of : Table A → Option (Value A)
  solana_of t = elim (get "venues" t) [
    | none ↦ none
    | some (leaf a) ↦ none
    | some (table v) ↦ get "solana" v
  ]

  -- The sections, one after the other.
  unfoldable pub lift_sections : Bool → Table A → Table A → Lift A
  lift_sections legacy t end = lifted t legacy
  lift_sections legacy t (entry k v s) =
      let rest = lift_sections legacy (insert k v t) s in
      if is_section k solana_sections
      then (if has_key k t then refused (set_twice k) else rest)
      else refused (unknown_section k)

  abbrev pub is_solana : Value A → Bool
  is_solana (table t) = false
  is_solana (leaf a) = elim (l.as_str a) [ none ↦ false | some s ↦ s == "solana" ]

  abbrev pub kind_ok : Option (Value A) → Bool
  kind_ok none = true
  kind_ok (some v) = is_solana v

  unfoldable pub lift_table : Bool → Table A → Option (Value A) → Lift A
  lift_table legacy t none = lifted t legacy
  lift_table legacy t (some (leaf a)) = refused not_a_table
  lift_table legacy t (some (table s)) =
      if kind_ok (get "kind" s)
      then lift_sections legacy t (remove "kind" s)
      else refused other_kind

  unfoldable pub lift_solana : Table A → Lift A
  unfolding any_section
  lift_solana t = lift_table (any_section solana_sections t) (without_solana t) (solana_of t)
