-- ===== src/Database.antt =====
-- The database that the services call through Prisma, as an interface: the table's rows are the
-- state, the client's functions are parameters, and the laws are what Prisma documents of them.
-- Which row `find_first` takes, and how rows that sort alike are ordered, is left open: two slices
-- of one result, which are queries of their own, may cut it from different orders.
pub mod Memory
use guard_me.Prelude.{
  ℕ, length, filter, take, drop, ◌≡◌, ◌⊎◌, Bool, true, false, Option, none, some, List, [], ◌∷◌,
  All, In, if◌then◌else◌,
}

-- The rows that meet a filter, in some order.
abbrev pub IsResult : {A : Type 0} → (A → Bool) → List A → List A → Type 0
IsResult {A = A} p rows found =
    (length found ≡ length (filter p rows))
    × ((r : A) → In r found → (p r ≡ true) × In r rows)
    × ((r : A) → p r ≡ true → In r rows → In r found)

pub record Prisma (Row : Type 0) : Type 0 where
  pub find_first : (Row → Bool) → List Row → Option Row
  pub find_many : (Row → Bool) → (Row → Row → Bool) → List Row → List Row
  pub find_slice : (Row → Bool) → (Row → Row → Bool) → (skip size : ℕ) → List Row → List Row
  pub count : (Row → Bool) → List Row → ℕ
  pub create : Row → List Row → List Row
  pub update_many : (Row → Bool) → (Row → Row) → List Row → List Row
  pub delete_many : (Row → Bool) → List Row → List Row
  pub find_first_some :
      (p : Row → Bool) (rows : List Row) (r : Row)
      → find_first p rows ≡ some r
      → (p r ≡ true) × In r rows
  pub find_first_none :
      (p : Row → Bool) (rows : List Row) (r : Row)
      → find_first p rows ≡ none
      → In r rows
      → p r ≡ false
  pub of_find_many :
      (p : Row → Bool) (b : Row → Row → Bool) (rows : List Row) (r : Row)
      → In r (find_many p b rows)
      → (p r ≡ true) × In r rows
  pub to_find_many :
      (p : Row → Bool) (b : Row → Row → Bool) (rows : List Row) (r : Row)
      → p r ≡ true
      → In r rows
      → In r (find_many p b rows)
  pub count_filter : (p : Row → Bool) (rows : List Row) → count p rows ≡ length (filter p rows)
  pub of_find_slice :
      (p : Row → Bool) (b : Row → Row → Bool) (skip size : ℕ) (rows : List Row)
      → (found : List Row) × IsResult p rows found
        × (find_slice p b skip size rows ≡ take size (drop skip found))
  pub of_create : (r : Row) (rows : List Row) (x : Row) → In x (create r rows) → (x ≡ r) ⊎ In x rows
  pub to_create_self : (r : Row) (rows : List Row) → In r (create r rows)
  pub to_create : (r : Row) (rows : List Row) (x : Row) → In x rows → In x (create r rows)
  pub of_update_many :
      (p : Row → Bool) (f : Row → Row) (rows : List Row) (x : Row)
      → In x (update_many p f rows)
      → (r : Row) × In r rows × (x ≡ (if p r then f r else r))
  pub to_update_many :
      (p : Row → Bool) (f : Row → Row) (rows : List Row) (r : Row)
      → In r rows
      → In (if p r then f r else r) (update_many p f rows)
  pub of_delete_many :
      (p : Row → Bool) (rows : List Row) (x : Row)
      → In x (delete_many p rows)
      → (p x ≡ false) × In x rows
  pub to_delete_many :
      (p : Row → Bool) (rows : List Row) (x : Row)
      → p x ≡ false
      → In x rows
      → In x (delete_many p rows)
