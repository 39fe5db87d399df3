-- ===== src/Siem/Queries/Pages.antt =====
-- What the pages show: the queries of siem/siem.service.ts, and the search terms.
use mathlib.Core.Path.{subst}
use guard_me.Prelude.{
  take_all, ℕ, zero, suc, ◌-◌, ◌*◌, ◌≤◌, ◌≡◌, ◌≢◌, sym, ap, ◌∙◌, inl, inr, Bool, true, false, not,
  Option, none, some, List, [], ◌∷◌, In, All, length, take, drop, filter, arith, length-take,
}
use guard_me.Text.{Text, trim}
use guard_me.Database.{Prisma}
use guard_me.Siem.Queries.{
  max_search_length, is_control, sanitize_search_term, non_empty, find_page, or_else,
}

of_take : {A : Type 0} (n : ℕ) (xs : List A) (x : A) → In x (take n xs) → In x xs
of_take zero xs x m = elim m [ ]
of_take (suc n) [] x m = m
of_take (suc n) (y ∷ ys) x (inl e) = inl e
of_take (suc n) (y ∷ ys) x (inr m) = inr (of_take n ys x m)

of_drop : {A : Type 0} (n : ℕ) (xs : List A) (x : A) → In x (drop n xs) → In x xs
of_drop zero xs x m = m
of_drop (suc n) [] x m = m
of_drop (suc n) (y ∷ ys) x m = inr (of_drop n ys x m)

All-take : {A : Type 0} (P : A → Type 0) (n : ℕ) (xs : List A) → All P xs → All P (take n xs)
All-take P zero xs h = tt
All-take P (suc n) [] h = tt
All-take P (suc n) (x ∷ xs) (p, h) = (p, All-take P n xs h)

filter-All :
    {A : Type 0} (q : A → Bool) (xs : List A) → All (λ x. q x ≡ false) (filter (λ x. not (q x)) xs)
unfolding filter
filter-All q [] = tt
filter-All q (x ∷ xs) = ground (arith, filter-All q xs)

non_empty-some : (t term : Text) → non_empty t ≡ some term → (t ≡ term) × (term ≢ [])
non_empty-some [] term h = cc
non_empty-some (c ∷ t) term h = let same : c ∷ t ≡ term = cc in (same, λ e. cc)

-- A search term that is used is not empty, has no control characters, and at most 200 units.
pub sanitize_search_term_sound :
    (value : Option Text) (term : Text)
    → sanitize_search_term value ≡ some term
    → (term ≢ []) × All (λ c. is_control c ≡ false) term × (length term ≤ 200)
unfolding sanitize_search_term
sanitize_search_term_sound none term h = cc
sanitize_search_term_sound (some []) term h = cc
sanitize_search_term_sound (some (c ∷ value)) term h =
    let clean = filter (λ d. not (is_control d)) (trim (c ∷ value)) in
    let (same, full) = non_empty-some (take max_search_length clean) term h in
    (
      full,
      subst (All (λ d. is_control d ≡ false)) same (
          All-take (λ d. is_control d ≡ false) max_search_length clean
            (filter-All is_control (trim (c ∷ value)))),
      subst (λ t. length t ≤ 200) same (omega (arith, length-take {0} 200 clean)),
    )

module _ {Row : Type 0} (db : Prisma Row) (test : Row → Bool) (before : Row → Row → Bool)
    (table : List Row) where
  -- Every row of a page is in the table and meets the filter.
  find_page_sound :
      (page page_size : Option ℕ) (r : Row)
      → In r (find_page db test before page page_size table).items
      → (test r ≡ true) × In r table
  unfolding find_page
  find_page_sound page page_size r m =
      let (found, (_, sound, _), cut) = db.of_find_slice test before _ _ table in
      sound r (of_drop _ _ r (of_take _ _ r (subst (In r) cut m)))

  -- The first page shows every row that meets the filter, where they are not too many for it.
  pub find_page-first :
      (page page_size : Option ℕ) (r : Row)
      → (find_page db test before page page_size table).page ≡ 1
      → (find_page db test before page page_size table).total
        ≤ (find_page db test before page page_size table).page_size
      → test r ≡ true
      → In r table
      → In r (find_page db test before page page_size table).items
  unfolding find_page
  find_page-first page page_size r first few h m =
      let size : ℕ = or_else page_size 15 in
      let skip : ℕ = (or_else page 1 - 1) * size in
      let (found, (same, _, complete), cut) = db.of_find_slice test before skip size table in
      let start : skip ≡ 0 = rw (first) (omega arith) in
      let short : length found ≤ size = omega (arith, same, few, db.count_filter test table) in
      let whole = cut ∙ ap (λ k. take size (drop k found)) start ∙ take_all size found short in
      subst (In r) (sym whole) (complete r h m)
