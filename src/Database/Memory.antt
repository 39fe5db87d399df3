-- ===== src/Database/Memory.antt =====
-- A table in memory: rows in the order of creation, sorted by insertion. It meets the interface.
use guard_me.Prelude.{
  suc, ◌∙◌, length, take, drop, ◌≡◌, refl, ap, ◌⊎◌, inl, inr, Bool, true, false, not, none, List,
  [], ◌∷◌, ◌++◌, map, In, arith, find, find-eq-some, find-none→All, All-in, filter, if◌then◌else◌,
}
use guard_me.Database.{Prisma}

pub not-true : (b : Bool) → not b ≡ true → b ≡ false
not-true b h = ground arith

module _ {A : Type 0} where
  insert_by : (A → A → Bool) → A → List A → List A
  insert_by before a [] = a ∷ []
  insert_by before a (x ∷ xs) = if before a x then a ∷ x ∷ xs else x ∷ insert_by before a xs

  unfoldable pub sort_by : (A → A → Bool) → List A → List A
  unfolding insert_by
  sort_by before [] = []
  sort_by before (x ∷ xs) = insert_by before x (sort_by before xs)

  of_insert_by :
      (b : A → A → Bool) (a : A) (xs : List A) (x : A) → In x (insert_by b a xs) → (x ≡ a) ⊎ In x xs
  unfolding insert_by
  of_insert_by b a [] x m = m
  of_insert_by b a (y ∷ ys) x m = ground (arith, of_insert_by b a ys x)

  to_insert_by :
      (b : A → A → Bool) (a : A) (xs : List A) (x : A) → (x ≡ a) ⊎ In x xs → In x (insert_by b a xs)
  unfolding insert_by
  to_insert_by b a [] x m = m
  to_insert_by b a (y ∷ ys) x m = ground (arith, to_insert_by b a ys x)

  pub of_sort_by : (b : A → A → Bool) (xs : List A) (x : A) → In x (sort_by b xs) → In x xs
  unfolding sort_by
  of_sort_by b [] x m = m
  of_sort_by b (y ∷ ys) x m = ground (arith, of_insert_by b y (sort_by b ys) x m, of_sort_by b ys x)

  pub to_sort_by : (b : A → A → Bool) (xs : List A) (x : A) → In x xs → In x (sort_by b xs)
  unfolding sort_by
  to_sort_by b [] x m = m
  to_sort_by b (y ∷ ys) x m = to_insert_by b y (sort_by b ys) x (ground (arith, to_sort_by b ys x))

  length-insert_by :
      (b : A → A → Bool) (a : A) (xs : List A) → length (insert_by b a xs) ≡ suc (length xs)
  unfolding insert_by
  length-insert_by b a [] = refl
  length-insert_by b a (x ∷ xs) = ground (arith, length-insert_by b a xs)

  pub length-sort_by : (b : A → A → Bool) (xs : List A) → length (sort_by b xs) ≡ length xs
  unfolding sort_by
  length-sort_by b [] = refl
  length-sort_by b (x ∷ xs) = length-insert_by b x (sort_by b xs) ∙ ap suc (length-sort_by b xs)

  pub of_filter : (p : A → Bool) (xs : List A) (x : A) → In x (filter p xs) → (p x ≡ true) × In x xs
  unfolding filter
  of_filter p (y ∷ ys) x m = ground (arith, of_filter p ys x)
  of_filter p [] x m = elim m [ ]

  pub to_filter : (p : A → Bool) (xs : List A) (x : A) → p x ≡ true → In x xs → In x (filter p xs)
  unfolding filter
  to_filter p (y ∷ ys) x h m = ground (arith, to_filter p ys x)
  to_filter p [] x h m = elim m [ ]

  pub find_first_none :
      (p : A → Bool) (rows : List A) (r : A) → find p rows ≡ none → In r rows → p r ≡ false
  find_first_none p rows r h m = All-in (λ x. p x ≡ false) rows (find-none→All p rows h) m

  pub of_map :
      (f : A → A) (rows : List A) (x : A) → In x (map f rows) → (r : A) × In r rows × (x ≡ f r)
  of_map f (y ∷ ys) x (inl e) = (y, inl refl, e)
  of_map f (y ∷ ys) x (inr m) = let (r, n, e) = of_map f ys x m in (r, inr n, e)
  of_map f [] x m = elim m [ ]

  pub to_map : (f : A → A) (rows : List A) (r : A) → In r rows → In (f r) (map f rows)
  to_map f (y ∷ ys) r (inl e) = inl (ap f e)
  to_map f (y ∷ ys) r (inr m) = inr (to_map f ys r m)
  to_map f [] r m = elim m [ ]

  of_append : (xs ys : List A) (x : A) → In x (xs ++ ys) → In x xs ⊎ In x ys
  of_append [] ys x m = inr m
  of_append (z ∷ zs) ys x m = ground (arith, of_append zs ys x)

  pub to_append : (xs ys : List A) (x : A) → In x xs ⊎ In x ys → In x (xs ++ ys)
  to_append [] ys x m = ground arith
  to_append (z ∷ zs) ys x m = ground (arith, to_append zs ys x)

  pub of_create : (r : A) (rows : List A) (x : A) → In x (rows ++ r ∷ []) → (x ≡ r) ⊎ In x rows
  of_create r rows x m = ground (arith, of_append rows (r ∷ []) x m)

  -- An in-memory table meets the interface.
  unfoldable pub memory : Prisma A
  unfolding find filter sort_by
  memory = record {
    find_first = find;
    find_many = λ p b rows. sort_by b (filter p rows);
    find_slice = λ p b skip size rows. take size (drop skip (sort_by b (filter p rows)));
    count = λ p rows. length (filter p rows);
    create = λ r rows. rows ++ r ∷ [];
    update_many = λ p f rows. map (λ r. if p r then f r else r) rows;
    delete_many = λ p rows. filter (λ r. not (p r)) rows;
    find_first_some = find-eq-some;
    find_first_none = find_first_none;
    of_find_many = λ p b rows r m. of_filter p rows r (of_sort_by b (filter p rows) r m);
    to_find_many = λ p b rows r h m. to_sort_by b (filter p rows) r (to_filter p rows r h m);
    count_filter = λ p rows. refl;
    of_find_slice = λ p b skip size rows. (
      sort_by b (filter p rows),
      (
        length-sort_by b (filter p rows),
        (λ r m. of_filter p rows r (of_sort_by b (filter p rows) r m)),
        (λ r h m. to_sort_by b (filter p rows) r (to_filter p rows r h m)),
      ),
      refl,
    );
    of_create = of_create;
    to_create_self = λ r rows. to_append rows (r ∷ []) r (inr (inl refl));
    to_create = λ r rows x m. to_append rows (r ∷ []) x (inl m);
    of_update_many = λ p f rows x m. of_map (λ r. if p r then f r else r) rows x m;
    to_update_many = λ p f rows r m. to_map (λ x. if p x then f x else x) rows r m;
    of_delete_many =
        λ p rows x m. let (h, n) = of_filter (λ r. not (p r)) rows x m in (not-true (p x) h, n);
    to_delete_many = λ p rows x h m. to_filter (λ r. not (p r)) rows x (ap not h) m;
  }
