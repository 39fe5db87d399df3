-- ===== src/Users/Registered.antt =====
-- Rows of users: what registering and the noting of an authentication leave in the table.
use guard_me.Prelude.{
  ℕ, ◌≡◌, ◌≢◌, ◌↔◌, refl, sym, ap, ◌∙◌, inl, inr, Bool, true, false, some, List, [], ◌∷◌, In,
  String, Result, err, http, arith, not_true, Option-cases, Bool-cases, str_eq, str_eq_iff,
  if◌then◌else◌,
}
use mathlib.Core.Path.{subst}
use guard_me.Database.{Prisma}
use guard_me.Users.{
  User, UserTable, CreateUserInput, CreateError, known_request, unknown, is_taken, find_by_id,
  find_by_username, set_last_auth_at, update_last_auth_at, new_user, create, create_failed,
}

abbrev pub HasUniqueNames : List User → Type 0
HasUniqueNames table = (x y : User) → In x table → In y table → x.username ≡ y.username → x ≡ y

abbrev pub HasUniqueIds : List User → Type 0
HasUniqueIds table = (x y : User) → In x table → In y table → x.id ≡ y.id → x ≡ y

free_name :
    (name : String) (table : List User) (x : User)
    → is_taken name table ≡ false
    → In x table
    → x.username ≢ name
free_name name [] x h m e = elim m [ ]
free_name name (y ∷ ys) x h (inl m) e = ground (arith, str_eq_iff y.username name)
free_name name (y ∷ ys) x h (inr m) e = ground (arith, free_name name ys x)

module _ (users : Prisma User) where
  pub find_by_id-some :
      (id : String) (table : List User) (u : User)
      → find_by_id users id table ≡ some u
      → (u.id ≡ id) × In u table
  unfolding find_by_id
  find_by_id-some id table u h =
      let (test, m) = users.find_first_some _ table u h in ((str_eq_iff u.id id).0 test, m)

  pub find_by_username-In :
      (name : String) (table : List User) (u : User)
      → find_by_username users name table ≡ some u
      → In u table
  unfolding find_by_username
  find_by_username-In name table u h = (users.find_first_some _ table u h).1

  pub find_by_id-In :
      (u : User) (table : List User)
      → In u table
      → (w : User) × (find_by_id users u.id table ≡ some w)
  unfolding find_by_id
  find_by_id-In u table m = elim (Option-cases (users.find_first (λ x. str_eq x.id u.id) table)) [
    | inl e ↦ absurd (cc (users.find_first_none _ table u e m, (str_eq_iff u.id u.id).1 refl))
    | inr found ↦ found
  ]

  -- Whoever is found is still found, with the time of authentication, if it was noted.
  pub updated_found :
      (id : String) (now : ℕ) (table : List User) (u : User)
      → find_by_id users id table ≡ some u
      → (v : User) × (find_by_id users id (update_last_auth_at users id now table) ≡ some v)
        × (r : User) × In r table
        × (r.id ≡ id)
        × (v ≡ set_last_auth_at users now r)
  unfolding find_by_id update_last_auth_at
  updated_found id now table u h =
      let (own, m) = find_by_id-some id table u h in
      let p : User → Bool = λ x. str_eq x.id id in
      let f = set_last_auth_at users now in
      let mine : p u ≡ true = (str_eq_iff u.id id).1 own in
      let there = users.to_update_many p f table u m in
      let moved : In (f u) (users.update_many p f table) =
        subst (λ (b : Bool). In (if b then f u else u) (users.update_many p f table)) mine there in
      elim (Option-cases (users.find_first p (users.update_many p f table))) [
        | inl e ↦
            absurd (cc (users.find_first_none p (users.update_many p f table) (f u) e moved, mine))
        | inr (v, e) ↦
            let (test, n) = users.find_first_some p (users.update_many p f table) v e in
            let (r, k, same) = users.of_update_many p f table v n in
            elim (Bool-cases (p r)) [
              | inl b ↦ (
                v,
                e,
                r,
                k,
                (str_eq_iff r.id id).0 b,
                same ∙ ap (λ (c : Bool). if c then f r else r) b,
              )
              | inr b ↦
                  let same_row : v ≡ r = same ∙ ap (λ (c : Bool). if c then f r else r) b in
                  absurd (cc (test, b, ap p same_row))
            ]
      ]

  HasUniqueNames-create :
      (u : User) (table : List User)
      → HasUniqueNames table
      → is_taken u.username table ≡ false
      → HasUniqueNames (users.create u table)
  HasUniqueNames-create u table unique free x y m n same = elim (users.of_create u table x m) [
    | inl e ↦ elim (users.of_create u table y n) [
      | inl f ↦ e ∙ sym f
      | inr k ↦
          absurd (free_name u.username table y free k (sym same ∙ ap (λ (z : User). z.username) e))
    ]
    | inr j ↦ elim (users.of_create u table y n) [
      | inl f ↦
          absurd (free_name u.username table x free j (same ∙ ap (λ (z : User). z.username) f))
      | inr k ↦ unique x y j k same
    ]
  ]

module _ (users : UserTable) (hash : String → String) where
  create_failed-taken :
      (u : User) (error : CreateError) (table : List User)
      → users.insert u table ≡ some error
      → (◌≡◌ {A = Result User}
          (err (create_failed error))
          (err (http 409 "Username is already taken")))
        ↔ (is_taken u.username table ≡ true)
  unfolding create_failed
  create_failed-taken u (known_request code) table e = elim (Bool-cases (str_eq code "P2002")) [
    | inl b ↦
        let same = (str_eq_iff code "P2002").0 b in
        (
          (λ h. users.insert_free u table (e ∙ ap (λ (c : String). some (known_request c)) same)),
          (λ t. rw b refl),
        )
    | inr b ↦ (
      (λ h. cc (b, h)),
      (λ t.
          let same : code ≡ "P2002" = cc (users.insert_taken u table t, e) in
          absurd (cc ((str_eq_iff code "P2002").1 same, b))),
    )
  ]
  create_failed-taken u (unknown message) table e =
      ((λ h. cc), (λ t. cc (users.insert_taken u table t, e)))

  -- Registering keeps user names distinct; it is refused with a conflict exactly if the name is
  -- taken, and a refusal leaves the table alone.
  pub create-HasUniqueNames :
      (input : CreateUserInput) (new_id kdf_salt : String) (now : ℕ) (table : List User)
      → HasUniqueNames table
      → HasUniqueNames (create users hash input new_id kdf_salt now table).1
        × (((create users hash input new_id kdf_salt now table).0
              ≡ err (http 409 "Username is already taken"))
            ↔ (is_taken input.username table ≡ true))
  unfolding create
  create-HasUniqueNames input new_id kdf_salt now table unique =
      let user = new_user users hash input new_id kdf_salt now in
      elim (Option-cases (users.insert user table)) [
        | inl e ↦
            let free : is_taken input.username table ≡ false =
              not_true (is_taken input.username table)
                (λ t. cc (users.insert_taken user table t)) in
            let kept = HasUniqueNames-create users.rows user table unique free in
            rw (create, e) (kept, ((λ h. cc), (λ h. cc)))
        | inr (error, e) ↦ rw (create, e) (unique, create_failed-taken user error table e)
      ]
