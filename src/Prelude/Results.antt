-- ===== src/Prelude/Results.antt =====
-- What an asynchronous or throwing function ends in: a value, or an exception. `http` is Nest's
-- HttpException with its status, `blocked_destination` is BlockedDestinationError of dns.util.ts,
-- `axios` is an AxiosError with what the source reads of it (the status of its response, if it has
-- one), and `failure` is any other Error, each with its message.
use Prim.Native.Nat.{ℕ}
use Prim.Native.String.{String}
use mathlib.Core.Option.{Option}
use mathlib.Core.List.{List}
use mathlib.Core.Logic.{◌⊎◌, inl, inr}
use mathlib.Core.Path.{◌≡◌, refl}

pub record AxiosError : Type 0 where
  pub code : Option String
  pub message : List ℕ
  pub status : Option ℕ
  pub status_text : Option String

pub data Exception : Type 0 where
  http : ℕ → String → Exception
  axios : AxiosError → Exception
  blocked_destination : Exception
  failure : String → Exception

pub data Result (A : Type 0) : Type 0 where
  err : Exception → Result A
  ok : A → Result A

-- `await m` followed by `f`, which an exception passes over.
infixl 5 ◌>>=◌
abbrev pub ◌>>=◌ : {B A : Type 0} → Result A → (A → Result B) → Result B
err thrown >>= _ = err thrown
ok value >>= next = next value

-- Where two steps succeed, both did.
pub await-ok :
    {A B : Type 0} (m : Result A) (next : A → Result B) {end : B}
    → (m >>= next) ≡ ok end
    → (value : A) × (m ≡ ok value) × (next value ≡ ok end)
await-ok (err thrown) next h = cc
await-ok (ok value) next h = (value, refl, h)

pub Result-cases :
    {A : Type 0} (r : Result A) → ((a : A) × (r ≡ ok a)) ⊎ ((e : Exception) × (r ≡ err e))
Result-cases (ok a) = inl (a, refl)
Result-cases (err e) = inr (e, refl)

pub pair_parts :
    {A B : Type 0} {a c : A} {b d : B}
    → ◌≡◌ {A = Result (A × B)} (ok (a, b)) (ok (c, d))
    → (a ≡ c) × (b ≡ d)
pair_parts h = (cc, cc)

pub ok_inj : {A : Type 0} {a b : A} → ok a ≡ ok b → a ≡ b
ok_inj h = cc
