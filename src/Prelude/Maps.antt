-- ===== src/Prelude/Maps.antt =====
-- JavaScript's `Map` as the function that its `get` is. The program never asks for a map's size or
-- order where this is used; a loop that deletes some of the entries it visits is `delete_if`. Keys
-- are compared by an instance.
use Prim.Native.String.{String}
use mathlib.Core.Path.{◌≡◌}
use mathlib.Core.Logic.{◌↔◌, ◌≢◌}
use mathlib.Core.Bool.{Bool, true, false}
use mathlib.Core.Option.{Option, none, some}
use text.Mathlib.Text.{◌==◌ as str_eq}
use text.Mathlib.TextEquality.{eq_iff as str_eq_iff}
use guard_me.Prelude.Tests.{if◌then◌else◌, not_true}

pub str_ne : (a b : String) → a ≢ b → str_eq a b ≡ false
str_ne a b ne = not_true (str_eq a b) (λ e. ne ((str_eq_iff a b).0 e))

pub record Eq (A : Type 0) : Type 0 where
  pub beq : A → A → Bool
  pub beq_iff : (a b : A) → (beq a b ≡ true) ↔ (a ≡ b)

instance abbrev pub string_eq : Eq String
string_eq = record { beq = str_eq; beq_iff = str_eq_iff }

abbrev pub Map : Type 0 → Type 0 → Type 0
Map K V = K → Option V

module _ {K V : Type 0} ⦃e : Eq K⦄ where
  -- m.set(k, v)
  abbrev pub set : Map K V → K → V → Map K V
  set m k v j = if e.beq k j then some v else m j

  -- m.delete(k)
  abbrev pub delete : Map K V → K → Map K V
  delete m k j = if e.beq k j then none else m j

module _ {K V : Type 0} where
  -- for (const [k, v] of m) if (p(v)) m.delete(k)
  abbrev pub delete_if : (V → Bool) → Map K V → Map K V
  delete_if p m j = elim (m j) [ none ↦ none | some v ↦ if p v then none else some v ]
