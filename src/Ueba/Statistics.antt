-- ===== src/Ueba/Statistics.antt =====
-- ueba/utils/baseline-stats.util.ts, on exact fractions where the source has doubles.
use guard_me.Prelude.{
  any, ℕ, suc, ◌+◌, ◌-◌, ◌*◌, ◌/◌, ◌%◌, ◌||◌, List, [], ◌∷◌, String, Eq, length, drop, map, leb,
  ltb, nat_beq, if◌then◌else◌,
}
use guard_me.Text.{Text, text, ◌==◌, includes, to_lower_case}
use guard_me.Database.Memory.{sort_by}
use guard_me.Ueba.{Fraction, Count, times, garbled}

abbrev pub sum : List ℕ → ℕ
sum [] = 0
sum (x ∷ xs) = x + sum xs

-- `Math.round(value * factor) / factor`
unfoldable pub round : Fraction → (factor : ℕ) → Fraction
round value factor = record {
  numerator = (2 * factor * value.numerator + value.denominator) / (2 * value.denominator);
  denominator = factor;
}

unfoldable pub mean : List ℕ → Fraction
mean [] = record { numerator = 0; denominator = 1 }
mean (x ∷ xs) = record { numerator = sum (x ∷ xs); denominator = length (x ∷ xs) }

-- How far `a` and `b` are apart.
abbrev distance : ℕ → ℕ → ℕ
distance a b = (a - b) + (b - a)

abbrev square : ℕ → ℕ
square n = n * n

-- `variance` of `stdDev`: with the mean s / n, the sum of the squares of x - s / n over n - 1.
unfoldable pub variance : List ℕ → Fraction
variance values =
    let n : ℕ = length values in
    record {
      numerator = sum (map (λ x. square (distance (n * x) (sum values))) values);
      denominator = n * n * (n - 1);
    }

-- `sqrt` is `Math.sqrt`.
unfoldable pub std_dev : (sqrt : Fraction → Fraction) → List ℕ → Fraction
unfolding variance
std_dev sqrt values =
    if ltb (length values) 2
    then record { numerator = 0; denominator = 1 }
    else sqrt (variance values)

-- `values[i]`, 0 out of range, where the source has no number.
abbrev at : List ℕ → ℕ → ℕ
at values i = elim (drop i values) [ [] ↦ 0 | x ∷ _ ↦ x ]

unfoldable pub median : List ℕ → Fraction
median values =
    let sorted = sort_by leb values in
    let middle = length sorted / 2 in
    if nat_beq (length sorted % 2) 0
    then record { numerator = at sorted (middle - 1) + at sorted middle; denominator = 2 }
    else record { numerator = at sorted middle; denominator = 1 }

-- The members that every object has, but for `__proto__`.
abbrev pub inherited_names : List Text
inherited_names =
    text "constructor"
    ∷ text "toString"
    ∷ text "toLocaleString"
    ∷ text "valueOf"
    ∷ text "hasOwnProperty"
    ∷ text "isPrototypeOf"
    ∷ text "propertyIsEnumerable"
    ∷ text "__defineGetter__"
    ∷ text "__defineSetter__"
    ∷ text "__lookupGetter__"
    ∷ text "__lookupSetter__"
    ∷ []

-- `undefined ?? 0` and 1, or the function of that name and 1, which is a text.
unfoldable pub first_count : Text → Count
first_count key = if any (λ name. name == key) inherited_names then garbled else times 1

unfoldable pub next_count : Count → Count
next_count (times n) = times (suc n)
next_count garbled = garbled

-- The object's own entries, a new one last.
unfoldable pub count_own : Text → List (Text × Count) → List (Text × Count)
unfolding first_count next_count
count_own key [] = (key, first_count key) ∷ []
count_own key ((k, n) ∷ counts) =
    let rest = count_own key counts in
    if k == key then (k, next_count n) ∷ counts else (k, n) ∷ rest

-- `counts[key] = (counts[key] ?? 0) + 1`; a text that is set as `__proto__` is not kept.
unfoldable pub increment_count : Text → List (Text × Count) → List (Text × Count)
unfolding count_own
increment_count key counts = if key == text "__proto__" then counts else count_own key counts

module _ {K : Type 0} ⦃e : Eq K⦄ where
  -- `counts.set(key, (counts.get(key) ?? 0) + 1)` on a Map, and `incrementCount` on an object of which
  -- every key is one that objects do not have by themselves; a new key comes last.
  unfoldable pub increment_entry : K → List (K × ℕ) → List (K × ℕ)
  increment_entry key [] = (key, 1) ∷ []
  increment_entry key ((k, n) ∷ counts) =
      let rest = increment_entry key counts in
      if e.beq k key then (k, suc n) ∷ counts else (k, n) ∷ rest

unfoldable pub classify_browser : Text → String
classify_browser user_agent =
    let ua = to_lower_case user_agent in
    if includes ua (text "edg/") || includes ua (text "edge/")
    then "Edge"
    else if includes ua (text "opr/") || includes ua (text "opera")
    then "Opera"
    else if includes ua (text "firefox/")
    then "Firefox"
    else if includes ua (text "chrome/") || includes ua (text "chromium/")
    then "Chrome"
    else if includes ua (text "safari/")
    then "Safari"
    else "Other"
