-- ===== src/Shared/Maps.antt =====
-- A JavaScript Map with text keys, as an association list in insertion order, with the sum of a
-- quantity over its values.
use native.Mathlib.Omega.{arith}
use mathlib.Core.List.{List, [], ◌∷◌}
use mathlib.Core.Bool.{Bool, true}
use mathlib.Core.Option.{Option, none, some}
use mathlib.Core.Path.{◌≡◌, refl}
use text.Mathlib.TextEquality.{eq_iff}
use text.Mathlib.Text.{◌==◌}
use Prim.Native.String.{String}
use autonomous_enterprise.Shared.Tests.{if◌then◌else◌}
use autonomous_enterprise.Shared.Effects.{⊤}
use autonomous_enterprise.Shared.Int.{ℤ, pos, ◌+ℤ◌, ◌≤ℤ◌, int_laws}

abbrev pub Store : Type 0 → Type 0
Store V = List (String × V)

module _ {V : Type 0} where
  -- `map.get(key)`
  unfoldable pub lookup : String → Store V → Option V
  lookup key [] = none
  lookup key ((at, value) ∷ rest) = if at == key then some value else lookup key rest

  -- `map.set(key, new)`: the entry keeps its place, or comes last.
  unfoldable pub insert : String → V → Store V → Store V
  insert key new [] = (key, new) ∷ []
  insert key new ((at, value) ∷ rest) =
      if at == key then (key, new) ∷ rest else (at, value) ∷ insert key new rest

  -- `Array.from(map.values())`
  unfoldable pub values : Store V → List V
  values [] = []
  values ((k, v) ∷ m) = v ∷ values m

  -- `for (const v of map.values()) { if (p(v)) return v; } return null;`
  unfoldable pub find_value : (V → Bool) → Store V → Option V
  find_value p [] = none
  find_value p ((k, v) ∷ m) = if p v then some v else find_value p m

  -- What another key finds after a write.
  pub lookup-insert :
      (key asked : String) (new : V) (m : Store V)
      → lookup asked (insert key new m) ≡ (if key == asked then some new else lookup asked m)
  unfolding lookup insert
  lookup-insert key asked new [] = refl
  lookup-insert key asked new ((at, value) ∷ rest) =
      ground
        (arith, lookup-insert key asked new rest, eq_iff at key, eq_iff at asked, eq_iff key asked)

  pub lookup-insert_self : (k : String) (v : V) (m : Store V) → lookup k (insert k v m) ≡ some v
  lookup-insert_self k v m = ground (arith, lookup-insert k k v m, eq_iff k k)

  -- A value that satisfies the test is found once it is stored, if none was found before.
  pub find_value-insert :
      (p : V → Bool) (k : String) (v : V) (m : Store V)
      → find_value p m ≡ none
      → p v ≡ true
      → find_value p (insert k v m) ≡ some v
  unfolding find_value insert
  find_value-insert p k v [] h e = rw e
  find_value-insert p k v ((j, w) ∷ m) h e = ground (arith, find_value-insert p k v m)

  -- A property of every entry.
  abbrev pub All : (String → V → Type 0) → Store V → Type 0
  All P [] = ⊤
  All P ((k, v) ∷ m) = P k v × All P m

  pub All-lookup :
      (P : String → V → Type 0) (k : String) (v : V) (m : Store V)
      → All P m
      → lookup k m ≡ some v
      → P k v
  unfolding lookup
  All-lookup P k v [] a e = cc
  All-lookup P k v ((j, w) ∷ m) a e = ground (arith, eq_iff j k, All-lookup P k v m a.1)

  pub All-insert :
      (P : String → V → Type 0) (k : String) (v : V) (m : Store V)
      → All P m
      → P k v
      → All P (insert k v m)
  unfolding insert
  All-insert P k v [] a p = (p, tt)
  All-insert P k v ((j, w) ∷ m) a p = ground (arith, All-insert P k v m a.1 p)

  -- The sum of `f` over the values.
  abbrev pub sum_by : (V → ℤ) → Store V → ℤ
  sum_by f [] = pos 0
  sum_by f ((k, v) ∷ m) = f v +ℤ sum_by f m

  abbrev pub weight : (V → ℤ) → Option V → ℤ
  weight f none = pos 0
  weight f (some v) = f v

  pub sum_by-insert :
      (f : V → ℤ) (k : String) (v : V) (m : Store V)
      → sum_by f (insert k v m) +ℤ weight f (lookup k m) ≡ sum_by f m +ℤ f v
  unfolding insert lookup
  sum_by-insert f k v [] = omega int_laws
  sum_by-insert f k v ((j, w) ∷ m) = grind (int_laws, sum_by-insert f k v m)

  pub sum_by-insert_new :
      (f : V → ℤ) (k : String) (v : V) (m : Store V)
      → lookup k m ≡ none
      → sum_by f (insert k v m) ≡ sum_by f m +ℤ f v
  sum_by-insert_new f k v m h = grind (int_laws, sum_by-insert f k v m)

  pub sum_by-insert_old :
      (f : V → ℤ) (k : String) (v old : V) (m : Store V)
      → lookup k m ≡ some old
      → sum_by f (insert k v m) +ℤ f old ≡ sum_by f m +ℤ f v
  sum_by-insert_old f k v old m h = grind (int_laws, sum_by-insert f k v m)

  pub sum_by_nonneg : (f : V → ℤ) (m : Store V) → All (λ _ v. pos 0 ≤ℤ f v) m → pos 0 ≤ℤ sum_by f m
  sum_by_nonneg f [] a = omega arith
  sum_by_nonneg f ((k, v) ∷ m) a = omega (int_laws, sum_by_nonneg f m a.1)

  -- Where no value is negative, a stored one is at most the sum.
  pub weight-le-sum_by :
      (f : V → ℤ) (k : String) (m : Store V)
      → All (λ _ v. pos 0 ≤ℤ f v) m
      → weight f (lookup k m) ≤ℤ sum_by f m
  unfolding lookup
  weight-le-sum_by f k [] a = omega arith
  weight-le-sum_by f k ((j, v) ∷ m) a =
      grind (int_laws, sum_by_nonneg f m a.1, weight-le-sum_by f k m a.1)
