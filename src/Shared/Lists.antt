-- ===== src/Shared/Lists.antt =====
-- JavaScript arrays that a service searches and writes in place.
use mathlib.Core.Path.{◌≡◌}
use mathlib.Core.Bool.{Bool, true}
use mathlib.Core.Option.{Option, none, some}
use mathlib.Core.List.{List, [], ◌∷◌}
use native.Mathlib.Omega.{arith}
use autonomous_enterprise.Shared.Tests.{if◌then◌else◌}
use autonomous_enterprise.Shared.Int.{ℤ, pos, ◌+ℤ◌}

module _ {A : Type 0} where
  -- `xs.find(p)`
  unfoldable pub find_first : (A → Bool) → List A → Option A
  find_first p [] = none
  find_first p (x ∷ xs) = if p x then some x else find_first p xs

  -- `xs[xs.findIndex(p)] = new`
  unfoldable pub replace_first : (A → Bool) → A → List A → List A
  replace_first p new [] = []
  replace_first p new (x ∷ xs) = if p x then new ∷ xs else x ∷ replace_first p new xs

  -- What was found and is replaced by another that satisfies the test is found again.
  pub find_first-replace_first :
      (p : A → Bool) (new : A) (xs : List A) (old : A)
      → find_first p xs ≡ some old
      → p new ≡ true
      → find_first p (replace_first p new xs) ≡ some new
  unfolding find_first replace_first
  find_first-replace_first p new [] old found e = ground arith
  find_first-replace_first p new (x ∷ xs) old found e =
      ground (arith, find_first-replace_first p new xs old)

  -- `xs.reduce((sum, x) => sum + f(x), 0)`
  abbrev pub total : (A → ℤ) → List A → ℤ
  total f [] = pos 0
  total f (x ∷ xs) = f x +ℤ total f xs
