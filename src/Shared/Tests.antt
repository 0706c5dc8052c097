-- ===== src/Shared/Tests.antt =====
-- Boolean tests, the conditional, and case splits that keep their equation.
use Prim.Native.Nat.{ℕ, suc, compare, Ordering}
use Prim.Native.String.{String, ◌++◌ as append_text}
use text.Mathlib.Text.{◌==◌}
use mathlib.Core.Path.{◌≡◌, refl}
use mathlib.Core.Logic.{◌⊎◌, inl, inr}
use mathlib.Core.Bool.{Bool, true, false}
use mathlib.Core.Option.{Option, none, some}
use mathlib.Core.List.{List, [], ◌∷◌}

abbrev pub ltb : ℕ → ℕ → Bool
ltb a b = elim (compare a b) [ Ordering.lt ↦ true | _ ↦ false ]

abbrev pub leb : ℕ → ℕ → Bool
leb a b = elim (compare a b) [ Ordering.gt ↦ false | _ ↦ true ]

infix 1 if◌then◌else◌
abbrev pub if◌then◌else◌ {ℓ} : {A : Type ℓ} → Bool → A → A → A
if true then x else y = x
if false then x else y = y

-- The truth value of a JavaScript text is the negation of this: `!text`.
abbrev pub is_empty : String → Bool
is_empty s = s == ""

-- `a || b` on texts: the second stands in for an empty first.
abbrev pub or_text : String → String → String
or_text a b = if is_empty a then b else a

abbrev pub is_present {ℓ} : {A : Type ℓ} → Option A → Bool
is_present none = false
is_present (some a) = true

-- `a ?? b`
abbrev pub or_else {ℓ} : {A : Type ℓ} → Option A → A → A
or_else none b = b
or_else (some a) b = a

-- `a + b` on texts, and template literals.
infixr 60 ◌<>◌
abbrev pub ◌<>◌ : String → String → String
a <> b = append_text a b

abbrev pub length {ℓ} : {A : Type ℓ} → List A → ℕ
length [] = 0
length (x ∷ xs) = suc (length xs)

abbrev pub filter_by {ℓ} : {A : Type ℓ} → (A → Bool) → List A → List A
filter_by p [] = []
filter_by p (x ∷ xs) = let rest = filter_by p xs in if p x then x ∷ rest else rest

pub Bool-cases : (b : Bool) → (b ≡ true) ⊎ (b ≡ false)
Bool-cases true = inl refl
Bool-cases false = inr refl

pub Option-cases {ℓ} : {A : Type ℓ} (o : Option A) → (o ≡ none) ⊎ ((a : A) × (o ≡ some a))
Option-cases none = inl refl
Option-cases (some a) = inr (a, refl)
