-- ===== src/Shared/Sort.antt =====
-- The stable sort of JavaScript arrays, by an order of numeric keys, and what it keeps.
use mathlib.Core.List.{List, [], ◌∷◌, Perm}
use mathlib.Core.List.Perm
use native.Mathlib.Omega.{arith}
use mathlib.Core.Logic.{inl, inr}
use autonomous_enterprise.Shared.Tests.{if◌then◌else◌, Bool-cases}
use autonomous_enterprise.Shared.Effects.{⊤}
use autonomous_enterprise.Shared.Int.{ℤ, ltb_ℤ, ◌≤ℤ◌, ltb_ℤ→lt, ltb_ℤ→ge}

module _ {A : Type 0} (key : A → ℤ) where
  -- `xs.sort((a, b) => key(b) - key(a))` puts `x` before the first of no greater key.
  unfoldable pub place : A → List A → List A
  place x [] = x ∷ []
  place x (y ∷ ys) = if ltb_ℤ (key x) (key y) then y ∷ place x ys else x ∷ y ∷ ys

  unfoldable pub sort_down : List A → List A
  unfolding place
  sort_down [] = []
  sort_down (x ∷ xs) = place x (sort_down xs)

  -- Every key is at least the keys after it.
  abbrev pub IsBound : ℤ → List A → Type 0
  IsBound k [] = ⊤
  IsBound k (y ∷ ys) = (key y ≤ℤ k) × IsBound k ys

  abbrev pub IsDescending : List A → Type 0
  IsDescending [] = ⊤
  IsDescending (x ∷ xs) = IsBound (key x) xs × IsDescending xs

  IsBound-weaken : (k l : ℤ) (xs : List A) → l ≤ℤ k → IsBound l xs → IsBound k xs
  IsBound-weaken k l [] le h = h
  IsBound-weaken k l (x ∷ xs) le h = (omega (arith, h.0), IsBound-weaken k l xs le h.1)

  place-IsBound : (k : ℤ) (x : A) (ys : List A) → key x ≤ℤ k → IsBound k ys → IsBound k (place x ys)
  unfolding place
  place-IsBound k x [] le h = (le, tt)
  place-IsBound k x (y ∷ ys) le h = ground (arith, place-IsBound k x ys le h.1)

  place-IsDescending : (x : A) (ys : List A) → IsDescending ys → IsDescending (place x ys)
  unfolding place
  place-IsDescending x [] h = (tt, tt)
  place-IsDescending x (y ∷ ys) h = elim (Bool-cases (ltb_ℤ (key x) (key y))) [
    | inl less ↦ rw less (
      place-IsBound (key y) x ys (omega (arith, ltb_ℤ→lt (key x) (key y) less)) h.0,
      place-IsDescending x ys h.1,
    )
    | inr more ↦ rw more (
      (
        ltb_ℤ→ge (key x) (key y) more,
        IsBound-weaken (key x) (key y) ys (ltb_ℤ→ge (key x) (key y) more) h.0,
      ),
      h,
    )
  ]

  pub sort_down-IsDescending : (xs : List A) → IsDescending (sort_down xs)
  unfolding sort_down
  sort_down-IsDescending [] = tt
  sort_down-IsDescending (x ∷ xs) = place-IsDescending x (sort_down xs) (sort_down-IsDescending xs)

  place-perm : (x : A) (ys : List A) → Perm (place x ys) (x ∷ ys)
  unfolding place
  place-perm x [] = Perm.refl (x ∷ [])
  place-perm x (y ∷ ys) = elim (Bool-cases (ltb_ℤ (key x) (key y))) [
    | inl less ↦ rw less (Perm.trans (Perm.cons y (place-perm x ys)) (Perm.swap x y ys))
    | inr more ↦ rw more (Perm.refl (x ∷ y ∷ ys))
  ]

  pub sort_down-perm : (xs : List A) → Perm (sort_down xs) xs
  unfolding sort_down
  sort_down-perm [] = Perm.refl []
  sort_down-perm (x ∷ xs) =
      Perm.trans (place-perm x (sort_down xs)) (Perm.cons x (sort_down-perm xs))
