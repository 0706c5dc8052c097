-- ===== src/Shared/Effects.antt =====
-- A service method: it reads and writes a state and may throw. What was written before a throw
-- stays written, so the state comes back beside the error too.
use Prim.Native.String.{String}
use mathlib.Core.Path.{◌≡◌, refl, sym}
use mathlib.Core.Bool.{Bool}
use mathlib.Core.Logic.{◌⊎◌, inl, inr}
use native.Mathlib.Omega.{arith}
use mathlib.Core.Option.{Option, none, some}
use autonomous_enterprise.Shared.Tests.{if◌then◌else◌}

abbrev pub ⊤ : Type 0
⊤ = Unit

-- The exceptions of the services: NotFoundException with the kind and the identifier that its
-- message names, BadRequestException with the fixed part of its message, and the plain Error of a
-- repository.
pub data Error : Type 0 where
  not_found : String → String → Error
  bad_request : String → Error
  fault : String → String → Error

-- What a method returns or throws.
pub data Result (A : Type 0) : Type 0 where
  err : Error → Result A
  ok : A → Result A

-- A method that returns an `A`, over the state `S`.
abbrev pub Action : Type 0 → Type 0 → Type 0
Action S A = S → Result A × S

module _ {S A : Type 0} where
  abbrev pub pure : A → Action S A
  pure a s = (ok a, s)

  abbrev pub throw : Error → Action S A
  throw e s = (err e, s)

  abbrev pub gets : (S → A) → Action S A
  gets f s = (ok (f s), s)

  abbrev pub or_throw : Option A → Error → Action S A
  or_throw none e = throw e
  or_throw (some a) e = pure a

  -- `if (existing) { return existing; }` before the rest `m`
  abbrev pub or_existing : Option A → Action S A → Action S A
  or_existing none m = m
  or_existing (some a) m = pure a

module _ {S : Type 0} where
  abbrev pub throw_if : Bool → Error → Action S ⊤
  throw_if c e s = (if c then err e else ok tt, s)

  abbrev pub modify : (S → S) → Action S ⊤
  modify f s = (ok tt, f s)

  -- `if (c) { m }`
  abbrev pub run_if : Bool → Action S ⊤ → Action S ⊤
  run_if c m s = if c then m s else (ok tt, s)

-- The rest of a chain, from what its first action returned.
abbrev next : {S A B : Type 0} → Result A × S → (A → Action S B) → Result B × S
next (ok a, s) f = f a s
next (err e, s) f = (err e, s)

infixl 5 ◌>>=◌ ◌>>◌
abbrev pub ◌>>=◌ : {S A B : Type 0} → Action S A → (A → Action S B) → Action S B
◌>>=◌ m f s = next (m s) f

abbrev pub ◌>>◌ : {S A B : Type 0} → Action S A → Action S B → Action S B
m >> k = m >>= λ _. k

-- The state after a call, and its result.
abbrev pub after : {S A : Type 0} → Result A × S → S
after p = p.1

abbrev pub result : {S A : Type 0} → Result A × S → Result A
result p = p.0

pub Result-cases :
    {A : Type 0} (x : Result A) → ((e : Error) × (x ≡ err e)) ⊎ ((a : A) × (x ≡ ok a))
Result-cases (ok a) = inr (a, refl)
Result-cases (err e) = inl (e, refl)

-- What holds after a call, by how it ended.
pub after-cases :
    {S A : Type 0} (Q : S → Type 0) (p : Result A × S)
    → ((e : Error) → result p ≡ err e → Q (after p))
    → ((a : A) → result p ≡ ok a → Q (after p))
    → Q (after p)
after-cases Q (ok a, s) failed done = done a refl
after-cases Q (err e, s) failed done = failed e refl

next-same :
    {S A B : Type 0} (p : Result A × S) (f : A → Action S B) (s : S)
    → after p ≡ s
    → ((x : A) → after (f x s) ≡ s)
    → after (next p f) ≡ s
next-same (ok a, t) f s one more = rw (one) (more a)
next-same (err e, t) f s one more = one

next-ok :
    {S A B : Type 0} (p : Result A × S) (f : A → Action S B) (x : A)
    → result p ≡ ok x
    → next p f ≡ f x (after p)
next-ok (ok a, t) f x one = ground arith
next-ok (err e, t) f x one = ground arith

next-result :
    {S A B : Type 0} (p : Result A × S) (f : A → Action S B) (s : S) (y : B)
    → after p ≡ s
    → result (next p f) ≡ ok y
    → (x : A) × (result p ≡ ok x) × (result (f x s) ≡ ok y)
next-result (ok a, t) f s y one done = (a, refl, rw (sym one) done)
next-result (err e, t) f s y one done = ground arith

-- A chain of two actions, the first of which changes nothing.
pub then_same :
    {S A B : Type 0} (a : Action S A) (f : A → Action S B) (s : S)
    → after (a s) ≡ s
    → ((x : A) → after (f x s) ≡ s)
    → after ((a >>= f) s) ≡ s
then_same a f s one more = next-same (a s) f s one more

pub then_result :
    {S A B : Type 0} (a : Action S A) (f : A → Action S B) (s : S) (y : B)
    → after (a s) ≡ s
    → result ((a >>= f) s) ≡ ok y
    → (x : A) × (result (a s) ≡ ok x) × (result (f x s) ≡ ok y)
then_result a f s y one done = next-result (a s) f s y one done

-- A chain whose first action returns.
pub then_ok :
    {S A B : Type 0} (a : Action S A) (f : A → Action S B) (s : S) (x : A)
    → result (a s) ≡ ok x
    → (a >>= f) s ≡ f x (after (a s))
then_ok a f s x one = next-ok (a s) f x one

next-part :
    {S A B C : Type 0} (get : S → C) (p : Result A × S) (f : A → Action S B)
    → ((x : A) (u : S) → get (after (f x u)) ≡ get u)
    → get (after (next p f)) ≡ get (after p)
next-part get (ok a, t) f keeps = keeps a t
next-part get (err e, t) f keeps = refl

-- A chain of two actions, the second of which leaves a part of the state.
pub then_part :
    {S A B C : Type 0} (get : S → C) (a : Action S A) (f : A → Action S B) (s : S)
    → ((x : A) (u : S) → get (after (f x u)) ≡ get u)
    → get (after ((a >>= f) s)) ≡ get (after (a s))
then_part get a f s keeps = next-part get (a s) f keeps

-- A call of another service: it runs on its part of the state.
abbrev pub on_part : {S T A : Type 0} → (T → S) → (S → T → T) → Action S A → Action T A
on_part get put a t = let (r, s) = a (get t) in (r, put s t)

-- `try { a } catch (e) { … }`: the result of `a`, thrown or not, as a value.
abbrev pub attempt : {S A : Type 0} → Action S A → Action S (Result A)
attempt a s = let (r, t) = a s in (ok r, t)
