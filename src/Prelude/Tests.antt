-- ===== src/Prelude/Tests.antt =====
-- Boolean tests on the native numbers, the conditional, and results that may be a fault.
use Prim.Native.Nat.{ℕ, compare, Ordering}
use mathlib.Core.Path.{◌≡◌, refl, ap, subst}
use mathlib.Core.Logic.{◌⊎◌, inl, inr}
use mathlib.Core.Bool.{Bool, true, false}
use mathlib.Core.Option.{Option, none, some}
use native.Mathlib.Omega.{arith}

abbrev pub ltb : ℕ → ℕ → Bool
ltb a b = elim (compare a b) [ Ordering.lt ↦ true | _ ↦ false ]

abbrev pub leb : ℕ → ℕ → Bool
leb a b = elim (compare a b) [ Ordering.gt ↦ false | _ ↦ true ]

infix 50 ◌==◌
abbrev pub ◌==◌ : ℕ → ℕ → Bool
a == b = elim (compare a b) [ Ordering.eq ↦ true | _ ↦ false ]

infix 1 if◌then◌else◌
abbrev pub if◌then◌else◌ {ℓ} : {A : Type ℓ} → Bool → A → A → A
if true then x else y = x
if false then x else y = y

pub ==_refl : (a : ℕ) → (a == a) ≡ true
==_refl a = ground arith

pub Bool-cases : (b : Bool) → (b ≡ true) ⊎ (b ≡ false)
Bool-cases true = inl refl
Bool-cases false = inr refl

pub Option-cases {ℓ} : {A : Type ℓ} (o : Option A) → (o ≡ none) ⊎ ((a : A) × (o ≡ some a))
Option-cases none = inl refl
Option-cases (some a) = inr (a, refl)

-- A write through a function that stands for a store or a map.
abbrev pub update {ℓ} : {A : Type ℓ} → (ℕ → A) → ℕ → A → ℕ → A
update f p v q = if p == q then v else f q

-- `none` is a fault: an access out of a vector's range.
infixl 5 ◌>>=◌
abbrev pub ◌>>=◌ {ℓ κ} : {A : Type ℓ} {B : Type κ} → Option A → (A → Option B) → Option B
none >>= f = none
some a >>= f = f a

-- The result is no fault, and has the property.
pub data Returns {ℓ} {A : Type ℓ} (P : A → Type 0) : Option A → Type ℓ where
  returns : {a : A} → P a → Returns P (some a)

module _ {ℓ κ} {A : Type ℓ} {B : Type κ} where
  -- A fault-free result goes on with a step that returns.
  pub Returns-bind :
      {P : A → Type 0} {Q : B → Type 0} {o : Option A} {f : A → Option B}
      → Returns P o
      → ((a : A) → P a → Returns Q (f a))
      → Returns Q (o >>= f)
  Returns-bind (returns {a = a} h) k = k a h

module _ {ℓ} {A : Type ℓ} where
  pub Returns-if :
      {P : A → Type 0} (b : Bool) {x y : Option A}
      → Returns P x
      → (b ≡ false → Returns P y)
      → Returns P (if b then x else y)
  Returns-if true h k = h
  Returns-if false h k = k refl

module _ {ℓ} {A : Type ℓ} where
  pub Returns-some : {P : A → Type 0} {o : Option A} → Returns P o → (a : A) × (o ≡ some a) × P a
  Returns-some (returns {a = a} h) = (a, refl, h)

  pub Returns-value : {P : A → Type 0} {o : Option A} (a : A) → Returns P o → o ≡ some a → P a
  Returns-value {P} a (returns {a = b} h) e =
      subst P (ap (λ (o : Option A). elim o [ none ↦ b | some c ↦ c ]) e) h

  pub Returns-both :
      {P Q : A → Type 0} {o : Option A} → Returns P o → Returns Q o → Returns (λ a. P a × Q a) o
  Returns-both {P} {Q} k l =
      let (a, e, p) = Returns-some k in rw e (returns (p, Returns-value a l e))

  pub Returns-map :
      {P Q : A → Type 0} {o : Option A} → Returns P o → ((a : A) → P a → Q a) → Returns Q o
  Returns-map (returns {a = a} h) f = returns (f a h)

-- Steps in the order in which they are written.
infixl 3 ◌|>◌
abbrev pub ◌|>◌ {ℓ κ} : {A : Type ℓ} {B : Type κ} → A → (A → B) → B
a |> f = f a
