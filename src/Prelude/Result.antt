-- ===== src/Prelude/Result.antt =====
-- Checks that pass with a value or refuse with a reason: the guards at the head of a handler.
use mathlib.Core.Path.{◌≡◌, refl, ap, subst}
use eto_mcp.Prelude.Tests.{if◌then◌else◌}
use mathlib.Core.Logic.{◌⊎◌, inl, inr}
use mathlib.Core.Bool.{Bool, true, false}
use mathlib.Core.Option.{Option, none, some}

pub data Result (E A : Type 0) : Type 0 where
  ok : A → Result E A
  err : E → Result E A

infixl 5 ◌>>=◌ ◌>>◌
abbrev pub ◌>>=◌ : {E A B : Type 0} → Result E A → (A → Result E B) → Result E B
ok a >>= f = f a
err e >>= f = err e

abbrev pub ◌>>◌ : {E B : Type 0} → Result E (Unit {0}) → Result E B → Result E B
m >> k = m >>= λ _. k

-- `if (c) throw new Rejected(e)`
abbrev pub refuse_if : {E : Type 0} → Bool → E → Result E (Unit {0})
refuse_if true e = err e
refuse_if false e = ok tt

abbrev pub or_refuse : {E A : Type 0} → Option A → E → Result E A
or_refuse none e = err e
or_refuse (some a) e = ok a

pub Result-cases :
    {E A : Type 0} (r : Result E A) → ((e : E) × (r ≡ err e)) ⊎ ((a : A) × (r ≡ ok a))
Result-cases (ok a) = inr (a, refl)
Result-cases (err e) = inl (e, refl)

pub ok_ne_err : {E A : Type 0} {a : A} {x : E} → ¬ (err x ≡ ok a)
ok_ne_err e = cc

-- Whatever the result holds satisfies P.
abbrev pub Always : {E A : Type 0} → (A → Type 0) → Result E A → Type 0
Always {E} {A} P r = (a : A) → r ≡ ok a → P a

pub after :
    {E A B : Type 0} (P : B → Type 0) (m : Result E A) (f : A → Result E B)
    → ((a : A) → m ≡ ok a → Always P (f a))
    → Always P (m >>= f)
after P (ok a) f k b e = k a refl b e
after P (err x) f k b e = absurd (ok_ne_err e)

from_ok : {E A : Type 0} → Result E A → A → A
from_ok (ok a) d = a
from_ok (err x) d = d

pub returned : {E A : Type 0} (P : A → Type 0) (a : A) → P a → Always {E = E} P (ok a)
unfolding from_ok
returned P a p b e = subst P (ap (λ (r : Result _ _). from_ok r a) e) p

-- The same of either branch.
pub either : {A : Type 0} (P : A → Type 0) (c : Bool) {a b : A} → P a → P b → P (if c then a else b)
either P true p q = p
either P false p q = q

-- What a chain that ends well went through.
pub present : {E A : Type 0} (o : Option A) (e : E) (a : A) → or_refuse o e ≡ ok a → o ≡ some a
present none e a h = absurd (ok_ne_err h)
present (some b) e a h = cc

pub passed : {E : Type 0} (c : Bool) (e : E) (u : Unit {0}) → refuse_if c e ≡ ok u → c ≡ false
passed true e u h = absurd (ok_ne_err h)
passed false e u h = refl
