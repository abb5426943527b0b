-- ===== src/State/Monad.antt =====
-- A call: it changes the world and ends with a value, an error, a panic (an `unwrap`, an assertion
-- or an index that fails) or not at all. The changes that were made before an error stay.
use simple_fs_rust.Base.{◌≡◌, refl, Bool, true, false, Option, none, some, ◌⊎◌, inl, inr}
use simple_fs_rust.State.Data.{World}
use simple_fs_rust.State.Errors.{Error}

pub data Outcome (A : Type 0) : Type 0 where
  ok : A → Outcome A
  err : Error → Outcome A
  panic : Outcome A
  diverge : Outcome A

abbrev pub M : Type 0 → Type 0 → Type 0
M B A = World B → Outcome A × World B

module _ {B A : Type 0} where
  abbrev pub pure : A → M B A
  pure a w = (ok a, w)

  abbrev pub fail : Error → M B A
  fail e w = (err e, w)

  abbrev pub crash : M B A
  crash w = (panic, w)

  abbrev pub gets : (World B → A) → M B A
  gets f w = (ok (f w), w)

  abbrev pub lift : Outcome A → M B A
  lift o w = (o, w)

  -- `.unwrap()`: an error becomes a panic.
  abbrev pub unwrapped : Outcome A × World B → Outcome A × World B
  unwrapped (ok a, w) = (ok a, w)
  unwrapped (err e, w) = (panic, w)
  unwrapped (panic, w) = (panic, w)
  unwrapped (diverge, w) = (diverge, w)

  abbrev pub unwrap : M B A → M B A
  unwrap m w = unwrapped (m w)

  -- The result as a value, for code that inspects it (`is_ok`, `is_err`, `match`).
  abbrev pub attempted : Outcome A × World B → Outcome (Outcome A) × World B
  attempted (ok a, w) = (ok (ok a), w)
  attempted (err e, w) = (ok (err e), w)
  attempted (panic, w) = (panic, w)
  attempted (diverge, w) = (diverge, w)

  abbrev pub attempt : M B A → M B (Outcome A)
  attempt m w = attempted (m w)

  abbrev pub or_fail : Option A → Error → M B A
  or_fail none e w = (err e, w)
  or_fail (some a) e w = (ok a, w)

  abbrev pub or_crash : Option A → M B A
  or_crash none w = (panic, w)
  or_crash (some a) w = (ok a, w)

-- `match` on a result whose errors are treated alike, and on an `Option`.
abbrev pub on_ok : {B A C : Type 0} → Outcome A → M B C → (A → M B C) → M B C
on_ok (ok a) other f = f a
on_ok (err e) other f = other
on_ok panic other f = other
on_ok diverge other f = other

abbrev pub on_some : {B A C : Type 0} → Option A → M B C → (A → M B C) → M B C
on_some none other f = other
on_some (some a) other f = f a

abbrev pub modify : {B : Type 0} → (World B → World B) → M B (Unit {0})
modify f w = (ok tt, f w)

abbrev pub when_not : {B : Type 0} → Bool → Error → M B (Unit {0})
when_not true e w = (ok tt, w)
when_not false e w = (err e, w)

-- `assert!`
abbrev pub assert : {B : Type 0} → Bool → M B (Unit {0})
assert true w = (ok tt, w)
assert false w = (panic, w)

abbrev pub is_ok : {A : Type 0} → Outcome A → Bool
is_ok (ok a) = true
is_ok (err e) = false
is_ok panic = false
is_ok diverge = false

abbrev pub and_then : {B A C : Type 0} → Outcome A × World B → (A → M B C) → Outcome C × World B
and_then (ok a, w) f = f a w
and_then (err e, w) f = (err e, w)
and_then (panic, w) f = (panic, w)
and_then (diverge, w) f = (diverge, w)

infixl 5 ◌>>=◌ ◌>>◌
abbrev pub ◌>>=◌ : {B A C : Type 0} → M B A → (A → M B C) → M B C
◌>>=◌ m f w = and_then (m w) f

abbrev pub ◌>>◌ : {B C : Type 0} → M B (Unit {0}) → M B C → M B C
m >> k = m >>= λ _. k

pub Outcome-cases :
    {A : Type 0} (o : Outcome A)
    → ((a : A) × (o ≡ ok a)) ⊎ (((e : Error) × (o ≡ err e)) ⊎ ((o ≡ panic) ⊎ (o ≡ diverge)))
Outcome-cases (ok a) = inl (a, refl)
Outcome-cases (err e) = inr (inl (e, refl))
Outcome-cases panic = inr (inr (inl refl))
Outcome-cases diverge = inr (inr (inr refl))

and_then-eq-ok :
    {B A C : Type 0} (r : Outcome A × World B) (f : A → M B C) {c : C} {w' : World B}
    → and_then r f ≡ (ok c, w')
    → (a : A) × (v : World B) × (r ≡ (ok a, v)) × (f a v ≡ (ok c, w'))
and_then-eq-ok (ok a, v) f h = (a, v, refl, h)
and_then-eq-ok (err e, v) f h = cc
and_then-eq-ok (panic, v) f h = cc
and_then-eq-ok (diverge, v) f h = cc

-- Inversion of a bind that ends with a value.
pub >>=-eq-ok :
    {B A C : Type 0} (m : M B A) (f : A → M B C) (w : World B) {c : C} {w' : World B}
    → (m >>= f) w ≡ (ok c, w')
    → (a : A) × (v : World B) × (m w ≡ (ok a, v)) × (f a v ≡ (ok c, w'))
>>=-eq-ok m f w h = and_then-eq-ok (m w) f h
