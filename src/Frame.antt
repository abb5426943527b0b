-- ===== src/Frame.antt =====
-- What a call may do to the world: a relation between the world before and after it, whichever way
-- it ends. The rules build calls as the program does; the children follow them through
-- simdisk/src.
pub mod Reading
pub mod Changing
pub mod Objects
pub mod Removal
pub mod Inodes
pub mod Trees
pub mod Queries
pub mod Commands
pub mod Dispatch
pub mod Puts
pub mod Users
pub mod Store
pub mod Sound
use simple_fs_rust.Base.{
  refl, ◌≡◌, if◌then◌else◌, ℕ, List, Bool, true, false, Bytes, Option, none, some,
}
use simple_fs_rust.State.{
  by_type, InodeType, on_ok, on_some, err, panic, diverge, ok, and_then, attempt, attempted, fail,
  lift, or_fail, unwrap, unwrapped, ◌>>=◌, ◌>>◌, Error, M, Outcome, assert, crash, gets, or_crash,
  pure, World,
}

module _ {B : Type 0} where
  -- The call leads to a related world, whether it returns, fails, panics or diverges.
  pub record Within (R : World B → World B → Type 0) {A : Type 0} (m : M B A) : Type 0 where
    pub run : (w : World B) → R w (m w).1

  -- A relation that calls may be followed by.
  pub record IsFrame (R : World B → World B → Type 0) : Type 0 where
    pub refl_lem : (w : World B) → R w w
    pub trans_lem : (u v w : World B) → R u v → R v w → R u w

module _ {B : Type 0} {R : World B → World B → Type 0} (F : IsFrame R) where
  module _ {A : Type 0} where
    pub Within-pure : (a : A) → Within R (pure a)
    Within-pure a = record { run = λ w. F.refl_lem w }

    pub Within-fail : (e : Error) → Within R (fail {A = A} e)
    Within-fail e = record { run = λ w. F.refl_lem w }

    pub Within-crash : Within R (crash {A = A})
    Within-crash = record { run = λ w. F.refl_lem w }

    pub Within-gets : (f : World B → A) → Within R (gets f)
    Within-gets f = record { run = λ w. F.refl_lem w }

    pub Within-lift : (o : Outcome A) → Within R (lift o)
    Within-lift o = record { run = λ w. F.refl_lem w }

    pub Within-or_fail : (o : Option A) (e : Error) → Within R (or_fail o e)
    Within-or_fail none e = record { run = λ w. F.refl_lem w }
    Within-or_fail (some a) e = record { run = λ w. F.refl_lem w }

    pub Within-or_crash : (o : Option A) → Within R (or_crash o)
    Within-or_crash none = record { run = λ w. F.refl_lem w }
    Within-or_crash (some a) = record { run = λ w. F.refl_lem w }

    unwrapped-world : (p : Outcome A × World B) → (unwrapped p).1 ≡ p.1
    unwrapped-world (ok a, w) = refl
    unwrapped-world (err e, w) = refl
    unwrapped-world (panic, w) = refl
    unwrapped-world (diverge, w) = refl

    attempted-world : (p : Outcome A × World B) → (attempted p).1 ≡ p.1
    attempted-world (ok a, w) = refl
    attempted-world (err e, w) = refl
    attempted-world (panic, w) = refl
    attempted-world (diverge, w) = refl

    pub Within-unwrap : (m : M B A) → Within R m → Within R (unwrap m)
    Within-unwrap m k = record { run = λ w. rw (unwrapped-world (m w)) (k.run w) }

    pub Within-attempt : (m : M B A) → Within R m → Within R (attempt m)
    Within-attempt m k = record { run = λ w. rw (attempted-world (m w)) (k.run w) }

    pub Within-if :
        (b : Bool) (m n : M B A) → Within R m → Within R n → Within R (if b then m else n)
    Within-if true m n km kn = km
    Within-if false m n km kn = kn

  pub Within-assert : (b : Bool) → Within R (assert b)
  Within-assert true = record { run = λ w. F.refl_lem w }
  Within-assert false = record { run = λ w. F.refl_lem w }

  module _ {A C : Type 0} where
    and_then-Within :
        (w : World B) (p : Outcome A × World B) (f : A → M B C)
        → R w p.1
        → ((a : A) → Within R (f a))
        → R w (and_then p f).1
    and_then-Within w (ok a, v) f h k = F.trans_lem w v (f a v).1 h ((k a).run v)
    and_then-Within w (err e, v) f h k = h
    and_then-Within w (panic, v) f h k = h
    and_then-Within w (diverge, v) f h k = h

    pub Within->>= :
        (m : M B A) (f : A → M B C) → Within R m → ((a : A) → Within R (f a)) → Within R (m >>= f)
    Within->>= m f km kf = record { run = λ w. and_then-Within w (m w) f (km.run w) kf }

  module _ {A C : Type 0} where
    pub Within-on_ok :
        (o : Outcome A) (m : M B C) (f : A → M B C)
        → Within R m
        → ((a : A) → Within R (f a))
        → Within R (on_ok o m f)
    Within-on_ok (ok a) m f km kf = kf a
    Within-on_ok (err e) m f km kf = km
    Within-on_ok panic m f km kf = km
    Within-on_ok diverge m f km kf = km

    pub Within-on_some :
        (o : Option A) (m : M B C) (f : A → M B C)
        → Within R m
        → ((a : A) → Within R (f a))
        → Within R (on_some o m f)
    Within-on_some none m f km kf = km
    Within-on_some (some a) m f km kf = kf a

  pub Within-by_type :
      {C : Type 0} (ty : InodeType) (m n : M B C)
      → Within R m
      → Within R n
      → Within R (by_type ty m n)
  Within-by_type InodeType.file m n km kn = km
  Within-by_type InodeType.directory m n km kn = kn

  pub Within->> :
      {C : Type 0} (m : M B (Unit {0})) (n : M B C) → Within R m → Within R n → Within R (m >> n)
  Within->> m n km kn = Within->>= m (λ _. n) km (λ _. kn)

-- A fact as a rule, which a search applies up to computing: so it takes a recursive call.
pub call {ℓ} : {P : Type ℓ} → P → Unit {0} → P
call p u = p

pub ruleset frame_rules = (
  Within-pure, Within-fail, Within-crash, Within-gets, Within-lift, Within-or_fail, Within-or_crash,
  Within-unwrap, Within-attempt, Within-if, Within-assert, Within->>=, Within->>, Within-on_ok,
  Within-on_some, Within-by_type,
)
