-- ===== src/Base/ByteString.antt =====
-- Byte strings: equality, a slice, and a write into a range. A text is its UTF-8 bytes.
use Prim.Native.Char.{code}
use Prim.Native.Nat.{ℕ, ◌+◌, ◌-◌, ◌≤◌}
use Prim.Native.String.{String}
use mathlib.Core.Bool.{Bool, true, false, ◌&&◌}
use mathlib.Core.List.{List, [], ◌∷◌, ◌++◌}
use mathlib.Core.Logic.{◌↔◌}
use mathlib.Core.Path.{◌≡◌, refl, ap, ◌∙◌}
use native.Mathlib.Omega.{arith}
use simple_fs_rust.Base.Lists.{
  length, take, drop, length-take, length-drop, length-append, take-append, drop-append,
}
use simple_fs_rust.Base.Tests.{◌==◌}

abbrev pub Bytes : Type 0
Bytes = List ℕ

-- The bytes of an ASCII literal.
abbrev pub codes : String → Bytes
codes String.[] = []
codes (String.◌∷◌ c s) = code c ∷ codes s

abbrev pub bytes_eq : Bytes → Bytes → Bool
bytes_eq [] [] = true
bytes_eq [] (y ∷ ys) = false
bytes_eq (x ∷ xs) [] = false
bytes_eq (x ∷ xs) (y ∷ ys) = (x == y) && bytes_eq xs ys

pub bytes_eq_self : (xs : Bytes) → bytes_eq xs xs ≡ true
bytes_eq_self [] = refl
bytes_eq_self (x ∷ xs) = ground (arith, bytes_eq_self xs)

pub bytes_eq→eq : (xs ys : Bytes) → bytes_eq xs ys ≡ true → xs ≡ ys
bytes_eq→eq [] [] h = refl
bytes_eq→eq [] (y ∷ ys) h = cc
bytes_eq→eq (x ∷ xs) [] h = cc
bytes_eq→eq (x ∷ xs) (y ∷ ys) h = ground (arith, bytes_eq→eq xs ys)

pub bytes_eq_of_eq : (xs ys : Bytes) → xs ≡ ys → bytes_eq xs ys ≡ true
bytes_eq_of_eq xs ys e = rw (← e) (bytes_eq_self xs)

pub bytes_eq_iff : (xs ys : Bytes) → (bytes_eq xs ys ≡ true) ↔ (xs ≡ ys)
bytes_eq_iff xs ys = (bytes_eq→eq xs ys, bytes_eq_of_eq xs ys)

-- `bytes[start..end]`
abbrev pub slice : ℕ → ℕ → Bytes → Bytes
slice start end bs = take (end - start) (drop start bs)

-- `bytes[start..start + new.len()].clone_from_slice(new)`
abbrev pub splice : ℕ → Bytes → Bytes → Bytes
splice start new bs = take start bs ++ (new ++ drop (start + length new) bs)

pub length-splice :
    (start : ℕ) (new bs : Bytes)
    → start + length new ≤ length bs
    → length (splice start new bs) ≡ length bs
length-splice start new bs h = omega (
  arith,
  length-append (take start bs) (new ++ drop (start + length new) bs),
  length-append new (drop (start + length new) bs),
  length-take start bs,
  length-drop (start + length new) bs,
)

-- What was written is read back.
pub slice-splice :
    (start : ℕ) (new bs : Bytes)
    → start + length new ≤ length bs
    → slice start (start + length new) (splice start new bs) ≡ new
slice-splice start new bs h =
    ap (take (start + length new - start)) (
      drop-append (take start bs) (new ++ drop (start + length new) bs) start
        (omega (arith, length-take start bs)))
    ∙ take-append new (drop (start + length new) bs) (start + length new - start) (omega arith)
