-- ===== src/Tests/Bits.antt =====
-- A bitmap of bits as nested pairs, in the place of `bitmaps::Bitmap<8>`.
use simple_fs_rust.Base.{
  Option-cases, inl, inr, Bool-cases, arith, ◌*◌, ◌/◌, ◌+◌, ◌<◌, ◌==◌, Bool, Option, if◌then◌else◌,
  ◌%◌, ◌≡◌, ℕ, refl, zero, suc, true, false, none, some,
}
use simple_fs_rust.State.{count_below, BitOps, IsBitmap8}

abbrev pub Bits : ℕ → Type 0
Bits zero = Unit
Bits (suc n) = Bool × Bits n

abbrev get_bit : (n : ℕ) → Bits n → ℕ → Bool
get_bit zero b i = false
get_bit (suc n) b zero = b.0
get_bit (suc n) b (suc i) = get_bit n b.1 i

abbrev set_bit : (n : ℕ) → Bits n → ℕ → Bool → Bits n
set_bit zero b i v = b
set_bit (suc n) b zero v = (v, b.1)
set_bit (suc n) b (suc i) v = (b.0, set_bit n b.1 i v)

abbrev next : Option ℕ → Option ℕ
next none = none
next (some i) = some (suc i)

abbrev first_false : (n : ℕ) → Bits n → Option ℕ
first_false zero b = none
first_false (suc n) b = if b.0 then next (first_false n b.1) else some 0

abbrev pub read_bits : (n : ℕ) → ℕ → Bits n
read_bits zero v = tt
read_bits (suc n) v = (v % 2 == 1, read_bits n (v / 2))

abbrev value : (n : ℕ) → Bits n → ℕ
value zero b = 0
value (suc n) b = (if b.0 then 1 else 0) + 2 * value n b.1

abbrev pub bit_ops : BitOps (Bits 8)
bit_ops = record {
  get = get_bit 8;
  set = λ b i v. (set_bit 8 b i v, get_bit 8 b i);
  first_false_index = first_false 8;
  len = λ b. count_below 8 (get_bit 8 b);
  from_value = read_bits 8;
  into_value = value 8;
}

get_bit-set_bit :
    (n : ℕ) (b : Bits n) (i j : ℕ) (v : Bool)
    → i < n
    → get_bit n (set_bit n b i v) j ≡ (if i == j then v else get_bit n b j)
get_bit-set_bit zero b i j v h = absurd (omega arith)
get_bit-set_bit (suc n) b zero zero v h = refl
get_bit-set_bit (suc n) b zero (suc j) v h = ground arith
get_bit-set_bit (suc n) b (suc i) zero v h = ground arith
get_bit-set_bit (suc n) b (suc i) (suc j) v h =
    ground (arith, get_bit-set_bit n b.1 i j v (omega arith))

first_false-some :
    (n : ℕ) (b : Bits n) (i : ℕ) → first_false n b ≡ some i → (i < n) × (get_bit n b i ≡ false)
first_false-some zero b i h = absurd (cc h)
first_false-some (suc n) b i h = elim (Bool-cases (b.0)) [
  | inr free ↦
      let r : some 0 ≡ some i = rw free at h in let s : 0 ≡ i = cc r in rw (← s) (omega arith, free)
  | inl taken ↦ elim (Option-cases (first_false n b.1)) [
    | inl q ↦ let r : none ≡ some i = rw (taken, q) at h in cc r
    | inr (k, q) ↦
        let r : some (suc k) ≡ some i = rw (taken, q) at h in
        let s : suc k ≡ i = cc r in
        let (below, bit) = first_false-some n b.1 k q in rw (← s) (omega arith, bit)
  ]
]

first_false-none :
    (n : ℕ) (b : Bits n) → first_false n b ≡ none → (j : ℕ) → j < n → get_bit n b j ≡ true
first_false-none zero b h j p = absurd (omega arith)
first_false-none (suc n) b h zero p = ground arith
first_false-none (suc n) b h (suc j) p = elim (Bool-cases (b.0)) [
  | inr free ↦ let r : some 0 ≡ none = rw free at h in cc r
  | inl taken ↦ elim (Option-cases (first_false n b.1)) [
    | inl q ↦ first_false-none n b.1 q j (omega arith)
    | inr (k, q) ↦ let r : some (suc k) ≡ none = rw (taken, q) at h in cc r
  ]
]

read_bits-value : (n : ℕ) (b : Bits n) → read_bits n (value n b) ≡ b
read_bits-value zero b = refl
read_bits-value (suc n) (true, b) =
    let low : ((1 + 2 * value n b) % 2 == 1) ≡ true = ground arith in
    let high : (1 + 2 * value n b) / 2 ≡ value n b = omega arith in
    rw (low, high, read_bits-value n b) refl
read_bits-value (suc n) (false, b) =
    let low : ((0 + 2 * value n b) % 2 == 1) ≡ false = ground arith in
    let high : (0 + 2 * value n b) / 2 ≡ value n b = omega arith in
    rw (low, high, read_bits-value n b) refl

pub bit_ops-IsBitmap8 : IsBitmap8 bit_ops
bit_ops-IsBitmap8 = record {
  get-set = λ b i j v p q. get_bit-set_bit 8 b i j v p;
  set_previous = λ b i v p. refl;
  first_false-some = first_false-some 8;
  first_false-none = first_false-none 8;
  len_lem = λ b. refl;
  from_value-into_value = read_bits-value 8;
}
