-- ===== src/Bitmap/Count.antt =====
-- `count_bits` of simdisk/src/bitmap.rs is the number of set bits, and one call changes it by one.
use simple_fs_rust.Base.{
  ◌≤◌, ℕ, zero, suc, ◌+◌, ◌*◌, ◌/◌, ◌%◌, ◌<◌, ◌==◌, ◌≡◌, ◌∙◌, refl, ap, sym, Bool, true, false,
  List, [], ◌∷◌, if◌then◌else◌, length, arith, inl, inr, Bool-cases,
}
use mathlib.Core.Path.{subst}
use simple_fs_rust.State.{BitmapManager, BitmapType, BitOps, IsBitmap8, ok, count_below}
use simple_fs_rust.Bitmap.{
  count_data_blocks, count_inodes, bitmap_of, sum_len, count_bits, alloc_bit_in, dealloc_bit_in,
}
use simple_fs_rust.Bitmap.Bits.{bit_at}
use simple_fs_rust.Bitmap.Manager.{
  IsReady, Writes, other, Allocs, manager_bit, alloc_bit_in-Allocs, dealloc_bit_in-Writes,
}
use simple_fs_rust.Constants.{data_block_max_num, inode_max_num}

count_below-add :
    (n k m : ℕ) (p : ℕ → Bool)
    → m ≡ n + k
    → count_below m p ≡ count_below k p + count_below n (λ i. p (i + k))
count_below-add zero k m p e = let h : m ≡ k = omega arith in rw h (omega arith)
count_below-add (suc n) k m p e =
    let h : m ≡ suc (n + k) = omega arith in
    rw h (omega (arith, count_below-add n k (n + k) p refl))

count_below-congr :
    (n : ℕ) (p q : ℕ → Bool) → ((i : ℕ) → i < n → p i ≡ q i) → count_below n p ≡ count_below n q
count_below-congr zero p q h = refl
count_below-congr (suc n) p q h =
    rw (h n (omega arith), count_below-congr n p q (λ i hi. h i (omega arith)))

count_below-bound : (n : ℕ) (p : ℕ → Bool) → count_below n p ≤ n
count_below-bound zero p = omega arith
count_below-bound (suc n) p = ground (arith, count_below-bound n p)

abbrev pub bit_value : Bool → ℕ
bit_value b = if b then 1 else 0

-- One bit is written.
count_below-write :
    (n k : ℕ) (p q : ℕ → Bool) (v : Bool)
    → k < n
    → ((i : ℕ) → i < n → q i ≡ (if k == i then v else p i))
    → count_below n q + bit_value (p k) ≡ count_below n p + bit_value v
count_below-write zero k p q v hk h = absurd (omega arith)
count_below-write (suc n) k p q v hk h = elim (Bool-cases (k == n)) [
  | inl same ↦
      let e : k ≡ n = ground arith in
      let c : count_below n q ≡ count_below n p =
        count_below-congr n q p (λ i hi. ground (arith, h i)) in
      let qn : q n ≡ v = ground (arith, h n) in rw (qn, c, e) (omega arith)
  | inr less ↦
      let qn : q n ≡ p n = ground (arith, h n) in
      rw qn (omega (arith, count_below-write n k p q v (ground arith) (λ i hi. h i (omega arith))))
]

module _ {B : Type 0} (bits : BitOps B) where
  bit_at-low : (b : B) (bs : List B) (i : ℕ) → i < 8 → bit_at bits (b ∷ bs) i ≡ bits.get b i
  bit_at-low b bs i h =
      let p : i / 8 ≡ 0 = omega arith in let q : i % 8 ≡ i = omega arith in rw (p, q)

  bit_at-high : (b : B) (bs : List B) (i : ℕ) → bit_at bits (b ∷ bs) (i + 8) ≡ bit_at bits bs i
  bit_at-high b bs i =
      let p : (i + 8) / 8 ≡ suc (i / 8) = omega arith in
      let q : (i + 8) % 8 ≡ i % 8 = omega arith in rw (p, q)

  -- `count_bits` is the number of set bits.
  sum_len-count :
      IsBitmap8 bits
      → (bitmap : List B)
      → sum_len bits bitmap ≡ count_below (length bitmap * 8) (bit_at bits bitmap)
  unfolding sum_len
  sum_len-count laws [] = refl
  sum_len-count laws (b ∷ bs) =
      laws.len_lem b ⊕ sum_len-count laws bs
      ∙ sym (
          count_below-add (length bs * 8) 8 (suc (length bs) * 8) (bit_at bits (b ∷ bs))
            (omega arith)
          ∙ (count_below-congr 8 _ _ (bit_at-low b bs)
              ⊕ count_below-congr (length bs * 8) _ _ (λ i hi. bit_at-high b bs i)))
    where
      infixl 40 ◌⊕◌
      ◌⊕◌ : {x y z w : ℕ} → x ≡ y → z ≡ w → x + z ≡ y + w
      p ⊕ q = omega arith

  -- `count_bits` is the number of set bits of its bitmap.
  count_bits-count :
      IsBitmap8 bits
      → (ty : BitmapType) (m : BitmapManager B)
      → count_bits bits ty m ≡ count_below (length (bitmap_of ty m) * 8) (manager_bit bits ty m)
  unfolding count_bits
  count_bits-count laws ty m = sum_len-count laws (bitmap_of ty m)

  -- The same for a bitmap of `n` bits, and that it is at most `n`.
  count_bits-full :
      IsBitmap8 bits
      → (ty : BitmapType) (m : BitmapManager B) (n : ℕ) → length (bitmap_of ty m) * 8 ≡ n
      → (count_bits bits ty m ≡ count_below n (manager_bit bits ty m)) × (count_bits bits ty m ≤ n)
  count_bits-full laws ty m n h =
      let e = count_bits-count laws ty m in
      let e' : count_bits bits ty m ≡ count_below n (manager_bit bits ty m) = rw h at e in
      (e', omega (arith, e', count_below-bound n (manager_bit bits ty m)))

  -- `count_inodes` gives the number of set bits of the inode bitmap and what is left of the largest number of
  -- inodes, `count_data_blocks` that of the data bitmap and what is left of the largest number of
  -- blocks; for bitmaps of that many bits, the two numbers of a pair add up to it.
  pub count_inodes-count_data_blocks :
      IsBitmap8 bits
      → (m : BitmapManager B) → length m.inodes * 8 ≡ inode_max_num
      → length m.datas * 8 ≡ data_block_max_num
      → ((count_inodes bits m).0 ≡ count_below inode_max_num (manager_bit bits BitmapType.inode m))
        × ((count_inodes bits m).0 + (count_inodes bits m).1 ≡ inode_max_num)
        × ((count_data_blocks bits m).0
            ≡ count_below data_block_max_num (manager_bit bits BitmapType.data_block m))
        × ((count_data_blocks bits m).0 + (count_data_blocks bits m).1 ≡ data_block_max_num)
  unfolding count_inodes count_data_blocks
  count_inodes-count_data_blocks laws m hi hd =
      let a = count_bits-full laws BitmapType.inode m inode_max_num hi in
      let b = count_bits-full laws BitmapType.data_block m data_block_max_num hd in
      (a.0, omega (arith, a.1), b.0, omega (arith, b.1))

  count_bits-Writes :
      IsBitmap8 bits
      → (ty : BitmapType) (m m' : BitmapManager B) (id : ℕ) (v : Bool)
      → id < length (bitmap_of ty m) * 8
      → Writes bits ty m id v m'
      → count_bits bits ty m' + bit_value (manager_bit bits ty m id)
        ≡ count_bits bits ty m + bit_value v
  count_bits-Writes laws ty m m' id v h w =
      rw (count_bits-count laws ty m, count_bits-count laws ty m', w.length_lem)
        (count_below-write (length (bitmap_of ty m) * 8) id (manager_bit bits ty m)
          (manager_bit bits ty m') v h (λ j hj. w.bits_lem j))

  count_bits-other :
      (ty : BitmapType) (m m' : BitmapManager B)
      → bitmap_of (other ty) m' ≡ bitmap_of (other ty) m
      → count_bits bits (other ty) m' ≡ count_bits bits (other ty) m
  unfolding count_bits
  count_bits-other ty m m' e = ap (sum_len bits) e

  -- On a ready manager a successful `alloc_bit` raises `count_bits` of its bitmap by one, and leaves
  -- that of the other bitmap.
  pub count_bits-alloc_bit_in :
      IsBitmap8 bits
      → (ty : BitmapType) (m : BitmapManager B) (id : ℕ) (m' : BitmapManager B) → IsReady ty m
      → alloc_bit_in bits ty m ≡ (ok id, m')
      → (count_bits bits ty m' ≡ count_bits bits ty m + 1)
        × (count_bits bits (other ty) m' ≡ count_bits bits (other ty) m)
  count_bits-alloc_bit_in laws ty m id m' r e =
      let taken : Allocs bits ty m (ok id, m') =
        subst (Allocs bits ty m) e (alloc_bit_in-Allocs bits laws ty m r) in
      let c = count_bits-Writes laws ty m m' id true taken.1 taken.2 in
      (ground (arith, c, taken.0), count_bits-other ty m m' (taken.2).other_lem)

  -- On a ready manager and a bit inside the bitmap, `dealloc_bit` lowers `count_bits` of its bitmap
  -- by one where it returns true, keeps it where it returns false, and leaves that of the other
  -- bitmap.
  pub count_bits-dealloc_bit_in :
      IsBitmap8 bits
      → (ty : BitmapType) (m : BitmapManager B) (id : ℕ) (old : Bool) (m' : BitmapManager B)
      → IsReady ty m
      → id < length (bitmap_of ty m) * 8
      → dealloc_bit_in bits ty id m ≡ (ok old, m')
      → (count_bits bits ty m' + bit_value old ≡ count_bits bits ty m)
        × (count_bits bits (other ty) m' ≡ count_bits bits (other ty) m)
  count_bits-dealloc_bit_in laws ty m id old m' r h e =
      let (o, w) = dealloc_bit_in-Writes bits laws ty m id r h in
      let w' : Writes bits ty m id false m' = subst (λ p. Writes bits ty m id false p.1) e w in
      let c = count_bits-Writes laws ty m m' id false h w' in
      let o' : ok (manager_bit bits ty m id) ≡ ok old = sym o ∙ ap (λ p. p.0) e in
      let same : manager_bit bits ty m id ≡ old = cc o' in
      (rw (← same) (ground (arith, c)), count_bits-other ty m m' w'.other_lem)
