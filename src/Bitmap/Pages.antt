-- ===== src/Bitmap/Pages.antt =====
-- The bitmaps of simdisk/src/bitmap.rs as the bytes of the blocks that hold them.
use simple_fs_rust.Base.{
  ℕ, zero, suc, ◌+◌, ◌*◌, ◌-◌, ◌≤◌, ◌≡◌, ◌∙◌, refl, ap, sym, List, [], ◌∷◌, ◌++◌, map, take, drop,
  length, length-take, length-drop, length-map, arith, Bytes,
}
use simple_fs_rust.Bitmap.{concat, range_from}
use simple_fs_rust.Constants.{block_size}
use simple_fs_rust.State.{BitOps, IsBitmap8}

module _ {ℓ} {A : Type ℓ} where
  take_sum : (n a b : ℕ) (xs : List A) → n ≡ a + b → take n xs ≡ take a xs ++ take b (drop a xs)
  take_sum n zero b xs e = let h : n ≡ b = omega arith in rw h refl
  take_sum zero (suc a) b xs e = absurd (omega arith)
  take_sum (suc n) (suc a) zero [] e = refl
  take_sum (suc n) (suc a) (suc b) [] e = refl
  take_sum (suc n) (suc a) b (x ∷ xs) e = ap (λ l. x ∷ l) (take_sum n a b xs (omega arith))

  drop_sum : (n a b : ℕ) (xs : List A) → n ≡ a + b → drop b (drop a xs) ≡ drop n xs
  drop_sum n zero b xs e = let h : n ≡ b = omega arith in rw h refl
  drop_sum zero (suc a) b xs e = absurd (omega arith)
  drop_sum (suc n) (suc a) zero [] e = refl
  drop_sum (suc n) (suc a) (suc b) [] e = refl
  drop_sum (suc n) (suc a) b (x ∷ xs) e = drop_sum n a b xs (omega arith)

map-append {ℓ κ} :
    {A : Type ℓ} {B : Type κ} (f : A → B) (xs ys : List A) → map f (xs ++ ys) ≡ map f xs ++ map f ys
map-append f [] ys = refl
map-append f (x ∷ xs) ys = ap (λ l. f x ∷ l) (map-append f xs ys)

module _ {B : Type 0} (bits : BitOps B) where
  -- The bytes of block `k` of a bitmap.
  abbrev pub page : List B → ℕ → Bytes
  page bitmap k = map bits.into_value (take block_size (drop (k * block_size) bitmap))

  pub length-page :
      (bitmap : List B) (k : ℕ)
      → (k + 1) * block_size ≤ length bitmap
      → length (page bitmap k) ≡ block_size
  length-page bitmap k h =
      length-map (take block_size (drop (k * block_size) bitmap)) bits.into_value
      ∙ omega (
        arith,
        length-take block_size (drop (k * block_size) bitmap),
        length-drop (k * block_size) bitmap,
      )

  -- The blocks of a bitmap, one after another, are its bytes.
  pub concat-page :
      (n k a start : ℕ) (bitmap : List B)
      → a ≡ start + k
      → concat (map (λ id. page bitmap (id - start)) (range_from a n))
        ≡ map bits.into_value (take (n * block_size) (drop (k * block_size) bitmap))
  concat-page zero k a start bitmap e = refl
  concat-page (suc n) k a start bitmap e =
      let here : a - start ≡ k = omega arith in
      let rest = drop (k * block_size) bitmap in
      let next : drop block_size rest ≡ drop (suc k * block_size) bitmap =
        drop_sum (suc k * block_size) (k * block_size) block_size bitmap (omega arith) in
      let parts : take (suc n * block_size) rest
          ≡ take block_size rest ++ take (n * block_size) (drop block_size rest) =
        take_sum (suc n * block_size) block_size (n * block_size) rest (omega arith) in
      ap
        (λ i. page bitmap i ++ concat (map (λ id. page bitmap (id - start)) (range_from (suc a) n)))
        here
      ∙ ap (λ l. page bitmap k ++ l) (concat-page n (suc k) (suc a) start bitmap (omega arith))
      ∙ sym (
          ap (map bits.into_value) parts
          ∙ map-append bits.into_value (take block_size rest)
              (take (n * block_size) (drop block_size rest))
          ∙ ap (λ l. page bitmap k ++ map bits.into_value (take (n * block_size) l)) next)

  pub from_page :
      IsBitmap8 bits → (bitmap : List B) → map bits.from_value (map bits.into_value bitmap) ≡ bitmap
  from_page laws [] = refl
  from_page laws (b ∷ bs) = rw (laws.from_value-into_value b, from_page laws bs) refl
