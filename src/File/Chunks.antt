-- ===== src/File/Chunks.antt =====
-- simdisk/src/file.rs: `split_inputs` cuts the content of a file into blocks.
use simple_fs_rust.Base.{
  some, lt→ltb, true, ◌/◌, ◌==◌, if◌then◌else◌, ◌+◌, inr, inl, Bool-cases, length-take,
  take-append-drop, ◌∙◌, length-drop, take, ap, drop, arith, suc, ◌≡◌, ◌<◌, ◌≤◌, length, ◌++◌,
  Bytes, ℕ, List, refl, [], ◌∷◌, zero,
}
use simple_fs_rust.State.{panic, ok}
use simple_fs_rust.Cache.Read.{All}
use simple_fs_rust.Constants.{block_size}
use simple_fs_rust.File.{following, is_utf8_from, is_utf8, all_utf8, split_inputs, chunks}
use simple_fs_rust.Inode.{block_nums}

abbrev pub joined : List Bytes → Bytes
joined [] = []
joined (c ∷ cs) = c ++ joined cs

chunks-joined : (fuel : ℕ) (bs : Bytes) → length bs ≤ fuel → joined (chunks fuel bs) ≡ bs
unfolding chunks
chunks-joined zero [] h = refl
chunks-joined zero (b ∷ bs) h = absurd (omega arith)
chunks-joined (suc fuel) [] h = refl
chunks-joined (suc fuel) (b ∷ bs) h =
    ap (λ r. take block_size (b ∷ bs) ++ r)
      (chunks-joined fuel (drop block_size (b ∷ bs))
        (omega (arith, length-drop block_size (b ∷ bs))))
    ∙ take-append-drop block_size (b ∷ bs)

chunks-sizes :
    (fuel : ℕ) (bs : Bytes) → All (λ c. (0 < length c) × (length c ≤ block_size)) (chunks fuel bs)
unfolding chunks
chunks-sizes zero bs = tt
chunks-sizes (suc fuel) [] = tt
chunks-sizes (suc fuel) (b ∷ bs) = (
  (omega (arith, length-take block_size (b ∷ bs)), omega (arith, length-take block_size (b ∷ bs))),
  chunks-sizes fuel (drop block_size (b ∷ bs)),
)

chunks-count :
    (fuel : ℕ) (bs : Bytes)
    → length bs ≤ fuel
    → length (chunks fuel bs) ≡ (length bs + 1023) / block_size
unfolding chunks
chunks-count zero [] h = omega arith
chunks-count zero (b ∷ bs) h = absurd (omega arith)
chunks-count (suc fuel) [] h = omega arith
chunks-count (suc fuel) (b ∷ bs) h =
    let len = length-drop block_size (b ∷ bs) in
    omega (arith, len, chunks-count fuel (drop block_size (b ∷ bs)) (omega (arith, len)))

block_nums_pos : (n : ℕ) → 0 < n → block_nums n ≡ (n + 1023) / block_size
unfolding block_nums
block_nums_pos n h = ground arith

-- What the blocks of a file are written with.
pub record IsSplit (inputs : Bytes) (pieces : List Bytes) : Type 0 where
  pub whole : joined pieces ≡ inputs
  pub sizes : All (λ c. (0 < length c) × (length c ≤ block_size)) pieces
  pub count : length pieces ≡ (if length inputs == 0 then 0 else block_nums (length inputs))

is_utf8_ascii : (bs : Bytes) → All (λ b. b < 128) bs → is_utf8 bs ≡ true
unfolding is_utf8 is_utf8_from
is_utf8_ascii [] h = refl
is_utf8_ascii (b ∷ bs) h =
    let first : following b ≡ some 0 = rw (lt→ltb b 128 h.0) refl in
    rw (first, is_utf8, is_utf8_from) (is_utf8_ascii bs h.1)

All-take : (n : ℕ) (bs : Bytes) → All (λ b. b < 128) bs → All (λ b. b < 128) (take n bs)
All-take zero bs h = tt
All-take (suc n) [] h = tt
All-take (suc n) (b ∷ bs) h = (h.0, All-take n bs h.1)

All-drop : (n : ℕ) (bs : Bytes) → All (λ b. b < 128) bs → All (λ b. b < 128) (drop n bs)
All-drop zero bs h = h
All-drop (suc n) [] h = tt
All-drop (suc n) (b ∷ bs) h = All-drop n bs h.1

all_utf8_ascii : (fuel : ℕ) (bs : Bytes) → All (λ b. b < 128) bs → all_utf8 (chunks fuel bs) ≡ true
unfolding chunks
all_utf8_ascii zero bs h = refl
all_utf8_ascii (suc fuel) [] h = refl
all_utf8_ascii (suc fuel) (b ∷ bs) h =
    rw (is_utf8_ascii (take block_size (b ∷ bs)) (All-take block_size (b ∷ bs) h))
      (all_utf8_ascii fuel (drop block_size (b ∷ bs)) (All-drop block_size (b ∷ bs) h))

-- Where `split_inputs` returns, its pieces joined are the content; each has between one byte and
-- a block's size, and there are as many as `alloc_data_blocks` takes blocks for the content, or
-- none where the content is empty.
pub split_inputs-IsSplit :
    (inputs : Bytes) (pieces : List Bytes) → split_inputs inputs ≡ ok pieces → IsSplit inputs pieces
unfolding split_inputs
split_inputs-IsSplit inputs pieces h =
    elim (Bool-cases (all_utf8 (chunks (length inputs) inputs))) [
      | inl good ↦
          let e : ok (chunks (length inputs) inputs) ≡ ok pieces = rw good at h in
          let p : chunks (length inputs) inputs ≡ pieces = cc e in
          rw (← p) (record {
            whole = chunks-joined (length inputs) inputs (omega arith);
            sizes = chunks-sizes (length inputs) inputs;
            count = ground (
              arith,
              chunks-count (length inputs) inputs (omega arith),
              block_nums_pos (length inputs),
            );
          })
      | inr bad ↦ let e : panic ≡ ok pieces = rw bad at h in cc e
    ]

-- For ASCII content `split_inputs` returns, with pieces that, joined, are the content; each has
-- between one byte and a block's size, and there are as many as `alloc_data_blocks` takes blocks
-- for the content, or none where the content is empty.
pub split_inputs_ascii :
    (inputs : Bytes)
    → All (λ b. b < 128) inputs
    → (pieces : List Bytes) × (split_inputs inputs ≡ ok pieces) × IsSplit inputs pieces
unfolding split_inputs
split_inputs_ascii inputs h =
    let e : split_inputs inputs ≡ ok (chunks (length inputs) inputs) =
      rw (all_utf8_ascii (length inputs) inputs h, split_inputs) refl in
    (
      chunks (length inputs) inputs,
      e,
      split_inputs-IsSplit inputs (chunks (length inputs) inputs) e,
    )
