-- ===== src/Bitmap/Persist.antt =====
-- `cache_to_block` and `read` of simdisk/src/bitmap.rs, against the store.
use simple_fs_rust.Base.{
  Bool-cases, ℕ, suc, ◌+◌, ◌*◌, ◌-◌, ◌≤◌, ◌≡◌, ◌∙◌, refl, ap, List, [], ◌∷◌, none, some, Option,
  Bool, true, false, ◌==◌, ◌||◌, if◌then◌else◌, leb, ◌≢◌, inl, inr, Option-cases, length, arith,
  Bytes, zero, ◌<◌, le→leb,
}
use simple_fs_rust.State.{Block, External, Outcome, World, ok, and_then}
use simple_fs_rust.Bitmap.{range_from, write_bitmaps_loop}
use simple_fs_rust.Bitmap.Pages.{page, length-page}
use simple_fs_rust.Cache.{BlockCache, insert, lookup, with_cache}
use simple_fs_rust.Cache.Buffers.{store, Coherent}
use simple_fs_rust.Cache.Clear.{among}
use simple_fs_rust.Cache.Read.{All, All-map}
use simple_fs_rust.Cache.View.{view, IsCoherent}
use simple_fs_rust.Cache.Write.{dirty, dirty-Puts, get_block_mut_cached}
use simple_fs_rust.Constants.{block_size}

pub All-range_from :
    (P : ℕ → Type 0) (a n : ℕ) → ((i : ℕ) → a ≤ i → i < a + n → P i) → All P (range_from a n)
All-range_from P a zero h = tt
All-range_from P a (suc n) h = (
  h a (omega arith) (omega arith),
  All-range_from P (suc a) n (λ i low high. h i (omega arith) (omega arith)),
)

pub among_inside : (j a n : ℕ) → a ≤ j → j < a + n → among j (range_from a n) ≡ true
among_inside j a zero h k = absurd (omega arith)
among_inside j a (suc n) h k = elim (Bool-cases (a == j)) [
  | inl e ↦ rw e refl
  | inr e ↦ rw e (among_inside j (suc a) n (ground arith) (omega arith))
]

pub among_before : (j a n : ℕ) → j < a → among j (range_from a n) ≡ false
among_before j a zero h = refl
among_before j a (suc n) h =
    let e : (a == j) ≡ false = ground arith in rw e (among_before j (suc a) n (omega arith))

-- The store with the blocks `ids` of the bitmap that starts at block `start`.
abbrev pub paged :
    {B : Type 0} → External B → (ℕ → Option Bytes) → ℕ → List B → List ℕ → ℕ → Option Bytes
paged ext v start bitmap ids j =
    if among j ids then some (page ext.bits bitmap (j - start)) else v j

paged_step :
    (z z' o : Option Bytes) (a b : Bool)
    → (b ≡ true → z' ≡ z)
    → (if a then z else (if b then z' else o)) ≡ (if b || a then z else o)
paged_step z z' o true true h = refl
paged_step z z' o true false h = refl
paged_step z z' o false true h = h refl
paged_step z z' o false false h = refl

module _ {B : Type 0} (ext : External B) where
  -- The call succeeds and changes nothing but the cache, from which it takes no block; the store is then `v`.
  abbrev pub Pages : World B → (ℕ → Option Bytes) → Outcome (Unit {0}) × World B → Type 0
  Pages w v p =
      (c : BlockCache) × (p ≡ (ok tt, with_cache w c))
      × IsCoherent c w.disk
      × ((j : ℕ) → view c w.disk j ≡ v j)
      × ((j : ℕ) → lookup j w.manager.block_cache ≢ none → lookup j c ≢ none)

  write_end :
      (ids : List ℕ) (start : ℕ) (bitmap : List B) (w : World B)
      → write_bitmaps_loop ext [] ids start bitmap w ≡ (ok tt, w)
  unfolding write_bitmaps_loop
  write_end ids start bitmap w = refl

  write_step :
      (id : ℕ) (rest ids : List ℕ) (start : ℕ) (bitmap : List B) (w : World B) (b : Block)
      → lookup id w.manager.block_cache ≡ some b
      → leb ((id - start + 1) * block_size) (length bitmap) ≡ true
      → write_bitmaps_loop ext (id ∷ rest) ids start bitmap w
        ≡ write_bitmaps_loop ext rest ids start bitmap (
            with_cache w
              (insert id (dirty b (page ext.bits bitmap (id - start))) w.manager.block_cache))
  unfolding write_bitmaps_loop
  write_step id rest ids start bitmap w b e fits =
      rw (fits, and_then) (rw (get_block_mut_cached id ids w b e, and_then) refl)

  pub write_bitmaps_loop-Pages :
      (rest ids : List ℕ) (start : ℕ) (bitmap : List B) (w : World B)
      → Coherent w
      → All (λ id. (id - start + 1) * block_size ≤ length bitmap) rest
      → All (λ id. lookup id w.manager.block_cache ≢ none) rest
      → Pages w
          (paged ext (store w) start bitmap rest)
          (write_bitmaps_loop ext rest ids start bitmap w)
  write_bitmaps_loop-Pages [] ids start bitmap w h fits cached =
      (w.manager.block_cache, write_end ids start bitmap w, h, λ j. refl, λ j q. q)
  write_bitmaps_loop-Pages (id ∷ rest) ids start bitmap w h fits cached =
      elim (Option-cases (lookup id w.manager.block_cache)) [
        | inl q ↦ absurd (cached.0 q)
        | inr (b, q) ↦
            let bs = page ext.bits bitmap (id - start) in
            let p =
              dirty-Puts w.disk w.manager.block_cache id b bs h q
                (length-page ext.bits bitmap (id - start) fits.0) in
            let w' = with_cache w (insert id (dirty b bs) w.manager.block_cache) in
            let (c, e, coherent, new, still) =
              write_bitmaps_loop-Pages rest ids start bitmap w' p.coherent fits.1
                (All-map (λ j r. p.still_cached j r) rest cached.1) in
            (
              c,
              write_step id rest ids start bitmap w b q (le→leb _ _ fits.0) ∙ e,
              coherent,
              λ j.
                  new j
                  ∙ ap (λ o. if among j rest then some (page ext.bits bitmap (j - start)) else o)
                      (p.new_view j)
                  ∙ paged_step (some (page ext.bits bitmap (j - start))) (some bs) (store w j)
                      (among j rest) (id == j)
                      (λ same.
                        let i : id ≡ j = ground (arith, same) in
                        ap (λ k. some (page ext.bits bitmap (k - start))) i),
              λ j r. still j (p.still_cached j r),
            )
      ]
