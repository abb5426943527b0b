-- ===== src/Cache/Clear.antt =====
-- `clear_blocks` of simdisk/src/block.rs, against the store.
use simple_fs_rust.Base.{
  ap, ◌∙◌, length-replicate, inr, inl, Option-cases, none, ◌||◌, ◌≡◌, ◌≢◌, some, ◌==◌, false,
  if◌then◌else◌, Bool, Option, replicate, Bytes, List, ℕ, refl, [], ◌∷◌, true,
}
use simple_fs_rust.State.{ok, and_then, Block, World}
use simple_fs_rust.Cache.{clear_blocks, insert, with_cache, lookup, clear_loop}
use simple_fs_rust.Cache.Buffers.{store, Coherent}
use simple_fs_rust.Cache.Read.{read_blocks_to_cache-Loaded, All-map, All}
use simple_fs_rust.Cache.Write.{dirty-Puts, get_block_mut_cached, dirty, Writes}
use simple_fs_rust.Constants.{block_size}

abbrev pub zero_block : Bytes
zero_block = replicate block_size 0

abbrev pub among : ℕ → List ℕ → Bool
among j [] = false
among j (id ∷ ids) = (id == j) || among j ids

-- The store with some blocks zero.
abbrev pub cleared : (ℕ → Option Bytes) → List ℕ → ℕ → Option Bytes
cleared v ids j = if among j ids then some zero_block else v j

cleared_step :
    (z o o' : Option Bytes) (a b : Bool)
    → o' ≡ (if b then z else o)
    → (if a then z else o') ≡ (if b || a then z else o)
cleared_step z o o' true true h = refl
cleared_step z o o' true false h = refl
cleared_step z o o' false true h = h
cleared_step z o o' false false h = h

module _ {B : Type 0} where
  clear_loop_end : (ids : List ℕ) (w : World B) → clear_loop [] ids w ≡ (ok tt, w)
  unfolding clear_loop
  clear_loop_end ids w = refl

  clear_loop_step :
      (id : ℕ) (rest ids : List ℕ) (w : World B) (b : Block)
      → lookup id w.manager.block_cache ≡ some b
      → clear_loop (id ∷ rest) ids w
        ≡ clear_loop rest ids (with_cache w (insert id (dirty b zero_block) w.manager.block_cache))
  unfolding clear_loop
  clear_loop_step id rest ids w b e = rw (get_block_mut_cached id ids w b e, and_then) refl

  clear_loop-Writes :
      (rest ids : List ℕ) (w : World B)
      → Coherent w
      → All (λ id. lookup id w.manager.block_cache ≢ none) rest
      → Writes w (cleared (store w) rest) (clear_loop rest ids w)
  clear_loop-Writes [] ids w h cached = (w.manager.block_cache, clear_loop_end ids w, h, λ j. refl)
  clear_loop-Writes (id ∷ rest) ids w h cached =
      elim (Option-cases (lookup id w.manager.block_cache)) [
        | inl q ↦ absurd (cached.0 q)
        | inr (b, q) ↦
            let p =
              dirty-Puts w.disk w.manager.block_cache id b zero_block h q
                (length-replicate {A = ℕ} block_size 0) in
            let w' = with_cache w (insert id (dirty b zero_block) w.manager.block_cache) in
            let (c, e, coherent, new) =
              clear_loop-Writes rest ids w' p.coherent
                (All-map (λ j r. p.still_cached j r) rest cached.1) in
            (
              c,
              clear_loop_step id rest ids w b q ∙ e,
              coherent,
              λ j.
                  new j
                  ∙ cleared_step (some zero_block) (store w j) (store w' j) (among j rest) (id == j)
                      (p.new_view j),
            )
      ]

  -- In a coherent world with the blocks in the store `clear_blocks` succeeds; afterwards these blocks
  -- of the store are 0 in every byte, and the other blocks and everything but the cache are the same.
  pub clear_blocks-Writes :
      (ids : List ℕ) (w : World B)
      → Coherent w
      → All (λ id. store w id ≢ none) ids
      → Writes w (cleared (store w) ids) (clear_blocks ids w)
  unfolding clear_blocks
  clear_blocks-Writes ids w h there =
      let (c, e, k, cached) = read_blocks_to_cache-Loaded ids w h there in
      let (d, e', coherent, new) = clear_loop-Writes ids ids (with_cache w c) k.coherent cached in
      (
        d,
        rw (e, and_then) e',
        coherent,
        λ j. new j ∙ ap (λ o. if among j ids then some zero_block else o) (k.same_view j),
      )
