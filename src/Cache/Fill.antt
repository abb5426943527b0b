-- ===== src/Cache/Fill.antt =====
-- `write_file_content_to_blocks` of simdisk/src/block.rs, against the store.
use simple_fs_rust.Base.{
  le→leb, length-splice, inr, inl, ◌∙◌, Option-cases, arith, none, ◌≢◌, leb, ◌≤◌, some, length,
  splice, ◌≡◌, Bytes, Option, List, ℕ, refl, [], ◌∷◌, true,
}
use simple_fs_rust.State.{and_then, Block, ok, World}
use simple_fs_rust.Cache.{
  insert, with_cache, lookup, write_contents_loop, write_file_content_to_blocks,
}
use simple_fs_rust.Cache.Buffers.{store, or_empty, Coherent}
use simple_fs_rust.Cache.Read.{All-map, read_blocks_to_cache-Loaded, All}
use simple_fs_rust.Cache.View.{view}
use simple_fs_rust.Cache.Write.{dirty-Puts, get_block_mut_cached, Writes, dirty, update}
use simple_fs_rust.Constants.{block_size}

-- The store after each content is written at the start of its block, one after another.
abbrev pub filled : (ℕ → Option Bytes) → List Bytes → List ℕ → ℕ → Option Bytes
filled v contents [] = v
filled v [] (id ∷ ids) = v
filled v (content ∷ contents) (id ∷ ids) =
    filled (update v id (splice 0 content (or_empty (v id)))) contents ids

filled_same :
    (v v' : ℕ → Option Bytes) (contents : List Bytes) (ids : List ℕ)
    → ((j : ℕ) → v j ≡ v' j)
    → (j : ℕ) → filled v contents ids j ≡ filled v' contents ids j
filled_same v v' contents [] h = h
filled_same v v' [] (id ∷ ids) h = h
filled_same v v' (content ∷ contents) (id ∷ ids) h =
    filled_same (update v id (splice 0 content (or_empty (v id))))
      (update v' id (splice 0 content (or_empty (v' id)))) contents ids (λ j. rw (h j, h id) refl)

module _ {B : Type 0} where
  write_contents_end :
      (contents : List Bytes) (ids : List ℕ) (w : World B)
      → write_contents_loop contents [] ids w ≡ (ok tt, w)
  unfolding write_contents_loop
  write_contents_end contents ids w = refl

  write_contents_step :
      (content : Bytes) (contents : List Bytes) (id : ℕ) (rest ids : List ℕ) (w : World B)
      (b : Block)
      → lookup id w.manager.block_cache ≡ some b
      → leb (length content) block_size ≡ true
      → write_contents_loop (content ∷ contents) (id ∷ rest) ids w
        ≡ write_contents_loop contents rest ids
            (with_cache w (insert id (dirty b (splice 0 content b.bytes)) w.manager.block_cache))
  unfolding write_contents_loop
  write_contents_step content contents id rest ids w b e fits =
      rw (get_block_mut_cached id ids w b e, and_then) (rw (fits, and_then) refl)

  write_contents_loop-Writes :
      (contents : List Bytes) (rest ids : List ℕ) (w : World B)
      → Coherent w
      → length contents ≡ length rest
      → All (λ c. length c ≤ block_size) contents
      → All (λ id. lookup id w.manager.block_cache ≢ none) rest
      → Writes w (filled (store w) contents rest) (write_contents_loop contents rest ids w)
  write_contents_loop-Writes contents [] ids w h n sizes cached =
      (w.manager.block_cache, write_contents_end contents ids w, h, λ j. refl)
  write_contents_loop-Writes [] (id ∷ rest) ids w h n sizes cached = absurd (omega arith)
  write_contents_loop-Writes (content ∷ contents) (id ∷ rest) ids w h n sizes cached =
      elim (Option-cases (lookup id w.manager.block_cache)) [
        | inl q ↦ absurd (cached.0 q)
        | inr (b, q) ↦
            let new_bytes = splice 0 content b.bytes in
            let old : store w id ≡ some b.bytes = rw q refl in
            let size : length new_bytes ≡ block_size =
              length-splice 0 content b.bytes (omega (arith, (h.entries id b q).size, sizes.0))
              ∙ (h.entries id b q).size in
            let p = dirty-Puts w.disk w.manager.block_cache id b new_bytes h q size in
            let w' = with_cache w (insert id (dirty b new_bytes) w.manager.block_cache) in
            let (c, e, coherent, new) =
              write_contents_loop-Writes contents rest ids w' p.coherent (omega arith) sizes.1
                (All-map (λ j r. p.still_cached j r) rest cached.1) in
            (
              c,
              write_contents_step content contents id rest ids w b q (le→leb _ _ sizes.0) ∙ e,
              coherent,
              λ j.
                  new j
                  ∙ filled_same (store w')
                      (update (store w) id (splice 0 content (or_empty (store w id)))) contents rest
                      (λ i. p.new_view i ∙ rw old refl) j,
            )
      ]

  -- In a coherent world with the blocks in the store, for as many contents as blocks, each no longer
  -- than a block, `write_file_content_to_blocks` succeeds; the store is the one in which each
  -- content was written at the start of its block, and nothing but the cache changes.
  pub write_file_content_to_blocks-Writes :
      (contents : List Bytes) (ids : List ℕ) (w : World B)
      → Coherent w
      → length contents ≡ length ids
      → All (λ c. length c ≤ block_size) contents
      → All (λ id. store w id ≢ none) ids
      → Writes w (filled (store w) contents ids) (write_file_content_to_blocks contents ids w)
  unfolding write_file_content_to_blocks
  write_file_content_to_blocks-Writes contents ids w h n sizes there =
      let (c, e, k, cached) = read_blocks_to_cache-Loaded ids w h there in
      let (d, e', coherent, new) =
        write_contents_loop-Writes contents ids ids (with_cache w c) k.coherent n sizes cached in
      (
        d,
        rw (e, and_then) e',
        coherent,
        λ j. new j ∙ filled_same (view c w.disk) (store w) contents ids k.same_view j,
      )
