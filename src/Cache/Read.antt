-- ===== src/Cache/Read.antt =====
-- Reading through the cache of simdisk/src/block.rs gives the blocks of the store.
use simple_fs_rust.Base.{
  ℕ, ◌≡◌, ◌≢◌, ◌∙◌, refl, ap, sym, List, [], ◌∷◌, Option, none, some, arith, inl, inr, Bool-cases,
  ==_iff, ==_self, Bytes, ltb, Option-cases, ◌⊎◌,
}
use simple_fs_rust.State.{World, Disk, Error, Outcome, ok, err}
use simple_fs_rust.Cache.{
  BlockCache, lookup, insert, fresh_block, read_file, read_blocks_loop, read_blocks_to_cache,
  with_cache,
}
use simple_fs_rust.Cache.View.{
  disk_read, view, IsCoherent, lookup-insert, insert-IsCoherent, view-insert,
}

abbrev pub All {ℓ κ} : {A : Type ℓ} → (A → Type κ) → List A → Type κ
All P [] = Unit
All P (x ∷ xs) = P x × All P xs

pub All-map {ℓ κ μ} :
    {A : Type ℓ} {P : A → Type κ} {Q : A → Type μ} (f : (a : A) → P a → Q a) (xs : List A)
    → All P xs
    → All Q xs
All-map f [] h = tt
All-map f (x ∷ xs) h = (f x h.0, All-map f xs h.1)

-- What reading blocks into the cache keeps: the invariant, the store, and the blocks cached before.
pub record Keeps (disk : Option Disk) (c c' : BlockCache) : Type 0 where
  pub coherent : IsCoherent c' disk
  pub same_view : (j : ℕ) → view c' disk j ≡ view c disk j
  pub still_cached : (j : ℕ) → lookup j c ≢ none → lookup j c' ≢ none

pub Keeps-refl : (disk : Option Disk) (c : BlockCache) → IsCoherent c disk → Keeps disk c c
Keeps-refl disk c h = record { coherent = h; same_view = λ j. refl; still_cached = λ j p. p }

pub Keeps-trans :
    (disk : Option Disk) (c d e : BlockCache) → Keeps disk c d → Keeps disk d e → Keeps disk c e
Keeps-trans disk c d e p q = record {
  coherent = q.coherent;
  same_view = λ j. q.same_view j ∙ p.same_view j;
  still_cached = λ j h. q.still_cached j (p.still_cached j h);
}

pub read_file_lem :
    (id : ℕ) (disk : Option Disk)
    → ((bs : Bytes) × (disk_read id disk ≡ some bs) × (read_file id disk ≡ ok bs))
      ⊎ ((disk_read id disk ≡ none) × ((e : Error) × (read_file id disk ≡ err e)))
read_file_lem id none = inr (refl, (Error.fs_file_missing, refl))
read_file_lem id (some d) = elim (Bool-cases (ltb id d.len)) [
  | inl inside ↦ rw inside (inl (d.blocks id, refl, refl))
  | inr outside ↦ rw outside (inr (refl, (Error.cannot_read_buffer, refl)))
]

pub fresh-Keeps :
    (disk : Option Disk) (c : BlockCache) (id : ℕ) (bs : Bytes)
    → IsCoherent c disk
    → lookup id c ≡ none
    → disk_read id disk ≡ some bs
    → Keeps disk c (insert id (fresh_block id bs) c)
fresh-Keeps disk c id bs h missing found = record {
  coherent = insert-IsCoherent c disk h id (fresh_block id bs) (record {
    number = refl;
    size = h.block_sizes id bs found;
    on_disk = λ p. ground arith;
    clean = λ _. found;
  });
  same_view = λ j. ground (
    arith,
    view-insert c disk id j (fresh_block id bs),
    ==_iff id j,
    ap (λ (k : ℕ). lookup k c) {x = id} {y = j},
    ap (λ (k : ℕ). disk_read k disk) {x = id} {y = j},
  );
  still_cached = λ j p q. ground (arith, lookup-insert id j (fresh_block id bs) c);
}

-- All the blocks were read, and what reading keeps.
pub record Loaded (disk : Option Disk) (c : BlockCache) (ids : List ℕ)
    (p : Outcome (Unit {0}) × BlockCache) : Type 0 where
  pub done : p.0 ≡ ok tt
  pub keeps : Keeps disk c p.1
  pub cached : All (λ id. lookup id p.1 ≢ none) ids

-- The loop of `read_blocks_to_cache`, where every block is in the store.
pub read_blocks_loop-Loaded :
    (ids : List ℕ) (disk : Option Disk) (c : BlockCache)
    → IsCoherent c disk
    → All (λ id. view c disk id ≢ none) ids
    → Loaded disk c ids (read_blocks_loop ids disk c)
unfolding read_blocks_loop
read_blocks_loop-Loaded [] disk c h a = record {
  done = refl;
  keeps = Keeps-refl disk c h;
  cached = tt;
}
read_blocks_loop-Loaded (id ∷ ids) disk c h a = elim (Option-cases (lookup id c)) [
  | inr (b, e) ↦
      rw (e, read_blocks_loop)
        (let l = read_blocks_loop-Loaded ids disk c h a.1 in
          record {
            done = l.done;
            keeps = l.keeps;
            cached = (l.keeps.still_cached id (λ p. ground arith), l.cached);
          })
  | inl e ↦ elim (read_file_lem id disk) [
    | inl (bs, found, got) ↦
        let c' = insert id (fresh_block id bs) c in
        let k = fresh-Keeps disk c id bs h e found in
        rw (e, got, read_blocks_loop)
          (let l =
              read_blocks_loop-Loaded ids disk c' k.coherent
                (All-map (λ j p q. p (sym (k.same_view j) ∙ q)) ids a.1) in
            record {
              done = l.done;
              keeps = Keeps-trans disk c c' _ k l.keeps;
              cached = (
                l.keeps.still_cached id
                    (λ p. ground (arith, lookup-insert id id (fresh_block id bs) c, ==_self id)),
                l.cached,
              );
            })
    | inr (missing, _) ↦ absurd (a.0 (rw (e, missing)))
  ]
]

module _ {B : Type 0} where
  -- `read_blocks_to_cache`, where every block is in the store.
  pub read_blocks_to_cache-Loaded :
      (ids : List ℕ) (w : World B)
      → IsCoherent w.manager.block_cache w.disk
      → All (λ id. view w.manager.block_cache w.disk id ≢ none) ids
      → (c : BlockCache) × (read_blocks_to_cache ids w ≡ (ok tt, with_cache w c))
        × Keeps w.disk w.manager.block_cache c
        × All (λ id. lookup id c ≢ none) ids
  unfolding read_blocks_to_cache
  read_blocks_to_cache-Loaded ids w h a =
      let l = read_blocks_loop-Loaded ids w.disk w.manager.block_cache h a in
      let p = read_blocks_loop ids w.disk w.manager.block_cache in
      (p.1, ap (λ (r : Outcome (Unit {0})). (r, with_cache w p.1)) l.done, l.keeps, l.cached)
