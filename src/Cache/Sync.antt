-- ===== src/Cache/Sync.antt =====
-- `sync_and_clear_cache` of simdisk/src/block.rs writes the store to the file and forgets the cache.
use simple_fs_rust.Base.{
  true, inl, inr, Bool-cases, false, ◌∙◌, ltb, ◌==◌, ap, if◌then◌else◌, ==_iff, ==_self, none,
  arith, ◌≢◌, some, ◌∷◌, ◌≡◌, Bytes, Option, ℕ, refl, sym, [],
}
use simple_fs_rust.State.{World, ok, Outcome, Disk, Block}
use simple_fs_rust.Cache.{
  with_cache, sync_and_clear_cache, sync_loop, lookup, write_all, BlockCache,
}
use simple_fs_rust.Cache.Buffers.{Coherent, store}
use simple_fs_rust.Cache.View.{view-size, cached_or, view, IsEntry, IsCoherent, disk_read}

-- The file has the blocks of the store.
record Syncs (c : BlockCache) (disk : Option Disk) (p : Outcome (Unit {0}) × Option Disk)
    : Type 0 where
  done : p.0 ≡ ok tt
  written : (j : ℕ) → disk_read j p.1 ≡ view c disk j

tail-IsCoherent :
    (k : ℕ) (b : Block) (c : BlockCache) (disk : Option Disk)
    → IsCoherent ((k, b) ∷ c) disk
    → IsCoherent c disk
tail-IsCoherent k b c disk h = record {
  distinct = h.distinct.1;
  entries = λ id d e.
      h.entries id d
        (ground (arith, ==_iff k id, h.distinct.0, ap (λ (j : ℕ). lookup j c) {x = k} {y = id}));
  block_sizes = h.block_sizes;
}

disk_read-write_all :
    (id j : ℕ) (bs : Bytes) (d : Disk)
    → disk_read id (some d) ≢ none
    → disk_read j (some (write_all id bs d)) ≡ (if id == j then some bs else disk_read j (some d))
disk_read-write_all id j bs d there =
    ground (arith, ==_iff id j, ==_iff j id, ap (λ (k : ℕ). ltb k d.len) {x = id} {y = j})

head-IsEntry :
    (k : ℕ) (b : Block) (c : BlockCache) (disk : Option Disk)
    → IsCoherent ((k, b) ∷ c) disk
    → IsEntry disk k b
head-IsEntry k b c disk h = h.entries k b (rw (==_self k) refl)

other_key :
    (k id : ℕ) (c : BlockCache) (x : Block)
    → lookup k c ≡ none
    → lookup id c ≡ some x
    → (k == id) ≡ false
other_key k id c x e f = elim (Bool-cases (k == id)) [
  | inl p ↦ ground (arith, ap (λ (j : ℕ). lookup j c) ((==_iff k id).0 p))
  | inr p ↦ p
]

same-IsEntry :
    (disk disk' : Option Disk) (id : ℕ) (b : Block)
    → disk_read id disk' ≡ disk_read id disk
    → IsEntry disk id b
    → IsEntry disk' id b
same-IsEntry disk disk' id b e h = record {
  number = h.number;
  size = h.size;
  on_disk = λ p. h.on_disk (sym e ∙ p);
  clean = λ p. e ∙ h.clean p;
}

written-IsCoherent :
    (k : ℕ) (b : Block) (c : BlockCache) (d : Disk)
    → IsCoherent ((k, b) ∷ c) (some d)
    → IsCoherent c (some (write_all k b.bytes d))
written-IsCoherent k b c d h =
    let head = head-IsEntry k b c (some d) h in
    record {
      distinct = h.distinct.1;
      entries = λ id x e.
          same-IsEntry (some d) (some (write_all k b.bytes d)) id x
            (disk_read-write_all k id b.bytes d head.on_disk
              ∙ rw (other_key k id c x h.distinct.0 e) refl)
            ((tail-IsCoherent k b c (some d) h).entries id x e);
      block_sizes = λ id bs e. elim (Bool-cases (k == id)) [
        | inl p ↦
            let r : some b.bytes ≡ some bs =
              sym (disk_read-write_all k id b.bytes d head.on_disk ∙ rw p refl) ∙ e in
            let q : b.bytes ≡ bs = cc r in rw (← q) head.size
        | inr p ↦
            h.block_sizes id bs
              (sym (disk_read-write_all k id b.bytes d head.on_disk ∙ rw p refl) ∙ e)
      ];
    }

clean_view :
    (k : ℕ) (b : Block) (c : BlockCache) (disk : Option Disk)
    → lookup k c ≡ none
    → disk_read k disk ≡ some b.bytes
    → (j : ℕ) → view c disk j ≡ view ((k, b) ∷ c) disk j
clean_view k b c disk missing same j = elim (Bool-cases (k == j)) [
  | inr p ↦ rw p refl
  | inl p ↦ let e : k ≡ j = (==_iff k j).0 p in rw p (rw (← e) (rw missing same))
]

dirty_view :
    (k : ℕ) (b : Block) (c : BlockCache) (d : Disk)
    → lookup k c ≡ none
    → disk_read k (some d) ≢ none
    → (j : ℕ) → view c (some (write_all k b.bytes d)) j ≡ view ((k, b) ∷ c) (some d) j
dirty_view k b c d missing there j = elim (Bool-cases (k == j)) [
  | inr p ↦
      let new : disk_read j (some (write_all k b.bytes d)) ≡ disk_read j (some d) =
        disk_read-write_all k j b.bytes d there ∙ rw p refl in
      rw p (ap (cached_or (lookup j c)) new)
  | inl p ↦
      let e : k ≡ j = (==_iff k j).0 p in
      let gone : lookup j c ≡ none = rw (← e) missing in
      let new : disk_read j (some (write_all k b.bytes d)) ≡ some b.bytes =
        disk_read-write_all k j b.bytes d there ∙ rw p refl in
      rw (gone, p) new
]

sync_loop_clean :
    (k : ℕ) (b : Block) (c : BlockCache) (disk : Option Disk)
    → b.modified ≡ false
    → sync_loop ((k, b) ∷ c) disk ≡ sync_loop c disk
unfolding sync_loop
sync_loop_clean k b c disk e = rw (e, sync_loop) refl

sync_loop_dirty :
    (k : ℕ) (b : Block) (c : BlockCache) (d : Disk)
    → b.modified ≡ true
    → b.block_id ≡ k
    → sync_loop ((k, b) ∷ c) (some d) ≡ sync_loop c (some (write_all k b.bytes d))
unfolding sync_loop
sync_loop_dirty k b c d e number = rw (← number) (rw (e, sync_loop) refl)

sync_loop-Syncs :
    (c : BlockCache) (disk : Option Disk) → IsCoherent c disk → Syncs c disk (sync_loop c disk)
unfolding sync_loop
sync_loop-Syncs [] disk h = record { done = refl; written = λ j. refl }
sync_loop-Syncs ((k, b) ∷ c) none h = absurd ((head-IsEntry k b c none h).on_disk refl)
sync_loop-Syncs ((k, b) ∷ c) (some d) h =
    let head = head-IsEntry k b c (some d) h in
    elim (Bool-cases (b.modified)) [
      | inr clean ↦
          let l = sync_loop-Syncs c (some d) (tail-IsCoherent k b c (some d) h) in
          rw (sync_loop_clean k b c (some d) clean) (record {
            done = l.done;
            written =
                λ j. l.written j ∙ clean_view k b c (some d) h.distinct.0 (head.clean clean) j;
          })
      | inl modified ↦
          let l = sync_loop-Syncs c (some (write_all k b.bytes d)) (written-IsCoherent k b c d h) in
          rw (sync_loop_dirty k b c d modified head.number) (record {
            done = l.done;
            written = λ j. l.written j ∙ dirty_view k b c d h.distinct.0 head.on_disk j;
          })
    ]

module _ {B : Type 0} where
  -- What syncing does: it succeeds, the cache is empty, and the file has the blocks of the store.
  pub record IsSynced (w : World B) (p : Outcome (Unit {0}) × World B) : Type 0 where
    pub done : p.0 ≡ ok tt
    pub empty : p.1.manager.block_cache ≡ []
    pub on_disk : (j : ℕ) → disk_read j p.1.disk ≡ store w j
    pub same_store : (j : ℕ) → store p.1 j ≡ store w j
    pub coherent : Coherent p.1
    pub bitmaps : p.1.bitmaps ≡ w.bitmaps
    pub sfs : p.1.sfs ≡ w.sfs

  sync_and_clear_cache_done :
      (w : World B)
      → (sync_loop w.manager.block_cache w.disk).0 ≡ ok tt
      → sync_and_clear_cache w
        ≡ (ok tt, with_cache (record w { disk = (sync_loop w.manager.block_cache w.disk).1 }) [])
  unfolding sync_and_clear_cache
  sync_and_clear_cache_done w e = rw (e, sync_and_clear_cache) refl

  -- In a coherent world `sync_and_clear_cache` succeeds and empties the cache; afterwards the
  -- host's file holds every block of the store, so that reads give what they gave before.
  pub sync_and_clear_cache-IsSynced :
      (w : World B) → Coherent w → IsSynced w (sync_and_clear_cache w)
  sync_and_clear_cache-IsSynced w h =
      let l = sync_loop-Syncs w.manager.block_cache w.disk h in
      rw (sync_and_clear_cache_done w l.done) (record {
        done = refl;
        empty = refl;
        on_disk = l.written;
        same_store = l.written;
        coherent = record {
          distinct = tt;
          entries = λ id b e. cc e;
          block_sizes =
              λ id bs e. view-size w.manager.block_cache w.disk id bs h (sym (l.written id) ∙ e);
        };
        bitmaps = refl;
        sfs = refl;
      })
