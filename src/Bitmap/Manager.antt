-- ===== src/Bitmap/Manager.antt =====
-- `BitmapManager::alloc_bit` and `dealloc_bit` of simdisk/src/bitmap.rs, by the bits of the two bitmaps.
use simple_fs_rust.Base.{
  suc, ℕ, ◌+◌, ◌*◌, ◌/◌, ◌%◌, ◌^◌, ◌≤◌, ◌<◌, ◌==◌, ◌≡◌, ◌∙◌, refl, ap, Bool, true, false, List,
  if◌then◌else◌, length, length-set, arith, ==_iff, get_elem?_of_lt,
}
use mathlib.Core.Path.{subst}
use native.Mathlib.Nat.{mod-eq_of_lt}
use simple_fs_rust.State.{
  BitmapManager, BitmapType, BitOps, IsBitmap8, Error, Outcome, ok, err, panic, diverge,
}
use simple_fs_rust.Bitmap.{
  bitmap_of, last_byte_pos, put_bitmap, alloc_loop, alloc_bit_in, dealloc_bit_in,
}
use simple_fs_rust.Bitmap.Alloc.{Ends, takes, full, alloc_loop-Ends}
use simple_fs_rust.Bitmap.Bits.{bit_at, bit_at-set, IsFull}

abbrev pub other : BitmapType → BitmapType
other BitmapType.inode = BitmapType.data_block
other BitmapType.data_block = BitmapType.inode

module _ {B : Type 0} where
  -- The search begins inside the bitmap, and its ids fit a `u32`.
  pub record IsReady (ty : BitmapType) (m : BitmapManager B) : Type 0 where
    pub starts_inside : last_byte_pos ty m < length (bitmap_of ty m)
    pub ids_fit : length (bitmap_of ty m) * 8 ≤ 2 ^ 32

module _ {B : Type 0} (bits : BitOps B) where
  abbrev pub manager_bit : BitmapType → BitmapManager B → ℕ → Bool
  manager_bit ty m id = bit_at bits (bitmap_of ty m) id

  -- Bit `id` of `ty` becomes `v`; nothing else changes, and the manager stays ready.
  pub record Writes (ty : BitmapType) (m : BitmapManager B) (id : ℕ) (v : Bool)
      (m' : BitmapManager B) : Type 0 where
    pub bits_lem : (j : ℕ) → manager_bit ty m' j ≡ (if id == j then v else manager_bit ty m j)
    pub other_lem : bitmap_of (other ty) m' ≡ bitmap_of (other ty) m
    pub length_lem : length (bitmap_of ty m') ≡ length (bitmap_of ty m)
    pub ready : IsReady ty m'

  -- What `alloc_bit` does: it takes a bit that was free, or all bits are set and nothing changes.
  abbrev pub Allocs : BitmapType → BitmapManager B → Outcome ℕ × BitmapManager B → Type 0
  Allocs ty m (ok id, m') =
      (manager_bit ty m id ≡ false) × (id < length (bitmap_of ty m) * 8) × Writes ty m id true m'
  Allocs ty m (err e, m') =
      (e ≡ Error.no_valid_bit)
      × (m' ≡ m)
      × ((id : ℕ) → id < length (bitmap_of ty m) * 8 → manager_bit ty m id ≡ true)
  Allocs ty m (panic, m') = ⊥
  Allocs ty m (diverge, m') = ⊥

  IsFull→bits :
      (bitmap : List B)
      → ((i : ℕ) → i < length bitmap → IsFull bits bitmap i)
      → (id : ℕ) → id < length bitmap * 8
      → bit_at bits bitmap id ≡ true
  IsFull→bits bitmap h id hid =
      let e : id / 8 * 8 + id % 8 ≡ id = omega arith in
      rw (← e) (h (id / 8) (omega arith) (id % 8) (omega arith))

  put_bitmap-Writes :
      (ty : BitmapType) (m : BitmapManager B) (id pos : ℕ) (v : Bool) (bitmap' : List B)
      → ((j : ℕ) → bit_at bits bitmap' j ≡ (if id == j then v else manager_bit ty m j))
      → length bitmap' ≡ length (bitmap_of ty m)
      → pos < length (bitmap_of ty m)
      → length (bitmap_of ty m) * 8 ≤ 2 ^ 32
      → Writes ty m id v (put_bitmap ty bitmap' pos m)
  put_bitmap-Writes BitmapType.inode m id pos v bitmap' hb hl hp hf = record {
    bits_lem = hb;
    other_lem = refl;
    length_lem = hl;
    ready = omega arith;
  }
  put_bitmap-Writes BitmapType.data_block m id pos v bitmap' hb hl hp hf = record {
    bits_lem = hb;
    other_lem = refl;
    length_lem = hl;
    ready = omega arith;
  }

  -- On a ready manager `alloc_bit` ends, without a panic: either it returns a bit of the bitmap that
  -- was free and sets that bit alone, or it fails with "no valid bit", changes nothing, and every
  -- bit is set.
  pub alloc_bit_in-Allocs :
      IsBitmap8 bits
      → (ty : BitmapType) (m : BitmapManager B) → IsReady ty m
      → Allocs ty m (alloc_bit_in bits ty m)
  unfolding alloc_bit_in
  alloc_bit_in-Allocs laws ty m r =
      go
        (alloc_loop bits (suc (length (bitmap_of ty m))) (bitmap_of ty m) (last_byte_pos ty m)
          (last_byte_pos ty m))
        (alloc_loop-Ends bits laws (suc (length (bitmap_of ty m))) (bitmap_of ty m)
          (last_byte_pos ty m) (last_byte_pos ty m) r.starts_inside r.starts_inside (ground arith)
          (λ i hi s. absurd (ground arith)))
    where
      go :
          (o : Outcome (ℕ × List B × ℕ))
          → Ends bits laws (bitmap_of ty m) o
          → Allocs ty m (elim o [
            | ok (id, bitmap, pos) ↦ (ok (id % 2 ^ 32), put_bitmap ty bitmap pos m)
            | err e ↦ (err e, m)
            | panic ↦ (panic, m)
            | diverge ↦ (diverge, m)
          ])
      go o (takes id bitmap' pos t) =
          let bound : id < length (bitmap_of ty m) * 8 = omega (arith, t.in_byte, t.in_range) in
          rw (mod-eq_of_lt {n = id} {m = 2 ^ 32} (omega (arith, r.ids_fit))) (
            t.was_free,
            bound,
            put_bitmap-Writes ty m id pos true bitmap' t.others t.same_length t.in_range r.ids_fit,
          )
      go o (full h) = (refl, refl, IsFull→bits (bitmap_of ty m) h)

  -- On a ready manager and a bit inside the bitmap, `dealloc_bit` returns whether the bit was set,
  -- clears it, and changes nothing else.
  pub dealloc_bit_in-Writes :
      IsBitmap8 bits
      → (ty : BitmapType) (m : BitmapManager B) (id : ℕ) → IsReady ty m
      → id < length (bitmap_of ty m) * 8
      → ((dealloc_bit_in bits ty id m).0 ≡ ok (manager_bit ty m id))
        × Writes ty m id false (dealloc_bit_in bits ty id m).1
  unfolding dealloc_bit_in
  dealloc_bit_in-Writes laws ty m id r hid =
      let (byte, e) = get_elem?_of_lt (bitmap_of ty m) (id / 8) (omega arith) in
      let h : id / 8 * 8 + id % 8 ≡ id = omega arith in
      rw (e, dealloc_bit_in)
        (
          ap ok (laws.set_previous byte (id % 8) false (omega arith)),
          put_bitmap-Writes ty m id (last_byte_pos ty m) false _
              (λ j.
                rw h at
                  (bit_at-set bits laws (bitmap_of ty m) (id / 8) (id % 8) false e (omega arith) j))
              (length-set (bitmap_of ty m) (id / 8) (bits.set byte (id % 8) false).0)
              r.starts_inside r.ids_fit,
        )

  -- After a successful `alloc_bit` on a ready manager, `dealloc_bit` of the same id returns true, and
  -- every bit of both bitmaps is what it was before the two calls.
  pub dealloc_bit_in-alloc_bit_in :
      IsBitmap8 bits
      → (ty : BitmapType) (m : BitmapManager B) (id : ℕ) (m' : BitmapManager B) → IsReady ty m
      → alloc_bit_in bits ty m ≡ (ok id, m')
      → ((dealloc_bit_in bits ty id m').0 ≡ ok true)
        × ((j : ℕ) → manager_bit ty (dealloc_bit_in bits ty id m').1 j ≡ manager_bit ty m j)
        × (bitmap_of (other ty) (dealloc_bit_in bits ty id m').1 ≡ bitmap_of (other ty) m)
  dealloc_bit_in-alloc_bit_in laws ty m id m' r e =
      let (free, bound, w) = taken in
      let (old, w') = dealloc_bit_in-Writes laws ty m' id w.ready (rw (w.length_lem) bound) in
      (
        old ∙ ap ok (w.bits_lem id ∙ ground arith),
        λ j. ground (
          arith,
          w'.bits_lem j,
          w.bits_lem j,
          ==_iff id j,
          ap (manager_bit ty m) {x = id} {y = j},
        ),
        w'.other_lem ∙ w.other_lem,
      )
    where
      taken : Allocs ty m (ok id, m')
      taken = subst (Allocs ty m) e (alloc_bit_in-Allocs laws ty m r)
