-- ===== src/Frame/Sound/Bitmaps.antt =====
-- The calls of simdisk/src/bitmap.rs keep both bitmaps ready.
use simple_fs_rust.Base.{
  suc, arith, get_elem?-lt, ◌<◌, inr, inl, length, ◌/◌, get_elem?, ◌≡◌, Option-cases, List, ℕ, refl,
}
use simple_fs_rust.State.{
  Outcome-cases, Outcome, BitmapManager, IsBitmap8, BitOps, BitmapType, External, ok, err, panic,
  diverge,
}
use simple_fs_rust.Bitmap.{
  alloc_loop, bitmap_of, on_bitmaps, put_bitmap, alloc_bit, last_byte_pos, alloc_bit_in,
  dealloc_bit_in,
}
use simple_fs_rust.Bitmap.Manager.{
  dealloc_bit_in-Writes, Allocs, IsReady, alloc_bit_in-Allocs, other,
}
use simple_fs_rust.Frame.{Within}
use simple_fs_rust.Frame.Changing.{IsWriteFrame}
use simple_fs_rust.Frame.Commands.{IsCommandFrame}
use simple_fs_rust.Frame.Sound.{KeepsSound-IsFrame, KeepsSound, BothReady}
use simple_fs_rust.Frame.Sound

module _ {B : Type 0} where
  both_ready :
      (ty : BitmapType) (m m' : BitmapManager B)
      → BothReady m
      → IsReady ty m'
      → last_byte_pos (other ty) m' ≡ last_byte_pos (other ty) m
      → bitmap_of (other ty) m' ≡ bitmap_of (other ty) m
      → BothReady m'
  both_ready BitmapType.inode m m' h r pos same BitmapType.inode = r
  both_ready BitmapType.inode m m' h r pos same BitmapType.data_block =
      let d = h BitmapType.data_block in
      record { starts_inside = rw (pos, same) (d.starts_inside); ids_fit = rw same (d.ids_fit) }
  both_ready BitmapType.data_block m m' h r pos same BitmapType.data_block = r
  both_ready BitmapType.data_block m m' h r pos same BitmapType.inode =
      let d = h BitmapType.inode in
      record { starts_inside = rw (pos, same) (d.starts_inside); ids_fit = rw same (d.ids_fit) }

  put_bitmap-last :
      (ty : BitmapType) (m : BitmapManager B) (bitmap : List B) (pos : ℕ)
      → last_byte_pos (other ty) (put_bitmap ty bitmap pos m) ≡ last_byte_pos (other ty) m
  put_bitmap-last BitmapType.inode m bitmap pos = refl
  put_bitmap-last BitmapType.data_block m bitmap pos = refl

module _ {B : Type 0} (bits : BitOps B) where
  alloc_bit_in-last :
      (ty : BitmapType) (m : BitmapManager B)
      → last_byte_pos (other ty) (alloc_bit_in bits ty m).1 ≡ last_byte_pos (other ty) m
  unfolding alloc_bit_in
  alloc_bit_in-last ty m =
      elim (Outcome-cases (
        alloc_loop bits (suc (length (bitmap_of ty m))) (bitmap_of ty m) (last_byte_pos ty m)
          (last_byte_pos ty m))) [
            | inl ((id, bitmap, pos), e) ↦ rw (e, alloc_bit_in) (put_bitmap-last ty m bitmap pos)
            | inr (inl (x, e)) ↦ rw (e, alloc_bit_in) refl
            | inr (inr (inl e)) ↦ rw (e, alloc_bit_in) refl
            | inr (inr (inr e)) ↦ rw (e, alloc_bit_in) refl
          ]

  allocated-BothReady :
      (ty : BitmapType) (m : BitmapManager B) (p : Outcome ℕ × BitmapManager B)
      → BothReady m
      → Allocs bits ty m p
      → last_byte_pos (other ty) p.1 ≡ last_byte_pos (other ty) m
      → BothReady p.1
  allocated-BothReady ty m (ok id, m') h a pos =
      let k = a.2 in both_ready ty m m' h (k.ready) pos (k.other_lem)
  allocated-BothReady ty m (err e, m') h a pos = rw (a.1) h
  allocated-BothReady ty m (panic, m') h a pos = absurd a
  allocated-BothReady ty m (diverge, m') h a pos = absurd a

  pub alloc_bit_in-BothReady :
      IsBitmap8 bits
      → (ty : BitmapType) (m : BitmapManager B) → BothReady m
      → BothReady (alloc_bit_in bits ty m).1
  alloc_bit_in-BothReady laws ty m h =
      allocated-BothReady ty m (alloc_bit_in bits ty m) h
        (alloc_bit_in-Allocs bits laws ty m (h ty)) (alloc_bit_in-last ty m)

  pub dealloc_bit_in-BothReady :
      IsBitmap8 bits
      → (ty : BitmapType) (id : ℕ) (m : BitmapManager B) → BothReady m
      → BothReady (dealloc_bit_in bits ty id m).1
  unfolding dealloc_bit_in
  dealloc_bit_in-BothReady laws ty id m h =
      elim (Option-cases (get_elem? (bitmap_of ty m) (id / 8))) [
        | inl e ↦ rw (e, dealloc_bit_in) h
        | inr (byte, e) ↦
            let inside : id / 8 < length (bitmap_of ty m) =
              get_elem?-lt (bitmap_of ty m) (id / 8) e in
            let k = (dealloc_bit_in-Writes bits laws ty m id (h ty) (omega arith)).1 in
            both_ready ty m (dealloc_bit_in bits ty id m).1 h (k.ready)
              (rw (e, dealloc_bit_in) (put_bitmap-last ty m _ (last_byte_pos ty m))) (k.other_lem)
      ]

module _ {B : Type 0} (ext : External B) (laws : IsBitmap8 (ext.bits)) where
  pub takes-Within : (ty : BitmapType) → Within KeepsSound (alloc_bit ext ty)
  unfolding alloc_bit
  takes-Within ty = record {
    run = λ w. record {
      keep = λ s. record {
        coherent = s.coherent;
        ready = alloc_bit_in-BothReady (ext.bits) laws ty (w.bitmaps) s.ready;
      };
    };
  }

  pub frees-Within :
      (ty : BitmapType) (id : ℕ)
      → Within KeepsSound (on_bitmaps ext (dealloc_bit_in (ext.bits) ty id))
  frees-Within ty id = record {
    run = λ w. record {
      keep = λ s. record {
        coherent = s.coherent;
        ready = dealloc_bit_in-BothReady (ext.bits) laws ty id (w.bitmaps) s.ready;
      };
    };
  }

  pub KeepsSound-IsWriteFrame : IsWriteFrame ext KeepsSound
  KeepsSound-IsWriteFrame = record {
    reading = record { frame = KeepsSound-IsFrame; reads = Sound.reads-Within };
    writes = Sound.writes-Within;
    clears = Sound.clears-Within;
    fills = Sound.fills-Within;
    takes = takes-Within;
    frees = frees-Within;
  }

  pub KeepsSound-IsCommandFrame : IsCommandFrame ext KeepsSound
  KeepsSound-IsCommandFrame = record {
    changing = KeepsSound-IsWriteFrame;
    saves = Sound.saves-Within ext;
    syncs = Sound.syncs-Within;
    roots = λ root. record {
      run = λ w. record { keep = λ s. record { coherent = s.coherent; ready = s.ready } };
    };
    methods = λ method. record {
      run = λ w. record { keep = λ s. record { coherent = s.coherent; ready = s.ready } };
    };
  }
