-- ===== src/Bitmap/Bits.antt =====
-- The bits of a bitmap by their number, and how a write of one byte changes them.
use simple_fs_rust.Base.{
  ℕ, ◌+◌, ◌*◌, ◌/◌, ◌%◌, ◌<◌, ◌==◌, ◌≡◌, ◌≢◌, Bool, true, false, Option, none, some, List, inl, inr,
  if◌then◌else◌, get_elem?, set, get_elem?-set_self, get_elem?-set_ne, arith, Bool-cases, ==_iff,
  get_elem?-lt,
}
use simple_fs_rust.State.{BitOps, IsBitmap8}

module _ {B : Type 0} (bits : BitOps B) where
  -- Bit `id`; there is none behind the end.
  abbrev pub bit_of : Option B → ℕ → Bool
  bit_of none i = false
  bit_of (some byte) i = bits.get byte i

  abbrev pub bit_at : List B → ℕ → Bool
  bit_at bitmap id = bit_of (get_elem? bitmap (id / 8)) (id % 8)

  -- A write of bit `k` of byte `pos` is a write of bit `pos * 8 + k`.
  pub bit_at-set :
      IsBitmap8 bits
      → (bitmap : List B) (pos k : ℕ) (v : Bool) {byte : B} → get_elem? bitmap pos ≡ some byte
      → k < 8
      → (id : ℕ)
      → bit_at (set bitmap pos (bits.set byte k v).0) id
        ≡ (if pos * 8 + k == id then v else bit_at bitmap id)
  bit_at-set laws bitmap pos k v {byte} e hk id = elim (Bool-cases (pos == id / 8)) [
    | inl same ↦
        let p : id / 8 ≡ pos = omega (arith, (==_iff pos (id / 8)).0 same) in
        rw (p, get_elem?-set_self bitmap pos (bits.set byte k v).0 (get_elem?-lt bitmap pos e), e)
          (ground (arith, laws.get-set byte k (id % 8) v hk))
    | inr other ↦
        let p : pos ≢ id / 8 = ground arith in
        rw (get_elem?-set_ne bitmap pos (id / 8) (bits.set byte k v).0 p) (ground arith)
  ]

  -- A byte is full when all its bits are set.
  abbrev pub IsFull : List B → ℕ → Type 0
  IsFull bitmap i = (k : ℕ) → k < 8 → bit_at bitmap (i * 8 + k) ≡ true

  pub first_false_none-IsFull :
      IsBitmap8 bits
      → (bitmap : List B) (i : ℕ) {byte : B} → get_elem? bitmap i ≡ some byte
      → bits.first_false_index byte ≡ none
      → IsFull bitmap i
  first_false_none-IsFull laws bitmap i {byte} e full k hk =
      let p : (i * 8 + k) / 8 ≡ i = omega arith in
      let q : (i * 8 + k) % 8 ≡ k = omega arith in
      rw (p, q, e) (laws.first_false-none byte full k hk)

  pub bit_at-of_byte :
      (bitmap : List B) (i k : ℕ) {byte : B}
      → get_elem? bitmap i ≡ some byte
      → k < 8
      → bit_at bitmap (i * 8 + k) ≡ bits.get byte k
  bit_at-of_byte bitmap i k {byte} e hk =
      let p : (i * 8 + k) / 8 ≡ i = omega arith in
      let q : (i * 8 + k) % 8 ≡ k = omega arith in rw (p, q, e)
