-- ===== src/Bitmap/Alloc.antt =====
-- The loop of `BitmapManager::alloc_bit` of simdisk/src/bitmap.rs.
use simple_fs_rust.Base.{
  ℕ, zero, suc, ◌+◌, ◌-◌, ◌*◌, ◌/◌, ◌%◌, ◌≤◌, ◌<◌, ◌==◌, ◌≡◌, ◌≢◌, ◌⊎◌, ◌∙◌, Bool, true, false,
  ◌&&◌, ◌||◌, some, List, inl, inr, if◌then◌else◌, leb, ltb, length, length-set, get_elem?, set,
  arith, Bool-cases, ==_iff, Option-cases, get_elem?-lt, get_elem?_of_lt,
}
use native.Mathlib.Nat.{mod-eq_of_lt, mod_self, mod-lt}
use native.Mathlib.Decide.{dec_lt}
use simple_fs_rust.State.{BitOps, IsBitmap8, Error, Outcome, ok, err}
use simple_fs_rust.Bitmap.{alloc_loop}
use simple_fs_rust.Bitmap.Bits.{bit_at, bit_at-set, bit_at-of_byte, IsFull, first_false_none-IsFull}

-- The byte behind `cur`, round the end.
next_cases :
    (cur n : ℕ)
    → cur < n
    → ((cur + 1 < n) × ((cur + 1) % n ≡ cur + 1)) ⊎ ((cur + 1 ≡ n) × ((cur + 1) % n ≡ 0))
next_cases cur n h = elim (dec_lt (cur + 1) n) [
  | yes p ↦ inl (p, mod-eq_of_lt p)
  | no p ↦ let e : cur + 1 ≡ n = omega arith in inr (e, rw e (mod_self n))
]

-- Byte `i` stands between `prev` and `cur`, round the end.
abbrev seen : ℕ → ℕ → ℕ → Bool
seen prev cur i = if leb prev cur then leb prev i && ltb i cur else leb prev i || ltb i cur

-- The rounds that are left before `cur` comes back to `prev`.
abbrev rounds_left : ℕ → ℕ → ℕ → ℕ
rounds_left n prev cur = if leb prev cur then n - cur + prev else prev - cur

rounds_left-next :
    (n prev cur next : ℕ)
    → cur < n
    → prev < n
    → ((cur + 1 < n) × (next ≡ cur + 1)) ⊎ ((cur + 1 ≡ n) × (next ≡ 0))
    → next ≢ prev
    → rounds_left n prev next < rounds_left n prev cur
rounds_left-next n prev cur next hc hp step ne = ground arith

seen-next :
    (n prev cur next i : ℕ)
    → cur < n
    → prev < n
    → i < n
    → ((cur + 1 < n) × (next ≡ cur + 1)) ⊎ ((cur + 1 ≡ n) × (next ≡ 0))
    → next ≢ prev
    → seen prev next i ≡ true
    → (i ≡ cur) ⊎ (seen prev cur i ≡ true)
seen-next n prev cur next i hc hp hi step ne s = ground arith

seen-last :
    (n prev cur next i : ℕ)
    → cur < n
    → prev < n
    → i < n
    → ((cur + 1 < n) × (next ≡ cur + 1)) ⊎ ((cur + 1 ≡ n) × (next ≡ 0))
    → next ≡ prev
    → (i ≡ cur) ⊎ (seen prev cur i ≡ true)
seen-last n prev cur next i hc hp hi step e = ground arith

module _ {B : Type 0} (bits : BitOps B) (laws : IsBitmap8 bits) where
  -- What a taken bit is: bit `id`, in byte `pos`, was free and is set, and no other bit changes.
  pub record Takes (bitmap : List B) (id : ℕ) (bitmap' : List B) (pos : ℕ) : Type 0 where
    pub was_free : bit_at bits bitmap id ≡ false
    pub others : (j : ℕ) → bit_at bits bitmap' j ≡ (if id == j then true else bit_at bits bitmap j)
    pub in_byte : id / 8 ≡ pos
    pub in_range : pos < length bitmap
    pub same_length : length bitmap' ≡ length bitmap

  byte-Takes :
      (bitmap : List B) (cur k : ℕ) {byte : B}
      → get_elem? bitmap cur ≡ some byte
      → bits.first_false_index byte ≡ some k
      → Takes bitmap (cur * 8 + k) (set bitmap cur (bits.set byte k true).0) cur
  byte-Takes bitmap cur k {byte} e f = record {
    was_free = bit_at-of_byte bits bitmap cur k e free.0 ∙ free.1;
    others = bit_at-set bits laws bitmap cur k true e free.0;
    in_byte = let h = free.0 in omega arith;
    in_range = get_elem?-lt bitmap cur e;
    same_length = length-set bitmap cur (bits.set byte k true).0;
  }
    where
      free : (k < 8) × (bits.get byte k ≡ false)
      free = laws.first_false-some byte k f

  -- The loop ends with a bit that it takes, or finds every byte full.
  pub data Ends (bitmap : List B) : Outcome (ℕ × List B × ℕ) → Type 0 where
    takes :
        (id : ℕ) (bitmap' : List B) (pos : ℕ)
        → Takes bitmap id bitmap' pos
        → Ends bitmap (ok (id, bitmap', pos))
    full :
        ((i : ℕ) → i < length bitmap → IsFull bits bitmap i) → Ends bitmap (err Error.no_valid_bit)

  pub alloc_loop-Ends :
      (fuel : ℕ) (bitmap : List B) (prev cur : ℕ)
      → cur < length bitmap
      → prev < length bitmap
      → rounds_left (length bitmap) prev cur ≤ fuel
      → ((i : ℕ) → i < length bitmap → seen prev cur i ≡ true → IsFull bits bitmap i)
      → Ends bitmap (alloc_loop bits fuel bitmap prev cur)
  unfolding alloc_loop
  alloc_loop-Ends zero bitmap prev cur hc hp hf inv = absurd (ground arith)
  alloc_loop-Ends (suc fuel) bitmap prev cur hc hp hf inv =
      let (byte, e) = get_elem?_of_lt bitmap cur hc in
      let next = (cur + 1) % length bitmap in
      let step = next_cases cur (length bitmap) hc in
      elim (Option-cases (bits.first_false_index byte)) [
        | inr (k, f) ↦ rw (e, f, alloc_loop) (takes _ _ _ (byte-Takes bitmap cur k e f))
        | inl f ↦
            let here = first_false_none-IsFull bits laws bitmap cur e f in
            elim (Bool-cases (next == prev)) [
              | inl last ↦
                  rw (e, f, last, alloc_loop)
                    (full λ i hi. visited i here (inv i hi) (
                      seen-last (length bitmap) prev cur next i hc hp hi step
                        ((==_iff next prev).0 last)))
              | inr more ↦
                  rw (e, f, more, alloc_loop)
                    (let ne : next ≢ prev = ground arith in
                      alloc_loop-Ends fuel bitmap prev next (mod-lt (cur + 1) (omega arith)) hp
                        (omega
                          (arith, rounds_left-next (length bitmap) prev cur next hc hp step ne))
                        (λ i hi s.
                          visited i here (inv i hi)
                            (seen-next (length bitmap) prev cur next i hc hp hi step ne s)))
            ]
      ]
    where
      visited :
          (i : ℕ)
          → IsFull bits bitmap cur
          → (seen prev cur i ≡ true → IsFull bits bitmap i)
          → (i ≡ cur) ⊎ (seen prev cur i ≡ true)
          → IsFull bits bitmap i
      visited i here old (inl e) = rw e here
      visited i here old (inr s) = old s
