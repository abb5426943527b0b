-- ===== src/Name/Parts.antt =====
-- simdisk/src/dirent.rs: a name cut into its parts, stored in an entry, and shown again.
use simple_fs_rust.Base.{
  ◌∙◌, ◌-◌, ◌⊎◌, length, ltb, ==_iff, Bool, ◌==◌, Bool-cases, if◌then◌else◌, arith, inr, ap, inl,
  ==_ne, Option-cases, none, replicate, some, ◌++◌, ◌≡◌, ◌≢◌, Bytes, ℕ, refl, sym, [], ◌∷◌, zero,
  suc,
}
use mathlib.Core.Path.{subst}
use simple_fs_rust.State.{Error, err, ok, DirEntry}
use simple_fs_rust.Cache.Read.{All}
use simple_fs_rust.Constants.{extension_length_limit, name_length_limit}
use simple_fs_rust.Name.{pad, split_name, get_filename, is_nil, new_dirent, before_nul, rsplit_once}

abbrev pub Free : ℕ → Bytes → Type 0
Free c bs = All (λ b. b ≢ c) bs

before_nul-pad : (n : ℕ) (bs : Bytes) → Free 0 bs → before_nul (bs ++ replicate n 0) ≡ bs
before_nul-pad zero [] h = refl
before_nul-pad (suc n) [] h = refl
before_nul-pad n (b ∷ bs) h = rw (==_ne b 0 h.0) (ap (λ l. b ∷ l) (before_nul-pad n bs h.1))

rsplit_once-none : (c : ℕ) (bs : Bytes) → rsplit_once c bs ≡ none → Free c bs
rsplit_once-none c [] h = tt
rsplit_once-none c (b ∷ bs) h = elim (Option-cases (rsplit_once c bs)) [
  | inl q ↦ (λ e. ground arith, rsplit_once-none c bs q)
  | inr (p, q) ↦ ground arith
]

-- `rsplit_once` cuts at the last such byte.
rsplit_once-some :
    (c : ℕ) (bs : Bytes) (p : Bytes × Bytes)
    → rsplit_once c bs ≡ some p
    → (bs ≡ p.0 ++ (c ∷ p.1)) × Free c p.1
rsplit_once-some c [] p h = cc h
rsplit_once-some c (b ∷ bs) p h = elim (Option-cases (rsplit_once c bs)) [
  | inl q ↦ elim (Bool-cases (b == c)) [
    | inl same ↦
        let e : b ≡ c = (==_iff b c).0 same in
        let r : some ([], bs) ≡ some p = rw (q, same) at h in
        let s : ([], bs) ≡ p = cc r in rw (← s) (rw e refl, rsplit_once-none c bs q)
    | inr differ ↦ let r : none ≡ some p = rw (q, differ) at h in cc r
  ]
  | inr (o, q) ↦
      let ih = rsplit_once-some c bs o q in
      let r : some (b ∷ o.0, o.1) ≡ some p = rw q at h in
      let s : (b ∷ o.0, o.1) ≡ p = cc r in rw (← s) (ap (λ l. b ∷ l) ih.0, ih.1)
]

Free-append : (c : ℕ) (xs ys : Bytes) → Free c (xs ++ ys) → Free c xs × Free c ys
Free-append c [] ys h = (tt, h)
Free-append c (x ∷ xs) ys h = let r = Free-append c xs ys h.1 in ((h.0, r.0), r.1)

List-cases : (xs : Bytes) → (xs ≡ []) ⊎ ((b : ℕ) × (bs : Bytes) × (xs ≡ b ∷ bs))
List-cases [] = inl refl
List-cases (b ∷ bs) = inr (b, bs, refl)

-- The parts of a name in an entry, and shown: the dot stands between them where there is an
-- extension.
shown : Bytes → Bytes → Bytes
shown f e = if is_nil e then f else f ++ (b'.' ∷ e)

padded : Bytes → Bytes → Bool → ℕ → DirEntry
padded f e is_dir id = record {
  filename = pad name_length_limit f;
  extension = pad extension_length_limit e;
  is_dir = is_dir;
  inode_id = id;
}

padded-get_filename :
    (f e : Bytes) (is_dir : Bool) (id : ℕ)
    → Free 0 f
    → Free 0 e
    → get_filename (padded f e is_dir id) ≡ shown f e
unfolding get_filename shown padded
padded-get_filename f e is_dir id hf he =
    let p = before_nul-pad (name_length_limit - length f) f hf in
    let q = before_nul-pad (extension_length_limit - length e) e he in
    rw (p, q) (elim (Bool-cases (is_nil e)) [ inl x ↦ rw x refl | inr x ↦ rw x refl ])

-- An entry is made exactly where both parts fit, and it is the padded one.
new_dirent-padded :
    (f e : Bytes) (is_dir : Bool) (id : ℕ) (d : DirEntry)
    → new_dirent f e is_dir id ≡ ok d
    → padded f e is_dir id ≡ d
unfolding new_dirent padded
new_dirent-padded f e is_dir id d h = elim (Bool-cases (ltb name_length_limit (length f))) [
  | inl long ↦ let r : err Error.filename_too_long ≡ ok d = rw long at h in cc r
  | inr fits ↦ elim (Bool-cases (ltb extension_length_limit (length e))) [
    | inl long ↦ let r : err Error.extension_too_long ≡ ok d = rw (fits, long) at h in cc r
    | inr fits' ↦ let r : ok (padded f e is_dir id) ≡ ok d = rw (fits, fits') at h in cc r
  ]
]

-- Where a name without a 0 is split by `split_name` and an entry can be made of its parts,
-- `get_filename` of the entry is the name, or the name is it with a dot more at its end.
pub split_name-get_filename :
    (name : Bytes) (is_dir : Bool) (id : ℕ) (d : DirEntry)
    → Free 0 name
    → new_dirent (split_name name).0 (split_name name).1 is_dir id ≡ ok d
    → (get_filename d ≡ name) ⊎ (name ≡ get_filename d ++ (b'.' ∷ []))
unfolding split_name shown
split_name-get_filename name is_dir id d h e = elim (Option-cases (rsplit_once b'.' name)) [
  | inl q ↦
      let e' : new_dirent name [] is_dir id ≡ ok d = rw (q, split_name) at e in
      rw (← new_dirent-padded name [] is_dir id d e', padded-get_filename name [] is_dir id h tt)
        (inl refl)
  | inr (p, q) ↦
      let parts = rsplit_once-some b'.' name p q in
      let free = Free-append 0 p.0 (b'.' ∷ p.1) (subst (Free 0) parts.0 h) in
      let e' : new_dirent p.0 p.1 is_dir id ≡ ok d = rw (q, split_name) at e in
      rw
        (
          ← new_dirent-padded p.0 p.1 is_dir id d e',
          padded-get_filename p.0 p.1 is_dir id free.0 free.1.1,
        )
        (elim (List-cases p.1) [
          | inl x ↦ rw x (inr (parts.0 ∙ rw x refl))
          | inr (b, bs, x) ↦ rw x (inl (sym (parts.0 ∙ rw x refl)))
        ])
]
