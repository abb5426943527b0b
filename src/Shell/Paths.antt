-- ===== src/Shell/Paths.antt =====
-- shell/src/main.rs and simdisk/src/main.rs: the directory that the shell walks to and the absolute
-- path that the server makes of the same argument.
use simple_fs_rust.Base.{
  append_assoc, append_nil, arith, none, ◌⊎◌, inr, ==_iff, inl, false, ◌==◌, ◌∙◌, Bool-cases, ap,
  codes, bytes_eq, ◌++◌, ◌≡◌, Bytes, List, ℕ, refl, [], ◌∷◌,
}
use simple_fs_rust.State.{ok}
use simple_fs_rust.Cache.Read.{All}
use simple_fs_rust.Command.{get_absolute_path}
use simple_fs_rust.Dirent.{push_front, split_on}
use simple_fs_rust.Shell.{deal_with_dir, walk}
use simple_fs_rust.Syscall.{strip_prefix}

-- The parts of a path, each behind a `/`.
abbrev pub rooted : List Bytes → Bytes
rooted [] = []
rooted (p ∷ ps) = b'/' ∷ (p ++ rooted ps)

abbrev pub IsPlain : Bytes → Type 0
IsPlain p = (bytes_eq p (codes ".") ≡ false) × (bytes_eq p (codes "..") ≡ false)

walk_plain : (ps : List Bytes) (cwd : Bytes) → All IsPlain ps → walk ps cwd ≡ ok (cwd ++ rooted ps)
unfolding walk
walk_plain [] cwd h = rw (append_nil cwd) refl
walk_plain (p ∷ ps) cwd h =
    rw (h.0.0, h.0.1, walk)
      (walk_plain ps (cwd ++ (b'/' ∷ p)) h.1 ∙ ap ok (append_assoc cwd (b'/' ∷ p) (rooted ps)))

push_front-rooted :
    (b : ℕ) (ps : List Bytes) (bs : Bytes)
    → rooted ps ≡ b'/' ∷ bs
    → rooted (push_front b ps) ≡ b'/' ∷ (b ∷ bs)
push_front-rooted b [] bs h = cc h
push_front-rooted b (p ∷ ps) bs h = let e : p ++ rooted ps ≡ bs = cc h in rw e refl

split_on-rooted : (path : Bytes) → rooted (split_on b'/' path) ≡ b'/' ∷ path
split_on-rooted [] = refl
split_on-rooted (b ∷ bs) = elim (Bool-cases (b == b'/')) [
  | inl slash ↦
      let e : b ≡ b'/' = (==_iff b b'/').0 slash in
      rw (slash, e) (ap (λ l. b'/' ∷ l) (split_on-rooted bs))
  | inr other ↦ rw other (push_front-rooted b (split_on b'/' bs) bs (split_on-rooted bs))
]

parts_cases : (ps : List Bytes) → (ps ≡ []) ⊎ ((p : Bytes) × (qs : List Bytes) × (ps ≡ p ∷ qs))
parts_cases [] = inl refl
parts_cases (p ∷ qs) = inr (p, qs, refl)

head_not_tilde :
    (path p : Bytes) (ps : List Bytes)
    → strip_prefix (codes "~") path ≡ none
    → split_on b'/' path ≡ p ∷ ps
    → bytes_eq p (codes "~") ≡ false
head_not_tilde [] p ps h e = let r : [] ≡ p = cc e in rw (← r) refl
head_not_tilde (b ∷ bs) p ps h e = elim (Bool-cases (b == b'/')) [
  | inl slash ↦
      let r : [] ∷ split_on b'/' bs ≡ p ∷ ps = rw slash at e in
      let s : [] ≡ p = cc r in rw (← s) refl
  | inr other ↦ elim (parts_cases (split_on b'/' bs)) [
    | inl none_left ↦
        let r : (b ∷ []) ∷ [] ≡ p ∷ ps = rw (other, none_left) at e in
        let s : b ∷ [] ≡ p = cc r in rw (← s) (ground (arith))
    | inr (q, qs, more) ↦
        let r : (b ∷ q) ∷ qs ≡ p ∷ ps = rw (other, more) at e in
        let s : b ∷ q ≡ p = cc r in rw (← s) (ground (arith))
  ]
]

-- Where no part of a path is `.` or `..` and the path does not begin with `~`, the shell walks to
-- the path that the server works with.
pub deal_with_dir-get_absolute_path :
    (path cwd : Bytes)
    → All IsPlain (split_on b'/' path)
    → strip_prefix (codes "~") path ≡ none
    → deal_with_dir path cwd ≡ ok (get_absolute_path cwd path)
unfolding deal_with_dir get_absolute_path
deal_with_dir-get_absolute_path path cwd plain h = elim (parts_cases (split_on b'/' path)) [
  | inl nothing ↦ let r : [] ≡ b'/' ∷ path = rw nothing at (split_on-rooted path) in cc r
  | inr (p, ps, e) ↦
      let parts : All IsPlain (p ∷ ps) = rw e at plain in
      let path' : rooted (p ∷ ps) ≡ b'/' ∷ path = rw e at (split_on-rooted path) in
      rw (e, head_not_tilde path p ps h e, h, deal_with_dir, get_absolute_path)
        (walk_plain (p ∷ ps) cwd parts ∙ ap (λ l. ok (cwd ++ l)) path')
]
