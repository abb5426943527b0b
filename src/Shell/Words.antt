-- ===== src/Shell/Words.antt =====
-- shell/src/main.rs and simdisk/src/main.rs: the words of a line.
use simple_fs_rust.Base.{
  Bool-cases, if◌then◌else◌, ◌∙◌, ap, ◌++◌, ◌==◌, ◌≡◌, ◌≢◌, Bytes, List, ℕ, [], ◌∷◌, true, false,
  refl, inl, inr,
}
use simple_fs_rust.Cache.Read.{All}
use simple_fs_rust.Dirent.{push_front}
use simple_fs_rust.Dirent.Remove.{remove_nul, trim, trim_end, trim_start, is_space}
use simple_fs_rust.Name.{is_nil}
use simple_fs_rust.Session.{split_spaces, split_whitespace, without_nil}

-- A byte that stands in no line end and is no white space, and a word of them.
abbrev pub IsWord : Bytes → Type 0
IsWord bs = (bs ≢ []) × All (λ b. is_space b ≡ false) bs

pub push_front-cons :
    (b : ℕ) (ps : List Bytes) (w : Bytes) (rest : List Bytes)
    → ps ≡ w ∷ rest
    → push_front b ps ≡ (b ∷ w) ∷ rest
push_front-cons b [] w rest e = absurd (cc e)
push_front-cons b (p ∷ ps) w rest e =
    let q : p ≡ w = cc e in let r : ps ≡ rest = cc e in rw (q, r) refl

split_spaces-append :
    (w rest : Bytes) (s : ℕ)
    → All (λ b. is_space b ≡ false) w
    → is_space s ≡ true
    → split_spaces (w ++ (s ∷ rest)) ≡ w ∷ split_spaces rest
split_spaces-append [] rest s h space = rw space refl
split_spaces-append (b ∷ bs) rest s h space = rw (h.0) (
    push_front-cons b (split_spaces (bs ++ (s ∷ rest))) bs (split_spaces rest)
      (split_spaces-append bs rest s h.1 space))

without_nil-word :
    (w : Bytes) (ws : List Bytes) → w ≢ [] → without_nil (w ∷ ws) ≡ w ∷ without_nil ws
without_nil-word [] ws h = absurd (h refl)
without_nil-word (b ∷ bs) ws h = refl

-- A word in front of white space is the first.
pub split_whitespace-append :
    (w rest : Bytes) (s : ℕ)
    → IsWord w
    → is_space s ≡ true
    → split_whitespace (w ++ (s ∷ rest)) ≡ w ∷ split_whitespace rest
split_whitespace-append w rest s h space =
    ap without_nil (split_spaces-append w rest s h.1 space)
    ∙ without_nil-word w (split_spaces rest) h.0

-- Lists of parts with the same first part and the same words behind it.
abbrev SameWords : List Bytes → List Bytes → Type 0
SameWords [] [] = Unit
SameWords [] (q ∷ qs) = ⊥
SameWords (p ∷ ps) [] = ⊥
SameWords (p ∷ ps) (q ∷ qs) = (p ≡ q) × (without_nil ps ≡ without_nil qs)

SameWords-push_front :
    (b : ℕ) (ps qs : List Bytes) → SameWords ps qs → SameWords (push_front b ps) (push_front b qs)
SameWords-push_front b [] [] h = (refl, refl)
SameWords-push_front b [] (q ∷ qs) h = absurd h
SameWords-push_front b (p ∷ ps) [] h = absurd h
SameWords-push_front b (p ∷ ps) (q ∷ qs) h = (ap (λ r. b ∷ r) h.0, h.1)

SameWords-without_nil : (ps qs : List Bytes) → SameWords ps qs → without_nil ps ≡ without_nil qs
SameWords-without_nil [] [] h = refl
SameWords-without_nil [] (q ∷ qs) h = absurd h
SameWords-without_nil (p ∷ ps) [] h = absurd h
SameWords-without_nil (p ∷ ps) (q ∷ qs) h = rw (h.0) (ap (λ r. if is_nil q then r else q ∷ r) h.1)

is_nil_iff : (bs : Bytes) → is_nil bs ≡ true → bs ≡ []
is_nil_iff [] h = refl
is_nil_iff (b ∷ bs) h = cc h

trim_end-SameWords : (bs : Bytes) → SameWords (split_spaces (trim_end bs)) (split_spaces bs)
trim_end-SameWords [] = (refl, refl)
trim_end-SameWords (b ∷ bs) =
    let rest = trim_end-SameWords bs in
    elim (Bool-cases (is_nil (trim_end bs))) [
      | inr more ↦ elim (Bool-cases (is_space b)) [
        | inl space ↦
            rw (more, space)
              (refl, SameWords-without_nil (split_spaces (trim_end bs)) (split_spaces bs) rest)
        | inr letter ↦
            rw (more, letter)
              (SameWords-push_front b (split_spaces (trim_end bs)) (split_spaces bs) rest)
      ]
      | inl nothing ↦ elim (Bool-cases (is_space b)) [
        | inl space ↦
            let same : SameWords ([] ∷ []) (split_spaces bs) =
              rw (is_nil_iff (trim_end bs) nothing) at rest in
            rw (nothing, space) (refl, SameWords-without_nil ([] ∷ []) (split_spaces bs) same)
        | inr letter ↦
            rw (nothing, letter)
              (rw letter
                (SameWords-push_front b (split_spaces (trim_end bs)) (split_spaces bs) rest))
      ]
    ]

split_whitespace-trim_end : (bs : Bytes) → split_whitespace (trim_end bs) ≡ split_whitespace bs
split_whitespace-trim_end bs =
    SameWords-without_nil (split_spaces (trim_end bs)) (split_spaces bs) (trim_end-SameWords bs)

split_whitespace-trim_start : (bs : Bytes) → split_whitespace (trim_start bs) ≡ split_whitespace bs
split_whitespace-trim_start [] = refl
split_whitespace-trim_start (b ∷ bs) = elim (Bool-cases (is_space b)) [
  | inl space ↦ rw space (split_whitespace-trim_start bs)
  | inr letter ↦ rw letter (rw letter refl)
]

-- The words of a line are those of the line without the white space around it.
pub split_whitespace-trim : (bs : Bytes) → split_whitespace (trim bs) ≡ split_whitespace bs
split_whitespace-trim bs =
    split_whitespace-trim_end (trim_start bs) ∙ split_whitespace-trim_start bs

pub remove_nul_self : (bs : Bytes) → All (λ b. (b == 0) ≡ false) bs → remove_nul bs ≡ bs
remove_nul_self [] h = refl
remove_nul_self (b ∷ bs) h = rw (h.0) (ap (λ r. b ∷ r) (remove_nul_self bs h.1))

abbrev pub NoNul : Bytes → Type 0
NoNul = All (λ b. (b == 0) ≡ false)

pub NoNul-append : (xs ys : Bytes) → NoNul xs → NoNul ys → NoNul (xs ++ ys)
NoNul-append [] ys h k = k
NoNul-append (x ∷ xs) ys h k = (h.0, NoNul-append xs ys h.1 k)
