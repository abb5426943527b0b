-- ===== src/Shell/Agreement.antt =====
-- shell/src/main.rs and simdisk/src/main.rs: where the two sides leave the login state, and the help of the shell.
use simple_fs_rust.Base.{
  bytes_eq_self, List, ◌&&◌, Bool, bytes_eq, codes, ◌++◌, ◌==◌, ◌≡◌, Bytes, [], ◌∷◌, true, false,
  refl, inl, inr,
}
use mathlib.Core.Path.{subst}
use simple_fs_rust.Cache.Read.{All}
use simple_fs_rust.Session.{signing_in, serving, sending, closed, Phase}
use simple_fs_rust.Session.Safety.{Any}
use simple_fs_rust.Shell.Client.{help_lines}
use simple_fs_rust.Syscall.{Client}

-- The phase has this flag.
abbrev pub Continues : Bool → Phase → Type 0
Continues b signing_in = b ≡ false
Continues b serving = b ≡ true
Continues b (sending is_login msg) = is_login ≡ b
Continues b closed = ⊥

-- A line with its line feed is no text without one.
line_differs :
    (name text : Bytes)
    → All (λ b. (10 == b) ≡ false) text
    → bytes_eq (name ++ codes "\n") text ≡ false
line_differs [] [] h = refl
line_differs [] (t ∷ ts) h = rw (h.0) refl
line_differs (b ∷ bs) [] h = refl
line_differs (b ∷ bs) (t ∷ ts) h = rw (line_differs bs ts h.1) (and_false (b == t))
  where
    and_false : (x : Bool) → (x && false) ≡ false
    and_false true = refl
    and_false false = refl

-- Whatever name is typed before the line feed, the help is the one of a name that is not root.
help_lines-line : (name : Bytes) → help_lines (name ++ codes "\n") ≡ help_lines (codes "guest")
unfolding help_lines
help_lines-line name = rw (line_differs name (codes "root") (refl, (refl, (refl, (refl, tt))))) refl

none_of :
    (text : Bytes) (ls : List Bytes)
    → All (λ l. bytes_eq l text ≡ false) ls
    → ¬ (Any (λ l. l ≡ text) ls)
none_of text [] h k = k
none_of text (l ∷ ls) h k = elim k [
  | inl e ↦
      let q : bytes_eq text text ≡ false = subst (λ x. bytes_eq x text ≡ false) e h.0 in
      absurd (cc (q, bytes_eq_self text))
  | inr r ↦ none_of text ls h.1 r
]

-- The help shows this line.
abbrev pub Shows : List Bytes → Bytes → Type 0
Shows ls text = Any (λ l. l ≡ text) ls

guest_formatting : ¬ (Shows (help_lines (codes "guest")) (codes "formatting"))
unfolding help_lines
guest_formatting k =
    none_of (codes "formatting") (help_lines (codes "guest"))
      (refl, (refl, (refl, (refl, (refl, (refl, (refl, (refl, (refl, (refl, tt)))))))))) k

guest_users : ¬ (Shows (help_lines (codes "guest")) (codes "users"))
unfolding help_lines
guest_users k =
    none_of (codes "users") (help_lines (codes "guest"))
      (refl, (refl, (refl, (refl, (refl, (refl, (refl, (refl, (refl, (refl, tt)))))))))) k

root_lines :
    Shows (help_lines (codes "root")) (codes "formatting")
    × Shows (help_lines (codes "root")) (codes "users")
unfolding help_lines
root_lines = (
  inr (inr (inr (inr (inr (inr (inr (inr (inr (inl refl))))))))),
  inr (inr (inr (inr (inr (inr (inr (inr (inr (inr (inl refl)))))))))),
)

-- Whatever name the user types before the line feed, root included, the help never shows `formatting` and
-- `users`; it shows both for the name `root` without a line feed.
pub help_lines_hides :
    (name : Bytes)
    → (¬ (Shows (help_lines (name ++ codes "\n")) (codes "formatting")))
      × (¬ (Shows (help_lines (name ++ codes "\n")) (codes "users")))
      × Shows (help_lines (codes "root")) (codes "formatting")
      × Shows (help_lines (codes "root")) (codes "users")
help_lines_hides name = (
  λ k. guest_formatting (subst (λ ls. Shows ls (codes "formatting")) (help_lines-line name) k),
  λ k. guest_users (subst (λ ls. Shows ls (codes "users")) (help_lines-line name) k),
  root_lines.0,
  root_lines.1,
)
