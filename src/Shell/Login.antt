-- ===== src/Shell/Login.antt =====
-- shell/src/main.rs and simdisk/src/main.rs: the lines that the server reads of a login or a registration.
use simple_fs_rust.Base.{
  arith, take_all, ◌≤◌, length, append_assoc, codes, ap, ◌∙◌, ℕ, ◌++◌, ◌==◌, ◌≡◌, Bytes, [], ◌∷◌,
  false, refl,
}
use simple_fs_rust.State.{Error, Outcome, External}
use simple_fs_rust.Cache.Read.{All}
use simple_fs_rust.Dirent.{split_on}
use simple_fs_rust.Protocol.{socket_buffer_size}
use simple_fs_rust.Session.{
  login, regist, on_lines, on_sign_in, stripped, lines, strip_cr, received,
}
use simple_fs_rust.Shell.Client.{regist_message, login_message}
use simple_fs_rust.Shell.Words.{push_front-cons}

-- A text in one line: no line feed and no carriage return.
abbrev pub IsLine : Bytes → Type 0
IsLine = All (λ b. ((b == 10) ≡ false) × ((b == 13) ≡ false))

split_on-line : (w rest : Bytes) → IsLine w → split_on 10 (w ++ (10 ∷ rest)) ≡ w ∷ split_on 10 rest
split_on-line [] rest h = refl
split_on-line (b ∷ bs) rest h = rw (h.0.0) (
    push_front-cons b (split_on 10 (bs ++ (10 ∷ rest))) bs (split_on 10 rest)
      (split_on-line bs rest h.1))

strip_cr_self : (w : Bytes) → IsLine w → strip_cr w ≡ w
strip_cr_self [] h = refl
strip_cr_self (b ∷ bs) h = rw (h.0.1) (ap (λ r. b ∷ r) (strip_cr_self bs h.1))

-- The lines of a word and two lines behind it.
lines_of_message :
    (word name password : Bytes)
    → IsLine word
    → IsLine name
    → IsLine password
    → lines (word ++ (10 ∷ (name ++ (10 ∷ (password ++ (10 ∷ []))))))
      ≡ word ∷ (name ∷ (password ∷ []))
lines_of_message word name password hw hn hp =
    let parts : split_on 10 (word ++ (10 ∷ (name ++ (10 ∷ (password ++ (10 ∷ []))))))
        ≡ word ∷ (name ∷ (password ∷ ([] ∷ []))) =
      split_on-line word (name ++ (10 ∷ (password ++ (10 ∷ [])))) hw
      ∙ ap (λ r. word ∷ r)
          (split_on-line name (password ++ (10 ∷ [])) hn
            ∙ ap (λ r. name ∷ r) (split_on-line password [] hp)) in
    ap stripped parts
    ∙ rw (strip_cr_self word hw, strip_cr_self name hn, strip_cr_self password hp) refl

login_word : IsLine (codes "login")
login_word = ((refl, refl), ((refl, refl), ((refl, refl), ((refl, refl), ((refl, refl), tt)))))

regist_word : IsLine (codes "regist")
regist_word = (
  (refl, refl),
  ((refl, refl), ((refl, refl), ((refl, refl), ((refl, refl), ((refl, refl), tt))))),
)

module _ {B : Type 0} (ext : External B) (host : Bytes → Outcome Bytes) (fuel : ℕ)
    (error_text : Error → Bytes) where
  on_lines-login :
      (name password : Bytes)
      → on_lines ext host fuel error_text (codes "login" ∷ (name ∷ (password ∷ [])))
        ≡ login ext host fuel error_text (name ∷ (password ∷ []))
  unfolding on_lines
  on_lines-login name password = refl

  on_lines-regist :
      (name password : Bytes)
      → on_lines ext host fuel error_text (codes "regist" ∷ (name ∷ (password ∷ [])))
        ≡ regist ext host fuel error_text (name ∷ (password ∷ []))
  unfolding on_lines
  on_lines-regist name password = refl

  -- What the shell sends for a name and a password, each a line, where it fits into the buffer of the server,
  -- reaches the server as that name and that
  -- password: the turn of a task that waits for a sign-in is the login of the two, or their registration for the
  -- message of `regist`.
  pub on_sign_in-login_message :
      (name password : Bytes)
      → IsLine name
      → IsLine password
      → length (regist_message (name ++ codes "\n") (password ++ codes "\n")) ≤ socket_buffer_size
      → (on_sign_in ext host fuel error_text
            (received (login_message (name ++ codes "\n") (password ++ codes "\n")))
          ≡ login ext host fuel error_text (name ∷ (password ∷ [])))
        × (on_sign_in ext host fuel error_text
              (received (regist_message (name ++ codes "\n") (password ++ codes "\n")))
            ≡ regist ext host fuel error_text (name ∷ (password ∷ [])))
  unfolding on_sign_in login_message regist_message
  on_sign_in-login_message name password hn hp short =
      let both = (name ++ codes "\n") ++ (password ++ codes "\n") in
      let whole : (name ++ codes "\n") ++ (password ++ codes "\n")
          ≡ name ++ (10 ∷ (password ++ (10 ∷ []))) =
        append_assoc name (codes "\n") (password ++ codes "\n") in
      (
        ap (λ m. on_lines ext host fuel error_text (lines m))
              (take_all socket_buffer_size (codes "login\n" ++ both) (omega (arith, short)))
            ∙ ap (λ m. on_lines ext host fuel error_text (lines (codes "login\n" ++ m))) whole
            ∙ ap (on_lines ext host fuel error_text)
                (lines_of_message (codes "login") name password login_word hn hp)
            ∙ on_lines-login name password,
        ap (λ m. on_lines ext host fuel error_text (lines m))
              (take_all socket_buffer_size (codes "regist\n" ++ both) short)
            ∙ ap (λ m. on_lines ext host fuel error_text (lines (codes "regist\n" ++ m))) whole
            ∙ ap (on_lines ext host fuel error_text)
                (lines_of_message (codes "regist") name password regist_word hn hp)
            ∙ on_lines-regist name password,
      )
