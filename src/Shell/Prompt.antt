-- ===== src/Shell/Prompt.antt =====
-- shell/src/main.rs: the prompt of the shell stands behind a login that the server accepted.
use simple_fs_rust.Base.{
  take, Bool-cases, ◌⊎◌, Bool, ℕ, ◌≡◌, Bytes, bytes_eq, List, [], ◌∷◌, true, false, refl, inl, inr,
}
use simple_fs_rust.Dirent.Remove.{trim}
use simple_fs_rust.Protocol.{socket_buffer_size, send_content, login_success}
use simple_fs_rust.Session.Safety.{Any}
use simple_fs_rust.Shell.Client.{
  request, help_lines, choose, message_of, react, Choice, Reaction, Request, after_login,
  ShellState, choose_sign_in, choose_sign_up, choose_again, ask_nothing, leave, ask_help, ask,
  send_file, confirm, receive_text, continue_with, crashed,
}
use simple_fs_rust.Shell.Loop.{
  go, say, by_reply, Runs, back, by_contents, by_file, by_line, read_reply, top, Shown, advance,
  on_answer, on_choice, on_contents, on_end, on_file, on_input, on_password, on_reply, on_signed,
  Input, Waiting, line, reply, contents, file, failed, choosing, naming, giving_password, awaiting,
  typing, reading, filing, confirming, receiving, finishing, ended, begun, stepped,
}
use simple_fs_rust.Shell.Replies.{react-Lowers, LowersReaction, Fits, Lowers}

top-Fits : (s : ShellState) → Fits (top s) s.is_login
top-Fits s = elim (Bool-cases s.is_login) [ inl e ↦ rw e refl | inr e ↦ rw e refl ]

-- The input is the reply that a login was accepted.
abbrev pub IsGranted : Input → Type 0
IsGranted (reply r) = bytes_eq (take socket_buffer_size r) login_success ≡ true
IsGranted _ = ⊥

-- What a step makes of the flag: it fits the place, and it was raised before or by the reply.
record Agrees (s : ShellState) (granted : Type 0) (p : Shown) : Type 0 where
  fits : Fits p.waiting p.state.is_login
  raised : p.state.is_login ≡ true → (s.is_login ≡ true) ⊎ granted

module _ (s : ShellState) where
  back-Agrees : {G : Type 0} (s' : ShellState) → Lowers s s' → Agrees s G (back s')
  back-Agrees s' h = record { fits = top-Fits s'; raised = λ q. inl (h q) }

  by_line-Agrees :
      (other : Shown) (f : Bytes → Shown) (i : Input)
      → Agrees s (IsGranted i) other
      → ((l : Bytes) → Agrees s ⊥ (f l))
      → Agrees s (IsGranted i) (by_line other f i)
  by_line-Agrees other f (line l) h k = k l
  by_line-Agrees other f (reply r) h k = h
  by_line-Agrees other f (contents bs) h k = h
  by_line-Agrees other f (file ls) h k = h
  by_line-Agrees other f failed h k = h

  by_reply-Agrees :
      (other : Shown) (f : Bytes → Shown) (i : Input)
      → Agrees s (IsGranted i) other
      → ((r : Bytes) → Agrees s (bytes_eq r login_success ≡ true) (f r))
      → Agrees s (IsGranted i) (by_reply other f i)
  by_reply-Agrees other f (reply []) h k = h
  by_reply-Agrees other f (reply (b ∷ bs)) h k = k (take socket_buffer_size (b ∷ bs))
  by_reply-Agrees other f (line l) h k = h
  by_reply-Agrees other f (contents bs) h k = h
  by_reply-Agrees other f (file ls) h k = h
  by_reply-Agrees other f failed h k = h

  by_file-Agrees :
      (other : Shown) (f : List Bytes → Shown) (i : Input)
      → Agrees s (IsGranted i) other
      → ((ls : List Bytes) → Agrees s ⊥ (f ls))
      → Agrees s (IsGranted i) (by_file other f i)
  by_file-Agrees other f (file ls) h k = k ls
  by_file-Agrees other f (reply r) h k = h
  by_file-Agrees other f (line l) h k = h
  by_file-Agrees other f (contents bs) h k = h
  by_file-Agrees other f failed h k = k []

  by_contents-Agrees :
      (other : Shown) (f : Bytes → Shown) (i : Input)
      → Agrees s (IsGranted i) other
      → ((bs : Bytes) → Agrees s ⊥ (f bs))
      → Agrees s (IsGranted i) (by_contents other f i)
  by_contents-Agrees other f (contents bs) h k = k bs
  by_contents-Agrees other f (reply r) h k = h
  by_contents-Agrees other f (line l) h k = h
  by_contents-Agrees other f (file ls) h k = h
  by_contents-Agrees other f failed h k = h

  on_choice-Agrees : (l : Bytes) → s.is_login ≡ false → Agrees s ⊥ (on_choice s l)
  unfolding on_choice
  on_choice-Agrees l h = go_on (choose l)
    where
      go_on :
          (c : Choice)
          → Agrees s ⊥ (elim c [
            | choose_sign_in ↦ go s (naming false)
            | choose_sign_up ↦ go s (naming true)
            | choose_again ↦ go s choosing
          ])
      go_on choose_sign_in = record { fits = h; raised = inl }
      go_on choose_sign_up = record { fits = h; raised = inl }
      go_on choose_again = record { fits = h; raised = inl }

  on_password-Agrees :
      (up : Bool) (name l : Bytes) → s.is_login ≡ false → Agrees s ⊥ (on_password s up name l)
  unfolding on_password
  on_password-Agrees true name l h = record { fits = h; raised = inl }
  on_password-Agrees false name l h = record { fits = h; raised = inl }

  on_signed-Agrees :
      (up : Bool) (r : Bytes)
      → s.is_login ≡ false
      → Agrees s (bytes_eq r login_success ≡ true) (on_signed s up r)
  unfolding on_signed after_login
  on_signed-Agrees true r h = record { fits = h; raised = inl }
  on_signed-Agrees false r h = elim (Bool-cases (bytes_eq r login_success)) [
    | inl same ↦ rw same (record { fits = refl; raised = λ q. inr refl })
    | inr other ↦ rw other (record { fits = top-Fits s; raised = inl })
  ]

  on_input-Agrees : (l : Bytes) → s.is_login ≡ true → Agrees s ⊥ (on_input s l)
  unfolding on_input
  on_input-Agrees l h = go_on (request s l)
    where
      go_on :
          (q : Request)
          → Agrees s ⊥ (elim q [
            | ask_nothing ↦ say s (top s) (message_of ask_nothing)
            | leave ↦ say s ended (message_of leave)
            | ask_help ↦ record {
              state = s;
              waiting = top s;
              sent = message_of ask_help ∷ [];
              printed = help_lines s.username;
              uploaded = [];
            }
            | ask bs ↦ say s (reading (trim l)) (message_of (ask bs))
          ])
      go_on ask_nothing = record { fits = top-Fits s; raised = inl }
      go_on leave = record { fits = tt; raised = inl }
      go_on ask_help = record { fits = top-Fits s; raised = inl }
      go_on (ask bs) = record { fits = h; raised = inl }

  on_reply-Agrees :
      {G : Type 0} (addr input r : Bytes) → s.is_login ≡ true → Agrees s G (on_reply addr s input r)
  unfolding on_reply
  on_reply-Agrees {G} addr input r h = go_on (react s input r) (react-Lowers s input r)
    where
      go_on :
          (a : Reaction)
          → LowersReaction s a
          → Agrees s G (elim a [
            | send_file to ↦ go s (filing to)
            | confirm ↦ go s confirming
            | receive_text ↦ say s receiving addr
            | continue_with s' ↦ back s'
            | crashed ↦ go s ended
          ])
      go_on (send_file to) k = record { fits = h; raised = inl }
      go_on confirm k = record { fits = h; raised = inl }
      go_on receive_text k = record { fits = h; raised = inl }
      go_on (continue_with s') k = back-Agrees s' k
      go_on crashed k = record { fits = tt; raised = inl }

  on_file-Agrees :
      (sent : Bool) (ls : List Bytes) → s.is_login ≡ true → Agrees s ⊥ (on_file sent s ls)
  unfolding on_file
  on_file-Agrees true ls h = record { fits = h; raised = inl }
  on_file-Agrees false ls h = record { fits = tt; raised = inl }

  on_answer-Agrees : (l : Bytes) → s.is_login ≡ true → Agrees s ⊥ (on_answer s l)
  unfolding on_answer
  on_answer-Agrees [] h = record { fits = top-Fits s; raised = inl }
  on_answer-Agrees (b ∷ bs) h = record { fits = h; raised = inl }

  on_contents-Agrees : (bs : Bytes) → s.is_login ≡ true → Agrees s ⊥ (on_contents s bs)
  unfolding on_contents
  on_contents-Agrees [] h = record { fits = tt; raised = inl }
  on_contents-Agrees (b ∷ bs) h = record { fits = h; raised = inl }

  on_end-Agrees : {G : Type 0} (r : Bytes) → Agrees s G (on_end s r)
  unfolding on_end
  on_end-Agrees r = record { fits = top-Fits s; raised = inl }

  advance-Agrees :
      (addr : Bytes) (connects : ℕ → Bool) (writes : Bool) (w : Waiting) (i : Input)
      → Fits w s.is_login
      → Agrees s (IsGranted i) (advance addr connects writes s w i)
  unfolding advance
  advance-Agrees addr connects writes choosing i h =
      by_line-Agrees _ _ i (record { fits = tt; raised = inl }) (λ l. on_choice-Agrees l h)
  advance-Agrees addr connects writes (naming true) i h =
      by_line-Agrees _ _ i (record { fits = h; raised = inl })
        (λ l. record { fits = h; raised = inl })
  advance-Agrees addr connects writes (naming false) i h =
      by_line-Agrees _ _ i (record { fits = h; raised = inl })
        (λ l. record { fits = h; raised = inl })
  advance-Agrees addr connects writes (giving_password up name) i h =
      by_line-Agrees _ _ i (record { fits = h; raised = inl }) (λ l. on_password-Agrees up name l h)
  advance-Agrees addr connects writes (awaiting up) i h =
      by_reply-Agrees _ _ i (record { fits = h; raised = inl }) (λ r. on_signed-Agrees up r h)
  advance-Agrees addr connects writes typing i h =
      by_line-Agrees _ _ i (record { fits = tt; raised = inl }) (λ l. on_input-Agrees l h)
  advance-Agrees addr connects writes (reading input) i h =
      by_reply-Agrees _ _ i (record { fits = tt; raised = inl })
        (λ r. on_reply-Agrees addr input r h)
  advance-Agrees addr connects writes (filing to) i h =
      by_file-Agrees _ _ i (record { fits = tt; raised = inl })
        (λ ls. on_file-Agrees (send_content connects writes) ls h)
  advance-Agrees addr connects writes confirming i h =
      by_line-Agrees _ _ i (record { fits = tt; raised = inl }) (λ l. on_answer-Agrees l h)
  advance-Agrees addr connects writes receiving i h =
      by_contents-Agrees _ _ i (record { fits = tt; raised = inl }) (λ bs. on_contents-Agrees bs h)
  advance-Agrees addr connects writes finishing i h =
      by_reply-Agrees (go s ended) (on_end s) i (record { fits = tt; raised = inl })
        (λ r. on_end-Agrees r)
  advance-Agrees addr connects writes ended i h = record { fits = tt; raised = inl }

-- The replies hold one that accepts a login.
abbrev pub HasSuccess : List Bytes → Type 0
HasSuccess = Any (λ r. bytes_eq r login_success ≡ true)

granted-HasSuccess :
    (i : Input) (replies : List Bytes) → IsGranted i → HasSuccess (read_reply i replies)
granted-HasSuccess (reply r) replies h = inl h
granted-HasSuccess (line l) replies h = absurd h
granted-HasSuccess (contents bs) replies h = absurd h
granted-HasSuccess (file ls) replies h = absurd h
granted-HasSuccess failed replies h = absurd h

kept-HasSuccess :
    (i : Input) (replies : List Bytes) → HasSuccess replies → HasSuccess (read_reply i replies)
kept-HasSuccess (reply r) replies h = inr h
kept-HasSuccess (line l) replies h = h
kept-HasSuccess (contents bs) replies h = h
kept-HasSuccess (file ls) replies h = h
kept-HasSuccess failed replies h = h

-- In every state that the shell reaches, `is_login` is true where the shell prompts for a command or is in the course of
-- one, and false where it asks for a sign-in; and where it is true, one of the replies that the shell read
-- accepted a login.
pub Runs-Fits :
    (replies : List Bytes) (s : ShellState) (w : Waiting)
    → Runs replies s w
    → Fits w s.is_login × (s.is_login ≡ true → HasSuccess replies)
Runs-Fits replies s w begun = (refl, λ q. cc q)
Runs-Fits _ _ _ (stepped {replies} {s} {w} r addr connects writes i) =
    let (fits, success) = Runs-Fits replies s w r in
    let a = advance-Agrees s addr connects writes w i fits in
    (
      a.fits,
      λ q. elim (a.raised q) [
        | inl before ↦ kept-HasSuccess i replies (success before)
        | inr now ↦ granted-HasSuccess i replies now
      ],
    )
