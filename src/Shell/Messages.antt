-- ===== src/Shell/Messages.antt =====
-- shell/src/main.rs and simdisk/src/main.rs: what the server reads of a command that the shell makes.
use simple_fs_rust.Base.{
  take_all, ◌≤◌, length, take, bytes_eq→eq, ap, ◌∙◌, append_assoc, sym, Bool-cases, codes, bytes_eq,
  ◌++◌, ◌≢◌, ◌≡◌, ℕ, List, Bytes, [], ◌∷◌, false, refl, inl, inr,
}
use simple_fs_rust.State.{Error, Outcome, External}
use simple_fs_rust.Dirent.Remove.{remove_nul, trim}
use simple_fs_rust.Protocol.{socket_buffer_size, empty_input, exit_msg}
use simple_fs_rust.Session.{logs_out, run_words, Peer, on_command, split_whitespace, received}
use simple_fs_rust.Shell.Client.{command_message}
use simple_fs_rust.Shell.Words.{
  split_whitespace-append, split_whitespace-trim, NoNul-append, remove_nul_self, NoNul, IsWord,
}

-- The words that the server reads of a command: the name of the user, the directory, and the words of the
-- input.
words_of_message :
    (name cwd input : Bytes)
    → IsWord name
    → IsWord cwd
    → NoNul name
    → NoNul cwd
    → NoNul input
    → split_whitespace (trim (remove_nul (command_message (name ++ codes "\n") cwd input)))
      ≡ name ∷ (cwd ∷ split_whitespace input)
unfolding command_message
words_of_message name cwd input hn hc kn kc ki =
    let message = name ++ (10 ∷ (32 ∷ (cwd ++ (32 ∷ input)))) in
    let whole : command_message (name ++ codes "\n") cwd input ≡ message =
      append_assoc name (codes "\n") (codes " " ++ (cwd ++ (codes " " ++ input))) in
    let clean : remove_nul message ≡ message = remove_nul_self message (
      NoNul-append name (10 ∷ (32 ∷ (cwd ++ (32 ∷ input)))) kn
        (refl, (refl, NoNul-append cwd (32 ∷ input) kc (refl, ki)))) in
    ap (λ m. split_whitespace (trim (remove_nul m))) whole
    ∙ ap (λ m. split_whitespace (trim m)) clean
    ∙ split_whitespace-trim message
    ∙ split_whitespace-append name (32 ∷ (cwd ++ (32 ∷ input))) 10 hn refl
    ∙ ap (λ ws. name ∷ ws) (split_whitespace-append cwd input 32 hc refl)

module _ {B : Type 0} (ext : External B) (host : Bytes → Outcome Bytes) (fuel : ℕ)
    (error_text : Error → Bytes) where
  on_words :
      (peer : Peer) (b : ℕ) (bs command : Bytes)
      → trim (remove_nul (take socket_buffer_size (b ∷ bs))) ≡ command
      → bytes_eq command exit_msg ≡ false
      → bytes_eq command empty_input ≡ false
      → on_command ext host fuel error_text peer (received (b ∷ bs))
        ≡ run_words ext host fuel error_text
            (peer.client)
            (split_whitespace command)
            (logs_out (split_whitespace command))
  unfolding on_command
  on_words peer b bs command e h k = rw (e, h, k) refl

-- A text with three words is neither `EXIT` nor `EMPTY INPUT`.
not_word :
    (command text : Bytes) (ws vs : List Bytes)
    → split_whitespace command ≡ ws
    → split_whitespace text ≡ vs
    → ws ≢ vs
    → bytes_eq command text ≡ false
not_word command text ws vs e f ne = elim (Bool-cases (bytes_eq command text)) [
  | inl same ↦ absurd (ne (sym e ∙ ap split_whitespace (bytes_eq→eq command text same) ∙ f))
  | inr differ ↦ differ
]

module _ {B : Type 0} (ext : External B) (host : Bytes → Outcome Bytes) (fuel : ℕ)
    (error_text : Error → Bytes) where
  on_message :
      (peer : Peer) (bs command : Bytes)
      → bs ≢ []
      → length bs ≤ socket_buffer_size
      → trim (remove_nul bs) ≡ command
      → bytes_eq command exit_msg ≡ false
      → bytes_eq command empty_input ≡ false
      → on_command ext host fuel error_text peer (received bs)
        ≡ run_words ext host fuel error_text
            (peer.client)
            (split_whitespace command)
            (logs_out (split_whitespace command))
  on_message peer [] command ne short e h k = absurd (ne refl)
  on_message peer (b ∷ bs) command ne short e h k =
      on_words ext host fuel error_text peer b bs command
        (ap (λ m. trim (remove_nul m)) (take_all socket_buffer_size (b ∷ bs) short) ∙ e) h k

  -- The message that the shell makes of a name, a directory and an input reaches `do_command` as these words: for
  -- a name and a directory without white space, and an input with at least one word, all without the
  -- byte 0, and a message that fits into the buffer of the server, the server's turn is the run of the name, the directory and the words of the input.
  pub on_command-command_message :
      (peer : Peer) (name cwd input w : Bytes) (ws : List Bytes)
      → IsWord name
      → IsWord cwd
      → NoNul name
      → NoNul cwd
      → NoNul input
      → split_whitespace input ≡ w ∷ ws
      → length (command_message (name ++ codes "\n") cwd input) ≤ socket_buffer_size
      → on_command ext host fuel error_text peer
          (received (command_message (name ++ codes "\n") cwd input))
        ≡ run_words ext host fuel error_text
            (peer.client)
            (name ∷ (cwd ∷ (w ∷ ws)))
            (logs_out (name ∷ (cwd ∷ (w ∷ ws))))
  on_command-command_message peer name cwd input w ws hn hc kn kc ki e short =
      let message = command_message (name ++ codes "\n") cwd input in
      let words = words_of_message name cwd input hn hc kn kc ki ∙ ap (λ r. name ∷ (cwd ∷ r)) e in
      on_message peer message (trim (remove_nul message))
        (λ q.
          let none_left = sym words ∙ ap (λ m. split_whitespace (trim (remove_nul m))) q in
          cc none_left)
        short refl
        (not_word (trim (remove_nul message)) exit_msg _ (exit_msg ∷ []) words refl (λ q. cc q))
        (not_word (trim (remove_nul message)) empty_input _ (codes "EMPTY" ∷ (codes "INPUT" ∷ []))
          words refl (λ q. cc q))
      ∙ ap (λ r. run_words ext host fuel error_text (peer.client) r (logs_out r)) words
