-- ===== src/Session.antt =====
-- simdisk/src/main.rs: the task that serves one connection, cut at the reads of its socket, and the
-- server with all its tasks. A `read` takes the first 128 of the bytes that wait at the socket; what is
-- left of them is part of the next event. The bytes that it takes are taken to be valid UTF-8, which
-- `from_utf8_lossy` leaves as it is. Writes to the socket succeed.
pub mod Sound
pub mod Safety
use simple_fs_rust.Base.{
  take, ℕ, ◌==◌, ◌&&◌, Bool, true, false, Option, none, some, List, [], ◌∷◌, ◌++◌, if◌then◌else◌,
  Bytes, codes, bytes_eq, length,
}
use simple_fs_rust.State.{
  External, World, Error, Outcome, ok, err, panic, diverge, M, pure, crash, gets, unwrap, attempt,
  on_some, ◌>>=◌, ◌>>◌,
}
use simple_fs_rust.Cache.{is_sync_exit}
use simple_fs_rust.Command.{do_command}
use simple_fs_rust.Dirent.{split_on, push_front}
use simple_fs_rust.Dirent.Remove.{is_space, trim, remove_nul}
use simple_fs_rust.Name.{is_nil}
use simple_fs_rust.Protocol.{
  socket_buffer_size, exit_msg, empty_input, login_success, regist_success, receive_contents,
  command_finished, error_message_prefix, send_content,
}
use simple_fs_rust.SimpleFs.{start, sign_in_sfs, sign_up_sfs, sync_all_block_cache}
use simple_fs_rust.Syscall.{scheduled_sync, Client}

-- `str::lines`: the parts between line feeds, without a last one that is empty and without a
-- carriage return at the end of each.
abbrev pub strip_cr : Bytes → Bytes
strip_cr [] = []
strip_cr (b ∷ bs) = if (b == 13) && is_nil bs then [] else b ∷ strip_cr bs

abbrev pub stripped : List Bytes → List Bytes
stripped [] = []
stripped (l ∷ []) = if is_nil l then [] else l ∷ []
stripped (l ∷ (m ∷ ls)) = strip_cr l ∷ stripped (m ∷ ls)

abbrev pub lines : Bytes → List Bytes
lines bs = stripped (split_on 10 bs)

-- `str::split_whitespace`, for the white space of ASCII.
abbrev pub split_spaces : Bytes → List Bytes
split_spaces [] = [] ∷ []
split_spaces (b ∷ bs) = if is_space b then [] ∷ split_spaces bs else push_front b (split_spaces bs)

abbrev pub without_nil : List Bytes → List Bytes
without_nil [] = []
without_nil (w ∷ ws) = if is_nil w then without_nil ws else w ∷ without_nil ws

abbrev pub split_whitespace : Bytes → List Bytes
split_whitespace bs = without_nil (split_spaces bs)

-- What waits at the socket when a `read` returns; no bytes where the peer has closed it.
pub data Event : Type 0 where
  received : Bytes → Event
  read_failed : Event

-- Where a task waits: for a sign-in, for a command, or for the address to send a message to; the flag is
-- `is_login`.
pub data Phase : Type 0 where
  signing_in : Phase
  serving : Phase
  sending : Bool → Bytes → Phase
  closed : Phase

-- The bytes written to the socket, and the contents sent to the client's address.
pub record Turn : Type 0 where
  pub phase : Phase
  pub replies : List Bytes
  pub contents : List Bytes

-- What the client and the network do in the course of a turn.
pub record Peer : Type 0 where
  pub client : Client
  pub connects : ℕ → Bool
  pub writes : Bool

-- The top of the inner loop.
abbrev pub next_phase : Bool → Phase
next_phase true = serving
next_phase false = signing_in

abbrev pub turn : Phase → List Bytes → Turn
turn p replies = record { phase = p; replies = replies; contents = [] }

-- `args[0] == "root" && args[2] == "formatting"`, where a missing word is an index out of range.
abbrev pub logs_out : List Bytes → Outcome Bool
logs_out [] = panic
logs_out (username ∷ (cwd ∷ (w ∷ ws))) =
    ok (bytes_eq username (codes "root") && bytes_eq w (codes "formatting"))
logs_out (username ∷ ws) = if bytes_eq username (codes "root") then panic else ok false

module _ {B : Type 0} (ext : External B) (host : Bytes → Outcome Bytes) (fuel : ℕ)
    (error_text : Error → Bytes) where
  -- The reply to a call that signs in or up, and what follows.
  abbrev pub answer : Bytes → Phase → Outcome (Unit {0}) → M B Turn
  answer success p (ok _) = pure (turn p (success ∷ []))
  answer success p (err e) = pure (turn signing_in (error_text e ∷ []))
  answer success p panic = crash
  answer success p diverge = crash

  -- `login` and `regist`, on the lines behind the first.
  unfoldable pub login : List Bytes → M B Turn
  login (username ∷ (password ∷ ws)) = do
    r ← attempt (sign_in_sfs ext username password)
    answer login_success serving r
  login _ = crash

  pub regist : List Bytes → M B Turn
  regist (username ∷ (password ∷ ws)) = do
    r ← attempt (sign_up_sfs ext username password)
    answer regist_success signing_in r
  regist _ = crash

  -- The branch `!is_login`: an empty message has no first line.
  unfoldable pub on_lines : List Bytes → M B Turn
  on_lines [] = crash
  on_lines (l ∷ ls) =
      if bytes_eq (trim l) (codes "login")
      then login ls
      else if bytes_eq (trim l) (codes "regist")
      then regist ls
      else pure (turn closed [])

  unfoldable pub on_sign_in : Event → M B Turn
  on_sign_in read_failed = pure (turn closed [])
  on_sign_in (received bs) = on_lines (lines (take socket_buffer_size bs))

  -- What follows the result of a command.
  abbrev pub reply : Bool → Outcome (Option Bytes) → M B Turn
  reply is_login (ok none) = pure (turn (next_phase is_login) (command_finished ∷ []))
  reply is_login (ok (some msg)) = pure (turn (sending is_login msg) (receive_contents ∷ []))
  reply is_login (err e) =
      pure (turn (sending is_login (error_message_prefix ++ error_text e)) (receive_contents ∷ []))
  reply is_login panic = crash
  reply is_login diverge = crash

  abbrev pub run_words : Client → List Bytes → Outcome Bool → M B Turn
  run_words client args (ok formats) = do
    r ← attempt (do_command ext host fuel args client)
    reply (if formats then false else true) r
  run_words client args _ = crash

  unfoldable pub on_command : Peer → Event → M B Turn
  on_command peer read_failed = pure (turn closed [])
  on_command peer (received []) = pure (turn closed [])
  on_command peer (received (b ∷ bs)) =
      let command = trim (remove_nul (take socket_buffer_size (b ∷ bs))) in
      if bytes_eq command exit_msg
      then (do
        on_exit ← gets (λ w. is_sync_exit w.manager)
        if on_exit
            then (do unwrap (sync_all_block_cache ext); pure (turn closed []))
            else pure (turn closed []))
      else if bytes_eq command empty_input
      then pure (turn serving [])
      else run_words (peer.client) (split_whitespace command) (logs_out (split_whitespace command))

  pub on_address : Peer → Bool → Bytes → Event → M B Turn
  on_address peer is_login msg read_failed = pure (turn closed [])
  on_address peer is_login msg (received []) = pure (turn closed [])
  on_address peer is_login msg (received (b ∷ bs)) =
      if send_content (peer.connects) (peer.writes)
      then pure (record {
        phase = next_phase is_login;
        replies = command_finished ∷ [];
        contents = msg ∷ [];
      })
      else pure (turn closed [])

  -- One turn of the task, from a read to the next.
  unfoldable pub take_turn : Peer → Phase → Event → M B Turn
  take_turn peer signing_in event = on_sign_in event
  take_turn peer serving event = on_command peer event
  take_turn peer (sending is_login msg) event = on_address peer is_login msg event
  take_turn peer closed event = pure (turn closed [])

-- A panic ends the task, but not the server. A call that does not end is taken to end it too.
abbrev pub phase_after : Outcome Turn → Phase
phase_after (ok t) = t.phase
phase_after _ = closed

-- The tasks of the server, and the state that they share.
pub record Server (B : Type 0) : Type 0 where
  pub tasks : List Phase
  pub world : World B

module _ {B : Type 0} (ext : External B) (host : Bytes → Outcome Bytes) (fuel : ℕ)
    (error_text : Error → Bytes) where
  infix 40 ◌⟶◌
  -- A step of the server: a client connects, a task takes a turn, the task of "tick" wakes (here in
  -- any state), or time passes. The turns of the tasks stand in any order.
  pub data ◌⟶◌ : Server B → Server B → Type 0 where
    accept : (s : Server B) → s ⟶ record s { tasks = signing_in ∷ s.tasks }
    serve :
        (before after : List Phase) (p : Phase) (w : World B) (peer : Peer) (event : Event)
        → record { tasks = before ++ (p ∷ after); world = w } ⟶ record {
          tasks =
              before ++ (phase_after (take_turn ext host fuel error_text peer p event w).0 ∷ after);
          world = (take_turn ext host fuel error_text peer p event w).1;
        }
    tick : (s : Server B) → s ⟶ record s { world = (scheduled_sync ext s.world).1 }
    wait : (s : Server B) (now : ℕ) → s ⟶ record s { world = record (s.world) { clock = now } }

  -- The states that the loop of `main` leads to, from the world in which the listener is bound.
  pub data Reaches (w : World B) : Server B → Type 0 where
    started : Reaches w (record { tasks = []; world = w })
    then : {s t : Server B} → Reaches w s → s ⟶ t → Reaches w t
