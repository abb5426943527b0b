-- ===== src/Session/Sound.antt =====
-- simdisk/src/main.rs: the invariant of the state holds whatever the clients of the server do.
use simple_fs_rust.Base.{take, List, Option, Bool, ℕ, Bytes, [], ◌∷◌, none, some}
use simple_fs_rust.State.{World, Error, Outcome, IsBitmap8, External, ok, err, panic, diverge}
use simple_fs_rust.Command.{do_command}
use simple_fs_rust.Frame.{frame_rules, Within-crash, Within-pure, Within, IsFrame}
use simple_fs_rust.Frame.Commands.{scheduled_sync-Within, sync_all_block_cache-Within}
use simple_fs_rust.Frame.Sound.{KeepsSound-IsFrame, KeepsSound, IsSound}
use simple_fs_rust.Frame.Sound.Bitmaps.{KeepsSound-IsCommandFrame}
use simple_fs_rust.Frame.Sound.Commands.{do_command-IsSound, sign_up_sfs-Within}
use simple_fs_rust.Protocol.{socket_buffer_size}
use simple_fs_rust.Session.{
  lines, on_address, on_command, on_lines, on_sign_in, regist, run_words, reply, answer, take_turn,
  Event, login, Phase, Reaches, ◌⟶◌, Peer, Server, started, then, accept, serve, tick, wait,
  received, read_failed, signing_in, serving, sending, closed,
}
use simple_fs_rust.SimpleFs.{sync_all_block_cache, sign_in_sfs, sign_up_sfs}
use simple_fs_rust.Syscall.{Client}

module _ {B : Type 0} (ext : External B) (host : Bytes → Outcome Bytes) (fuel : ℕ)
    (error_text : Error → Bytes) {R : World B → World B → Type 0} (F : IsFrame R) where
  answer-Within :
      (success : Bytes) (p : Phase) (r : Outcome (Unit {0}))
      → Within R (answer ext host fuel error_text success p r)
  answer-Within success p (ok _) = Within-pure F _
  answer-Within success p (err e) = Within-pure F _
  answer-Within success p panic = Within-crash F
  answer-Within success p diverge = Within-crash F

  reply-Within :
      (is_login : Bool) (r : Outcome (Option Bytes))
      → Within R (reply ext host fuel error_text is_login r)
  reply-Within is_login (ok none) = Within-pure F _
  reply-Within is_login (ok (some msg)) = Within-pure F _
  reply-Within is_login (err e) = Within-pure F _
  reply-Within is_login panic = Within-crash F
  reply-Within is_login diverge = Within-crash F

  login-Within : (ls : List Bytes) → Within R (login ext host fuel error_text ls)
  unfolding login sign_in_sfs
  login-Within [] = Within-crash F
  login-Within (l ∷ []) = Within-crash F
  login-Within (l ∷ (m ∷ ls)) = search (frame_rules, F, answer-Within) depth 9

  module _ (signs_up : (username password : Bytes) → Within R (sign_up_sfs ext username password))
      (runs : (args : List Bytes) (client : Client)
        → Within R (do_command ext host fuel args client))
      (syncs : Within R (sync_all_block_cache ext)) where
    regist-Within : (ls : List Bytes) → Within R (regist ext host fuel error_text ls)
    unfolding regist
    regist-Within [] = Within-crash F
    regist-Within (l ∷ []) = Within-crash F
    regist-Within (l ∷ (m ∷ ls)) = search (frame_rules, F, signs_up, answer-Within) depth 9

    on_lines-Within : (ls : List Bytes) → Within R (on_lines ext host fuel error_text ls)
    unfolding on_lines
    on_lines-Within [] = Within-crash F
    on_lines-Within (l ∷ ls) = search (frame_rules, F, login-Within, regist-Within) depth 9

    run_words-Within :
        (client : Client) (args : List Bytes) (o : Outcome Bool)
        → Within R (run_words ext host fuel error_text client args o)
    run_words-Within client args (ok formats) = search (frame_rules, F, runs, reply-Within) depth 9
    run_words-Within client args (err e) = Within-crash F
    run_words-Within client args panic = Within-crash F
    run_words-Within client args diverge = Within-crash F

    on_command-Within :
        (peer : Peer) (event : Event) → Within R (on_command ext host fuel error_text peer event)
    unfolding on_command
    on_command-Within peer read_failed = Within-pure F _
    on_command-Within peer (received []) = Within-pure F _
    on_command-Within peer (received (b ∷ bs)) = search (frame_rules, F, run_words-Within) depth 12

    on_address-Within :
        (peer : Peer) (is_login : Bool) (msg : Bytes) (event : Event)
        → Within R (on_address ext host fuel error_text peer is_login msg event)
    unfolding on_address
    on_address-Within peer is_login msg read_failed = Within-pure F _
    on_address-Within peer is_login msg (received []) = Within-pure F _
    on_address-Within peer is_login msg (received (b ∷ bs)) = search (frame_rules, F) depth 8

    -- A turn of a task, for a frame of its calls.
    pub take_turn-Within :
        (peer : Peer) (p : Phase) (event : Event)
        → Within R (take_turn ext host fuel error_text peer p event)
    unfolding take_turn on_sign_in
    take_turn-Within peer signing_in read_failed = Within-pure F _
    take_turn-Within peer signing_in (received bs) =
        on_lines-Within (lines (take socket_buffer_size bs))
    take_turn-Within peer serving event = on_command-Within peer event
    take_turn-Within peer (sending is_login msg) event = on_address-Within peer is_login msg event
    take_turn-Within peer closed event = Within-pure F _

module _ {B : Type 0} (ext : External B) (laws : IsBitmap8 (ext.bits))
    (host : Bytes → Outcome Bytes) (fuel : ℕ) (error_text : Error → Bytes) where
  turn-IsSound :
      (peer : Peer) (p : Phase) (event : Event) (w : World B)
      → IsSound w
      → IsSound (take_turn ext host fuel error_text peer p event w).1
  turn-IsSound peer p event w s = (whole.run w).keep s
    where
      whole : Within KeepsSound (take_turn ext host fuel error_text peer p event)
      whole =
          take_turn-Within ext host fuel error_text KeepsSound-IsFrame (sign_up_sfs-Within ext laws)
            (λ args client. record {
              run = λ v. record { keep = do_command-IsSound ext laws host fuel args client v };
            })
            (sync_all_block_cache-Within ext (KeepsSound-IsCommandFrame ext laws)) peer p event

  step-IsSound :
      (s t : Server B) → ◌⟶◌ ext host fuel error_text s t → IsSound s.world → IsSound t.world
  step-IsSound s t (accept _) h = h
  step-IsSound s t (serve before after p w peer event) h = turn-IsSound peer p event w h
  step-IsSound s t (tick _) h =
      ((scheduled_sync-Within ext (KeepsSound-IsCommandFrame ext laws)).run (s.world)).keep h
  step-IsSound s t (wait _ now) h = record { coherent = h.coherent; ready = h.ready }

  -- In every state that the server reaches from a sound world, with any number of clients whose turns
  -- come in any order, whatever they send and however their calls end, the cache agrees with the host's
  -- file and both bitmaps can be searched.
  pub Reaches-IsSound :
      (w : World B) (s : Server B)
      → Reaches ext host fuel error_text w s
      → IsSound w
      → IsSound s.world
  Reaches-IsSound w s started h = h
  Reaches-IsSound w t (then {s} r step) h = step-IsSound s t step (Reaches-IsSound w s r h)
