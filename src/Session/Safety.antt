-- ===== src/Session/Safety.antt =====
-- simdisk/src/main.rs: no task serves a client that has not signed in.
use simple_fs_rust.Base.{
  take, Option-cases, ap, ◌∙◌, codes, Bool-cases, bytes_eq, ℕ, ◌≡◌, Bytes, ◌⊎◌, List, [], ◌∷◌, true,
  some, refl, inl, inr,
}
use simple_fs_rust.State.{
  User, attempted, and_then, Error, Outcome, UserIdGroup, External, World, ok, err, panic, diverge,
}
use simple_fs_rust.Dirent.Remove.{trim}
use simple_fs_rust.Protocol.{socket_buffer_size, login_success, regist_success}
use simple_fs_rust.Session.{
  answer, on_sign_in, Peer, login, on_lines, phase_after, regist, take_turn, lines, Event, Phase,
  received, read_failed, signing_in, serving, sending, closed,
}
use simple_fs_rust.SimpleFs.{sign_in_sfs, sign_up_sfs}
use simple_fs_rust.User.{lookup_user, sign_in}

-- The phases behind a sign-in, until the task returns or asks for the next one.
abbrev pub IsActive : Phase → Type 0
IsActive signing_in = ⊥
IsActive serving = Unit
IsActive (sending is_login msg) = Unit
IsActive closed = ⊥

-- What is read of the message asks for a login with a name and a password that the table of the world has.
pub record SignsIn {B : Type 0} (w : World B) (event : Event) : Type 0 where
  pub bytes : Bytes
  pub first : Bytes
  pub username : Bytes
  pub password : Bytes
  pub others : List Bytes
  pub stored : Bytes × UserIdGroup
  pub event_lem : event ≡ received bytes
  pub lines_lem : lines (take socket_buffer_size bytes) ≡ first ∷ (username ∷ (password ∷ others))
  pub word : bytes_eq (trim first) (codes "login") ≡ true
  pub known : lookup_user username (w.sfs.user_infos.info) ≡ some stored
  pub matches : bytes_eq (stored.0) password ≡ true

abbrev pub Any : {A : Type 0} → (A → Type 0) → List A → Type 0
Any P [] = ⊥
Any P (x ∷ xs) = P x ⊎ Any P xs

sign_in_ok :
    (username password : Bytes) (users : User)
    → sign_in username password users ≡ ok tt
    → (stored : Bytes × UserIdGroup) × (lookup_user username users.info ≡ some stored)
      × (bytes_eq (stored.0) password ≡ true)
unfolding sign_in
sign_in_ok username password users h = elim (Option-cases (lookup_user username users.info)) [
  | inl e ↦ absurd (cc (rw (e, sign_in) at h))
  | inr (v, e) ↦ elim (Bool-cases (bytes_eq (v.0) password)) [
    | inl same ↦ (v, e, same)
    | inr wrong ↦
        let r : err Error.incorrect_password ≡ ok tt = rw (e, wrong, sign_in) at h in absurd (cc r)
  ]
]

module _ {B : Type 0} (ext : External B) (host : Bytes → Outcome Bytes) (fuel : ℕ)
    (error_text : Error → Bytes) where
  -- What one connection went through, newest first: each message with the world that it found. Between two turns
  -- the other tasks may change the world.
  pub data Serves : List (World B × Event) → Phase → Type 0 where
    opened : Serves [] signing_in
    turned :
        {log : List (World B × Event)} {p : Phase}
        → Serves log p
        → (w : World B) (peer : Peer) (event : Event)
        → Serves
            ((w, event) ∷ log)
            (phase_after (take_turn ext host fuel error_text peer p event w).0)

  signed_in_ok :
      (o : Outcome (Unit {0})) (w : World B)
      → IsActive (
          phase_after
            (and_then (attempted (o, w)) (answer ext host fuel error_text login_success serving)).0)
      → o ≡ ok tt
  signed_in_ok (ok tt) w h = refl
  signed_in_ok (err e) w h = absurd h
  signed_in_ok panic w h = absurd h
  signed_in_ok diverge w h = absurd h

  login-IsActive :
      (ls : List Bytes) (w : World B)
      → IsActive (phase_after (login ext host fuel error_text ls w).0)
      → (username : Bytes) × (password : Bytes) × (others : List Bytes) × (stored : Bytes
          × UserIdGroup)
        × (ls ≡ username ∷ (password ∷ others))
        × (lookup_user username (w.sfs.user_infos.info) ≡ some stored)
        × (bytes_eq (stored.0) password ≡ true)
  unfolding login sign_in_sfs
  login-IsActive [] w h = absurd h
  login-IsActive (l ∷ []) w h = absurd h
  login-IsActive (l ∷ (m ∷ ls)) w h =
      let users = w.sfs.user_infos in
      let (stored, known, same) = sign_in_ok l m users (signed_in_ok (sign_in l m users) w h) in
      (l, m, ls, stored, refl, known, same)

  registered_inactive :
      (p : Outcome (Unit {0}) × World B)
      → ¬ (
          IsActive (
            phase_after
              (and_then
                (attempted p)
                (answer ext host fuel error_text regist_success signing_in)).0))
  registered_inactive (ok _, w) h = h
  registered_inactive (err e, w) h = h
  registered_inactive (panic, w) h = h
  registered_inactive (diverge, w) h = h

  regist_inactive :
      (ls : List Bytes) (w : World B)
      → ¬ (IsActive (phase_after (regist ext host fuel error_text ls w).0))
  unfolding regist
  regist_inactive [] w h = h
  regist_inactive (l ∷ []) w h = h
  regist_inactive (l ∷ (m ∷ ls)) w h = registered_inactive (sign_up_sfs ext l m w) h

  on_lines-IsActive :
      (bs : Bytes) (ls : List Bytes) (w : World B)
      → lines (take socket_buffer_size bs) ≡ ls
      → IsActive (phase_after (on_lines ext host fuel error_text ls w).0)
      → SignsIn w (received bs)
  unfolding on_lines
  on_lines-IsActive bs [] w e h = absurd h
  on_lines-IsActive bs (l ∷ ls) w e h = elim (Bool-cases (bytes_eq (trim l) (codes "login"))) [
    | inl word ↦
        let (username, password, others, stored, parts, known, same) =
          login-IsActive ls w (rw word at h) in
        record {
          bytes = bs;
          first = l;
          username = username;
          password = password;
          others = others;
          stored = stored;
          event_lem = refl;
          lines_lem = e ∙ ap (λ r. l ∷ r) parts;
          word = word;
          known = known;
          matches = same;
        }
    | inr other_word ↦ elim (Bool-cases (bytes_eq (trim l) (codes "regist"))) [
      | inl up ↦ absurd (regist_inactive ls w (rw (other_word, up) at h))
      | inr invalid ↦ let r : ⊥ = rw (other_word, invalid) at h in absurd r
    ]
  ]

  take_turn-IsActive :
      (peer : Peer) (p : Phase) (event : Event) (w : World B)
      → IsActive (phase_after (take_turn ext host fuel error_text peer p event w).0)
      → IsActive p ⊎ SignsIn w event
  unfolding take_turn on_sign_in
  take_turn-IsActive peer signing_in read_failed w h = absurd h
  take_turn-IsActive peer signing_in (received bs) w h =
      inr (on_lines-IsActive bs (lines (take socket_buffer_size bs)) w refl h)
  take_turn-IsActive peer serving event w h = inl tt
  take_turn-IsActive peer (sending is_login msg) event w h = inl tt
  take_turn-IsActive peer closed event w h = absurd h

  -- A connection that is served commands has signed in: one of the messages it sent was a login with a name and
  -- a password that the table of users had at that moment, whatever the other tasks did in between.
  pub Serves-SignsIn :
      (log : List (World B × Event)) (p : Phase)
      → Serves log p
      → IsActive p
      → Any (λ m. SignsIn m.0 m.1) log
  Serves-SignsIn log p opened h = absurd h
  Serves-SignsIn _ q (turned {p} r w peer event) h = elim (take_turn-IsActive peer p event w h) [
    | inl before ↦ inr (Serves-SignsIn _ p r before)
    | inr now ↦ inl now
  ]
