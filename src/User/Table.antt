-- ===== src/User/Table.antt =====
-- simdisk/src/user.rs: signing up and signing in.
use simple_fs_rust.Base.{
  ==_self, bytes_eq_self, ◌%◌, ◌^◌, ◌+◌, ◌≢◌, inr, bytes_eq_iff, inl, ◌==◌, arith, bytes_eq, some,
  Bool-cases, if◌then◌else◌, none, ◌≡◌, ◌<◌, ◌≤◌, Bytes, ℕ, refl, [], ◌∷◌,
}
use native.Mathlib.Nat.{mod-eq_of_lt}
use simple_fs_rust.State.{ok, User, UserIdGroup, UserInfo}
use simple_fs_rust.Cache.Read.{All-map, All}
use simple_fs_rust.User.{get_user_name, sign_in, add_user, find_uid, insert_user, lookup_user}

lookup_user-insert_user :
    (name other : Bytes) (v : Bytes × UserIdGroup) (info : UserInfo)
    → lookup_user other (insert_user name v info)
      ≡ (if bytes_eq name other then some v else lookup_user other info)
lookup_user-insert_user name other v [] = refl
lookup_user-insert_user name other v ((n, x) ∷ info) = ground (
  arith,
  lookup_user-insert_user name other v info,
  bytes_eq_iff n name,
  bytes_eq_iff name other,
  bytes_eq_iff n other,
)

-- A new user stands behind the others.
find_uid-insert_user :
    (uid : ℕ) (name : Bytes) (v : Bytes × UserIdGroup) (info : UserInfo)
    → lookup_user name info ≡ none
    → find_uid uid (insert_user name v info) ≡ (elim (find_uid uid info) [
      | some n ↦ some n
      | none ↦ if v.1.uid == uid then some name else none
    ])
find_uid-insert_user uid name v [] h = refl
find_uid-insert_user uid name v ((n, x) ∷ info) h =
    ground (arith, find_uid-insert_user uid name v info)

-- All ids in the table are below `n`.
abbrev pub UidsBelow : ℕ → UserInfo → Type 0
UidsBelow n info = All (λ (e : Bytes × (Bytes × UserIdGroup)). e.1.1.uid < n) info

find_uid_above :
    (n uid : ℕ) (info : UserInfo) → UidsBelow n info → n ≤ uid → find_uid uid info ≡ none
find_uid_above n uid [] h le = refl
find_uid_above n uid ((name, v) ∷ info) h le = ground (arith, find_uid_above n uid info h.1, h.0)

insert_user-UidsBelow :
    (n m : ℕ) (name : Bytes) (v : Bytes × UserIdGroup) (info : UserInfo)
    → UidsBelow n info
    → v.1.uid < m
    → n ≤ m
    → UidsBelow m (insert_user name v info)
insert_user-UidsBelow n m name v [] h p q = (p, tt)
insert_user-UidsBelow n m name v ((k, x) ∷ info) h p q = elim (Bool-cases (bytes_eq k name)) [
  | inl same ↦ rw same (p, All-map (λ e r. omega arith) info h.1)
  | inr differ ↦ rw differ (omega (arith, h.0), insert_user-UidsBelow n m name v info h.1 p q)
]

-- What signing up a new user does to the table.
pub record SignsUp (name password : Bytes) (users users' : User) : Type 0 where
  pub can_sign_in : sign_in name password users' ≡ ok tt
  pub others_sign_in :
      (other p : Bytes) → name ≢ other → sign_in other p users' ≡ sign_in other p users
  pub is_uid : get_user_name users.max_id users' ≡ ok name
  pub other_uids :
      (uid : ℕ) → uid ≢ users.max_id → get_user_name uid users' ≡ get_user_name uid users
  pub below : UidsBelow users'.max_id users'.info

-- Where the name is new, the ids in the table are below the next id and this is not the last `u16`,
-- signing up succeeds; then the user can sign in with this password, the others sign in as before,
-- the new id belongs to the new name, every other id to the name it had, and the ids are below the
-- next id again.
pub add_user_new :
    (name password : Bytes) (users : User)
    → lookup_user name users.info ≡ none
    → UidsBelow users.max_id users.info
    → users.max_id + 1 < 2 ^ 16
    → (users' : User) × (add_user name password users ≡ ok users')
      × SignsUp name password users users'
unfolding add_user sign_in get_user_name
add_user_new name password users missing below room =
    let v : Bytes × UserIdGroup = (password, record { gid = 1; uid = users.max_id }) in
    let info' = insert_user name v users.info in
    let found = λ (other : Bytes). lookup_user-insert_user name other v users.info in
    let uids = λ (uid : ℕ). find_uid-insert_user uid name v users.info missing in
    let next : (users.max_id + 1) % 2 ^ 16 ≡ users.max_id + 1 = mod-eq_of_lt room in
    (
      record { info = info'; max_id = (users.max_id + 1) % 2 ^ 16 },
      rw missing refl,
      record {
        can_sign_in = rw (found name, bytes_eq_self name, bytes_eq_self password, sign_in) refl;
        others_sign_in =
            λ other p ne. rw (found other, sign_in) (ground (arith, bytes_eq_iff name other));
        is_uid =
            rw
              (
                uids users.max_id,
                find_uid_above users.max_id users.max_id users.info below (omega arith),
                ==_self users.max_id,
                get_user_name,
              )
              refl;
        other_uids = λ uid ne. rw (uids uid, get_user_name) (ground (arith));
        below = rw next (
            insert_user-UidsBelow users.max_id (users.max_id + 1) name v users.info below
              (omega arith) (omega arith));
      },
    )
