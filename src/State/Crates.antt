-- ===== src/State/Crates.antt =====
-- The crates that the program calls, as records of functions: `bitmaps::Bitmap<8>` and `bincode`.
-- What is relied on is stated by the predicates, which theorems take as hypotheses.
use simple_fs_rust.Base.{
  ℕ, zero, suc, ◌+◌, ◌<◌, ◌==◌, ◌≡◌, Bool, true, false, Option, none, some, if◌then◌else◌, Bytes,
  length,
}
use simple_fs_rust.State.Data.{Inode, DirEntry, User, UserInfo, SuperBlock}

-- `set` returns the new bitmap and the bit that was there.
pub record BitOps (B : Type 0) : Type 0 where
  pub get : B → ℕ → Bool
  pub set : B → ℕ → Bool → B × Bool
  pub first_false_index : B → Option ℕ
  pub len : B → ℕ
  pub from_value : ℕ → B
  pub into_value : B → ℕ

abbrev pub count_below : ℕ → (ℕ → Bool) → ℕ
count_below zero p = 0
count_below (suc n) p = (if p n then 1 else 0) + count_below n p

-- The documented behaviour of `bitmaps::Bitmap<8>`.
pub record IsBitmap8 {B : Type 0} (ops : BitOps B) : Type 0 where
  pub get-set :
      (b : B) (i j : ℕ) (v : Bool)
      → i < 8
      → j < 8
      → ops.get (ops.set b i v).0 j ≡ (if i == j then v else ops.get b j)
  pub set_previous : (b : B) (i : ℕ) (v : Bool) → i < 8 → (ops.set b i v).1 ≡ ops.get b i
  pub first_false-some :
      (b : B) (i : ℕ) → ops.first_false_index b ≡ some i → (i < 8) × (ops.get b i ≡ false)
  pub first_false-none :
      (b : B) → ops.first_false_index b ≡ none → (j : ℕ) → j < 8 → ops.get b j ≡ true
  pub len_lem : (b : B) → ops.len b ≡ count_below 8 (ops.get b)
  pub from_value-into_value : (b : B) → ops.from_value (ops.into_value b) ≡ b

-- `bincode::serialize` and `bincode::deserialize` at one type; `none` is their error.
pub record Codec (T : Type 0) : Type 0 where
  pub to_bytes : T → Option Bytes
  pub of_bytes : Bytes → Option T

-- The value `x` is written as the `size` bytes `bs`, and read back from them.
pub record Encodes {T : Type 0} (c : Codec T) (size : ℕ) (x : T) (bs : Bytes) : Type 0 where
  pub written : c.to_bytes x ≡ some bs
  pub read_back : c.of_bytes bs ≡ some x
  pub size_lem : length bs ≡ size

pub record External (B : Type 0) : Type 0 where
  pub bits : BitOps B
  pub inode_codec : Codec Inode
  pub dirent_codec : Codec DirEntry
  pub dirents_codec : Codec (DirEntry × DirEntry)
  pub block_id_codec : Codec ℕ
  pub usize_codec : Codec ℕ
  pub user_codec : Codec User
  pub super_block_codec : Codec SuperBlock
  -- The texts that `format!` makes: of `info` from the counts of inodes and blocks, of the table of
  -- users, and of the details of an inode, under a mode and the name of its maker.
  pub info_text : ℕ × ℕ → ℕ × ℕ → Bytes
  pub users_text : UserInfo → Bytes
  pub detail_text : Inode → Bool → ℕ → Bytes → Bytes
