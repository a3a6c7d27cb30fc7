-- ===== src/Fuse.antt =====
-- src/fuse/spfuse.cpp: the operations that go to the client. A path comes without its first
-- character; `errno` is the value that the variable has, not zero.
use sponge_bob.Prelude.{
  ℕ, zero, suc, ◌-◌, ◌^◌, String, Bool, true, false, Option, none, some, List, [], ◌∷◌, ◌==◌,
  if◌then◌else◌,
}
use text.Mathlib.Text
use sponge_bob.Result.{Result, ok, ◌>>=◌}
use sponge_bob.Rdma.Types.{ℤ, pos, negsuc}
use sponge_bob.MetaServer.Messages.{DentryInfo}
use sponge_bob.MetaClient
use sponge_bob.MetaClient.{Stub}
use sponge_bob.Client
use sponge_bob.Client.{Remote}

abbrev pub neg : ℕ → ℤ
neg zero = pos 0
neg (suc n) = negsuc n

-- `res == -1`
abbrev is_minus_one : ℤ → Bool
is_minus_one (pos n) = false
is_minus_one (negsuc n) = n == 0

-- An `int` as `fi->fh`, a `uint64_t`.
abbrev file_handle : ℤ → ℕ
file_handle (pos n) = n
file_handle (negsuc n) = 2 ^ 64 - 1 - n

module _ {W : Type 0} (stub : Stub W) (errno : ℕ) where
  -- `fuse_open`: the result, and `fi->fh` if it is set.
  unfoldable pub fuse_open : String → W → Result ((ℤ × Option ℕ) × W)
  fuse_open new_path w = do
    (res, w') ← MetaClient.open_file stub new_path w
    ok ((if is_minus_one res then (neg errno, none) else (pos 0, some (file_handle res))), w')

  -- `fuse_create`
  unfoldable pub fuse_create : String → W → Result ((ℤ × Option ℕ) × W)
  unfolding fuse_open
  fuse_create new_path w = fuse_open new_path w

  -- `fuse_release`
  unfoldable pub fuse_release : ℕ → W → Result (ℤ × W)
  fuse_release fh w = do
    (closed, w') ← MetaClient.close_file stub fh w
    ok ((if closed then pos 0 else neg errno), w')

  -- `fuse_unlink`
  unfoldable pub fuse_unlink : String → W → Result (ℤ × W)
  fuse_unlink new_path w = do
    (res, w') ← MetaClient.remove_file stub new_path w
    ok ((if res then pos 0 else neg errno), w')

  -- `fuse_rmdir`
  unfoldable pub fuse_rmdir : String → W → Result (ℤ × W)
  unfolding fuse_unlink
  fuse_rmdir new_path w = fuse_unlink new_path w

  -- `bool res = …` of an `int`.
  abbrev to_bool : ℤ → Bool
  to_bool (pos n) = if n == 0 then false else true
  to_bool (negsuc n) = true

  -- `fuse_mkdir`
  unfoldable pub fuse_mkdir : String → W → Result (ℤ × W)
  fuse_mkdir new_path w = do
    (res, w') ← MetaClient.create_diretory stub new_path w
    ok ((if to_bool res then pos 0 else neg errno), w')

-- The loop of `fuse_readdir`; `filler name is_dir` answers whether the buffer is full.
unfoldable pub fill_entries :
    {B : Type 0} → (String → Bool → B → Bool × B) → List DentryInfo → B → B
fill_entries filler [] buf = buf
fill_entries filler (d ∷ ds) buf =
    let (full, buf') = filler d.name d.is_dir buf in
    let rest = fill_entries filler ds buf' in if full then buf' else rest

-- `fuse_readdir`
unfoldable pub fuse_readdir :
    {W B : Type 0} → Stub W → (String → Bool → B → Bool × B) → String → B → W → Result ((ℤ × B) × W)
unfolding fill_entries
fuse_readdir stub filler new_path buf w = do
  ((res, entries), w') ← MetaClient.read_directory stub new_path [] w
  ok ((pos 0, fill_entries filler entries buf), w')

-- `fuse_read` and `fuse_write`
unfoldable pub fuse_read :
    {W S : Type 0} → Stub W → Remote S → String → ℕ → ℕ → ℕ → W × S → Result (ℤ × (W × S))
fuse_read stub remote new_path buf size offset ws =
    Client.read stub remote new_path buf offset size ws

unfoldable pub fuse_write :
    {W S : Type 0} → Stub W → Remote S → String → ℕ → ℕ → ℕ → W × S → Result (ℤ × (W × S))
fuse_write stub remote new_path buf size offset ws =
    Client.write stub remote new_path buf offset size ws

-- `struct stat`, as `fuse_getattr` fills it: the mode without the type, which `is_dir` tells.
pub record Stat : Type 0 where
  pub is_dir : Bool
  pub permissions : ℕ
  pub st_size : ℕ
  pub st_nlink : ℕ
  pub st_uid : ℕ
  pub st_gid : ℕ
  pub st_rdev : ℕ
  pub st_atime : ℕ
  pub st_mtime : ℕ
  pub st_ctime : ℕ

-- `fuse_getattr` of a whole path: 493 is `0755`.
unfoldable pub fuse_getattr : String → ℤ × Stat
fuse_getattr path = (
  pos 0,
  record {
    is_dir = if Text.◌==◌ path "/" then true else false;
    permissions = 493;
    st_size = if Text.◌==◌ path "/" then 0 else 123;
    st_nlink = 1;
    st_uid = 0;
    st_gid = 0;
    st_rdev = 0;
    st_atime = 0;
    st_mtime = 0;
    st_ctime = 0;
  },
)

-- `fuse_statfs`: the result and `f_bsize`.
unfoldable pub fuse_statfs : ℤ × ℕ
fuse_statfs = (pos 0, 12345)
