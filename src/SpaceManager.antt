-- ===== src/SpaceManager.antt =====
-- `SpaceManager` of include/spacemanager.hpp and src/fs/spacemanager.cpp: the blocks of one storage
-- server. Every method releases `space_lock_` on each path that returns, so the lock is left out.
pub mod Partition
pub mod Allocation
use Prim.Native.Nat.{bit_and}
use sponge_bob.Prelude.{
  ℕ, zero, suc, ◌+◌, ◌-◌, ◌*◌, ◌/◌, ◌≡◌, Bool, true, false, Option, none, some, List, [], ◌∷◌, ltb,
  ◌==◌, if◌then◌else◌, u64_mod, add64, sub64,
}
use sponge_bob.Result.{Result, ok, fault, null_pointer, zero_divisor, ◌>>=◌}
use sponge_bob.Containers.MinQueue
use sponge_bob.Containers.NumSet
use sponge_bob.Inode.{Inode, BlockInfo}

pub record SpaceManager : Type 0 where
  pub inused_blocks : List ℕ
  pub free_list : List ℕ
  pub space_start : ℕ
  pub space_end : ℕ
  pub total_bytes : ℕ
  pub block_size : ℕ
  pub total_blocks : ℕ
  pub cur_blocks : ℕ
  pub server_id : ℕ

-- The start of the space, moved up if it is not aligned: `~block_mask` is `2^64 - 1 - block_mask`.
unfoldable pub align_start : ℕ → ℕ → ℕ
align_start space_start block_size =
    let block_mask = sub64 block_size 1 in
    if bit_and block_mask space_start == 0
    then space_start
    else bit_and (add64 space_start block_size) (u64_mod - 1 - block_mask)

-- `SpaceManager(space_start, space_end, block_size, server_id)`. A block size of 0 divides by zero.
unfoldable pub new_space_manager : ℕ → ℕ → ℕ → ℕ → Result SpaceManager
unfolding align_start
new_space_manager space_start space_end block_size server_id =
    let start = align_start space_start block_size in
    let total_bytes = add64 (sub64 space_end start) 1 in
    if block_size == 0
    then fault zero_divisor
    else ok (record {
      inused_blocks = [];
      free_list = MinQueue.iota 0 (total_bytes / block_size);
      space_start = start;
      space_end = space_end;
      total_bytes = total_bytes;
      block_size = block_size;
      total_blocks = total_bytes / block_size;
      cur_blocks = 0;
      server_id = server_id;
    })

unfoldable pub allocate_one_block : SpaceManager → Result (ℕ × SpaceManager)
allocate_one_block sm = do
  (block_nr, rest) ← MinQueue.pop sm.free_list
  ok (
    block_nr,
    record sm {
      free_list = rest;
      inused_blocks = NumSet.insert block_nr sm.inused_blocks;
      cur_blocks = add64 sm.cur_blocks 1;
    },
  )

-- The loop of `AllocateSpace`, with the rounds left.
unfoldable pub allocate_blocks : ℕ → SpaceManager → Result (List ℕ × SpaceManager)
allocate_blocks zero sm = ok ([], sm)
allocate_blocks (suc n) sm = do
  (block_nr, sm') ← allocate_one_block sm
  (res, sm'') ← allocate_blocks n sm'
  ok (block_nr ∷ res, sm'')

-- The empty answer, and no change, where the blocks that are left do not suffice.
unfoldable pub allocate_space : ℕ → SpaceManager → Result (List ℕ × SpaceManager)
allocate_space len sm =
    if sm.block_size == 0
    then fault zero_divisor
    else let to_allocate = sub64 (add64 len sm.block_size) 1 / sm.block_size in
      if ltb (sub64 sm.total_blocks sm.cur_blocks) to_allocate
      then ok ([], sm)
      else allocate_blocks to_allocate sm

-- One round of the loops that give blocks back.
unfoldable pub reclaim_block : ℕ → SpaceManager → SpaceManager
reclaim_block block_nr sm = record sm {
  free_list = MinQueue.push block_nr sm.free_list;
  inused_blocks = NumSet.erase block_nr sm.inused_blocks;
  cur_blocks = sub64 sm.cur_blocks 1;
}

unfoldable pub reclaim_space : List ℕ → SpaceManager → SpaceManager
reclaim_space [] sm = sm
reclaim_space (block_nr ∷ block_list) sm = reclaim_space block_list (reclaim_block block_nr sm)

-- The loop of `ReclaimInodeSpace`: blocks of other servers are passed over.
unfoldable pub reclaim_block_infos : List BlockInfo → SpaceManager → SpaceManager
reclaim_block_infos [] sm = sm
reclaim_block_infos (b ∷ bs) sm =
    reclaim_block_infos bs (if b.server_id == sm.server_id then reclaim_block b.block_nr sm else sm)

-- A null pointer is reported and then dereferenced.
unfoldable pub reclaim_inode_space : Option Inode → SpaceManager → Result SpaceManager
reclaim_inode_space none sm = fault null_pointer
reclaim_inode_space (some i) sm = ok (reclaim_block_infos i.block_info_list sm)

-- `ResetSpaceRange`: a new range and a full free list. `inused_blocks_` and `cur_blocks_` stay.
unfoldable pub reset_space_range : ℕ → ℕ → SpaceManager → Result SpaceManager
unfolding align_start
reset_space_range start_addr len sm =
    let end = sub64 (add64 start_addr len) 1 in
    let start = align_start start_addr sm.block_size in
    let total_bytes = add64 (sub64 end start) 1 in
    if sm.block_size == 0
    then fault zero_divisor
    else ok (record sm {
      space_start = start;
      space_end = end;
      total_bytes = total_bytes;
      total_blocks = total_bytes / sm.block_size;
      free_list = MinQueue.iota 0 (total_bytes / sm.block_size);
    })
