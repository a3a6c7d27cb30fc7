-- ===== src/MetaServer/Write.antt =====
-- `WriteFile` behind the lookup of the file: what it leaves.
pub mod File
use sponge_bob.Prelude.{
  ℕ, ◌+◌, ◌-◌, ◌*◌, ◌/◌, ◌^◌, ◌≤◌, ◌<◌, ◌≡◌, refl, ap, sym, ◌∙◌, ◌≢◌, String, Bool, true, false,
  Option, none, some, List, [], ◌∷◌, ◌++◌, arith, ltb, ◌==◌, if◌then◌else◌, length, get_elem?,
  Option-cases, inl, inr, add64, sub64, u64_mod,
}
use sponge_bob.Result.{Result, ok, fault, or_fault, ◌>>=◌}
use sponge_bob.Containers.Table
use sponge_bob.Containers.Table.{Table, find-assign_self, find-assign_ne}
use sponge_bob.Inode.{Inode, Dentry, BlockInfo, file_block_size, get_dentry, set_size}
use sponge_bob.InodeTable.{get_inode, write_inode}
use sponge_bob.InodeTable.Partition.{get_inode_found}
use sponge_bob.SpaceManager.{SpaceManager}
use sponge_bob.MetaServer.Messages.{
  FileBlockInfo, TransferRequest, TransferReply, Response, success,
}
use sponge_bob.MetaServer.Transfer.{read_blocks, write_blocks}
use sponge_bob.MetaServer.Transfer.Located.{locate, Serves, Serves-same}
use sponge_bob.MetaServer.Transfer.Total.{InBlocks, Runs, Runs-read_blocks, runs_total}
use sponge_bob.MetaServer.Transfer.Rewritten.{
  Rewritten, Rewritten-Reshaped, write_blocks_run, same_blocks,
}
use sponge_bob.MetaServer.State.{Service, root_inum, enlarge, file_to_write}
use sponge_bob.MetaServer.Handlers.{
  write_inode_range, write_file, read_file, with_root, clamp_length,
}
use sponge_bob.MetaServer.Consistent.{Spaces, Sound, Consistent}
use sponge_bob.MetaServer.Consistent.Frame.{
  entry_live, same_length, same_blocks_on, same_addresses, same_locate, Spaces-same, Spaces-self,
  store_file-Consistent,
}
use sponge_bob.MetaServer.Enlarge.{Room}
use sponge_bob.MetaServer.Enlarge.Rounds.{Grown, Keeps, enlarge_run}

-- The number of blocks that a file of `size` bytes needs.
abbrev pub blocks_of_size : ℕ → ℕ
blocks_of_size size = (size + file_block_size - 1) / file_block_size

-- What a write of `request` to the inode `i` of number `inum` leaves: a consistent service, in which
-- that number has an inode `i'` whose size is the end of the range; the reply counts the whole
-- length and serves each byte of the range by its place in `i'`; every byte of the file that had a
-- place is where it was; the other inodes, the root directory and the descriptors are as before.
pub record Written (request : TransferRequest) (inum : ℕ) (i : Inode) (s : Service)
    (reply : TransferReply) (s' : Service) : Type 0 where
  pub consistent : Consistent s'
  pub inode : Inode
  pub stored : Table.find inum s'.inode_table.table ≡ some inode
  pub size : inode.size ≡ request.offset + request.length
  pub type : inode.type ≡ i.type
  pub bytes : reply.bytes ≡ request.length
  pub serves : Serves inode.block_info_list request.offset 0 request.length reply.block_info
  pub stays :
      (p : ℕ) (place : ℕ × ℕ)
      → locate i.block_info_list p ≡ some place
      → locate inode.block_info_list p ≡ some place
  pub others :
      (k : ℕ) → k ≢ inum → Table.find k s'.inode_table.table ≡ Table.find k s.inode_table.table
  pub file_map : s'.file_map ≡ s.file_map
  -- Reading the range again cuts it into the same pieces.
  pub again : read_blocks inode request.offset request.length ≡ ok (reply.block_info, 0)

-- The end of the range is below 2 ^ 51, so that the blocks are counted in an `int`, and every server
-- has the blocks that the file lacks.
pub record Fits (request : TransferRequest) (i : Inode) (s : Service) : Type 0 where
  pub short : request.offset + request.length + file_block_size ≤ 2 ^ 51
  pub room :
      Room
        (blocks_of_size (request.offset + request.length) - length i.block_info_list)
        s.space_manager

locate-Keeps :
    (i i' : Inode) (p : ℕ) (place : ℕ × ℕ)
    → Keeps i i'
    → locate i.block_info_list p ≡ some place
    → locate i'.block_info_list p ≡ some place
locate-Keeps i i' p place k e =
    elim (Option-cases (get_elem? i.block_info_list (p / file_block_size))) [
      | inl n ↦ absurd (ground (arith, e, n))
      | inr (b, n) ↦ ground (arith, e, n, k.at (p / file_block_size) b n)
    ]

-- The parts of the handler put together.
module _ (rand : ℕ → ℕ) (request : TransferRequest) (inum : ℕ) (i i1 i2 : Inode) (s s1 : Service)
    (ms : List FileBlockInfo) where
  abbrev after : Service
  after = record s {
    inode_table = write_inode inum (set_size i2 (request.offset + request.length)) s.inode_table;
    space_manager = s1.space_manager;
    rand_calls = s1.rand_calls;
  }

  range_eq :
      request.offset + request.length + file_block_size ≤ 2 ^ 51
      → enlarge rand (blocks_of_size (request.offset + request.length)) i s ≡ ok (i1, s1)
      → s1.inode_table ≡ s.inode_table
      → s1.file_map ≡ s.file_map
      → s1.server_count ≡ s.server_count
      → write_blocks i1 request.offset request.length ≡ ok (ms, 0, i2)
      → write_inode_range rand inum i request s
        ≡ ok (success (record { block_info = ms; bytes = request.length }), after)
  unfolding write_inode_range
  range_eq short grow t f n cut =
      let end = request.offset + request.length in
      let a : add64 request.offset request.length ≡ end = omega arith in
      let b : sub64 (add64 end file_block_size) 1 ≡ end + file_block_size - 1 = omega arith in
      let d : sub64 request.length 0 ≡ request.length = omega arith in
      let e : sub64 end 0 ≡ end = omega arith in
      rw a (rw b (rw grow (rw cut (rw (d, e) (ground (arith, t, f, n))))))

module _ (rand : ℕ → ℕ) where
  pub write_inode_range_run :
      (request : TransferRequest) (inum : ℕ) (i : Inode) (s : Service) (c : Consistent s)
      → inum ≢ root_inum
      → Table.find inum s.inode_table.table ≡ some i
      → Fits request i s
      → (reply : TransferReply) × (s' : Service) × (write_inode_range rand inum i request s
          ≡ ok (success reply, s'))
        × Written request inum i s reply s'
  unfolding write_inode set_size
  write_inode_range_run request inum i s c ne found f =
      let end = request.offset + request.length in
      let total = blocks_of_size end in
      let m = s.inode_table.table in
      let so = c.sound inum i found in
      let (i1, s1, grow, g) =
        enlarge_run rand total m inum i i s (omega (arith, f.short)) found
          (Spaces-self m inum i s.space_manager found c.spaces) f.room in
      let longer = g.longer in
      let inside : InBlocks i1.block_info_list request.offset request.length = record {
        bounded = omega (arith, f.short);
        covered = omega (arith, longer);
      } in
      let runs = runs_total i1 request.offset request.length (g.addresses so.addresses) inside in
      let (i2, cut, re) = write_blocks_run i1 request.offset request.length runs in
      let same = ap (λ (x : Inode). x.block_info_list) re in
      let i3 = set_size i2 end in
      let len = same_length i1.block_info_list i2.block_info_list same in
      let sound : Sound i3 = record {
        sized = omega (arith, longer, len);
        short = omega (arith, longer, len, so.short, f.short);
        addresses =
            same_addresses i1.block_info_list i2.block_info_list same (g.addresses so.addresses);
      } in
      let spaces =
        Spaces-same m inum i1 i3 i s1.space_manager found
          (same_blocks_on i1.block_info_list i2.block_info_list same) g.spaces in
      (
        _,
        _,
        range_eq rand request inum i i1 i2 s s1 _ f.short grow g.inode_table g.file_map
            g.server_count cut,
        record {
          consistent =
              store_file-Consistent c inum i3 i s1.space_manager s1.rand_calls ne found sound
                spaces;
          inode = i3;
          stored = find-assign_self inum i3 m;
          size = refl;
          type = ap (λ (x : Inode). x.type) re ∙ g.keeps.type;
          bytes = refl;
          serves =
              Serves-same i1.block_info_list i2.block_info_list request.offset 0 request.length _
                (same_locate i1.block_info_list i2.block_info_list same) runs.serves;
          stays = λ p place e.
              same_locate i1.block_info_list i2.block_info_list same p
              ∙ locate-Keeps i i1 p place g.keeps e;
          others = λ k ne'. find-assign_ne k inum i3 m ne';
          file_map = refl;
          again =
              same_blocks i1 i3 request.offset request.length (Rewritten-Reshaped i1 i2 end re)
              ∙ Runs-read_blocks i1 request.offset request.length runs;
        },
      )
