-- ===== src/MetaServer/Read.antt =====
-- `ReadFile`: inside the file, past its end, and of a name that is not there.
use sponge_bob.Prelude.{
  ℕ, ◌+◌, ◌-◌, ◌≤◌, ◌<◌, ◌≡◌, refl, ap, ◌∙◌, String, none, some, List, ◌++◌, arith, min, sub64,
  u64_mod,
}
use sponge_bob.Result.{Fault, ok, fault, null_pointer, ◌>>=◌}
use sponge_bob.Containers.Table
use sponge_bob.Inode.{Inode, Dentry, get_dentry}
use sponge_bob.InodeTable.Partition.{get_inode_found}
use sponge_bob.MetaServer.Messages.{FileBlockInfo, TransferRequest, TransferReply, success}
use sponge_bob.MetaServer.Transfer.{read_blocks}
use sponge_bob.MetaServer.Transfer.Located.{Serves}
use sponge_bob.MetaServer.Transfer.Total.{InBlocks, Runs-read_blocks, runs_total}
use sponge_bob.MetaServer.State.{Service, root_inum}
use sponge_bob.MetaServer.Handlers.{read_file, clamp_length}
use sponge_bob.MetaServer.Consistent.{Consistent}

module _ (hash : String → ℕ) (request : TransferRequest) {s : Service} (c : Consistent s) where
  -- The handler, once the file is found and the range is cut.
  pub read_file_eq :
      (d : Dentry) (i : Inode) (len left : ℕ) (ms : List FileBlockInfo)
      → get_dentry hash request.name c.root ≡ some d
      → Table.find d.inum s.inode_table.table ≡ some i
      → clamp_length request.offset request.length i.size ≡ len
      → read_blocks i request.offset len ≡ ok (ms, left)
      → read_file hash request s
        ≡ ok (success (record { block_info = ms; bytes = sub64 len left }), s)
  unfolding read_file
  read_file_eq d i len left ms named found clamped cut =
      rw (get_inode_found root_inum c.root s.inode_table c.table c.root_found) (
        rw (named, ◌>>=◌)
          (rw (get_inode_found d.inum i s.inode_table c.table found)
            (rw (clamped, ◌>>=◌) (rw cut refl))))

  -- The handler, when the cutting faults.
  pub read_file_fault :
      (d : Dentry) (i : Inode) (x : Fault)
      → get_dentry hash request.name c.root ≡ some d
      → Table.find d.inum s.inode_table.table ≡ some i
      → read_blocks i request.offset (clamp_length request.offset request.length i.size) ≡ fault x
      → read_file hash request s ≡ fault x
  unfolding read_file
  read_file_fault d i x named found cut =
      rw (get_inode_found root_inum c.root s.inode_table c.table c.root_found) (
        rw (named, ◌>>=◌)
          (rw (get_inode_found d.inum i s.inode_table c.table found) (rw (cut, ◌>>=◌) refl)))

  -- In a consistent service, a read of a name that leads to a stored inode, and that starts inside the
  -- file and ends below 2 ^ 64, answers as many bytes as there are up to the end of the file,
  -- at most the length asked for, serves each of them by its place, and changes nothing.
  pub read_file_total :
      (d : Dentry) (i : Inode)
      → get_dentry hash request.name c.root ≡ some d
      → Table.find d.inum s.inode_table.table ≡ some i
      → request.offset ≤ i.size
      → request.offset + request.length < u64_mod
      → (reply : TransferReply) × (read_file hash request s ≡ ok (success reply, s))
        × (reply.bytes ≡ min request.length (i.size - request.offset))
        × Serves i.block_info_list request.offset 0 reply.bytes reply.block_info
  unfolding clamp_length
  read_file_total d i named found inside bounded =
      let so = c.sound d.inum i found in
      let len = min request.length (i.size - request.offset) in
      let range : InBlocks i.block_info_list request.offset len = record {
        bounded = omega (arith, so.sized, so.short);
        covered = omega (arith, so.sized, so.short);
      } in
      let runs = runs_total i request.offset len so.addresses range in
      let clamped : clamp_length request.offset request.length i.size ≡ len =
        ground (arith, so.sized, so.short) in
      let whole : sub64 len 0 ≡ len = omega (arith, so.sized, so.short) in
      let ms = runs.first ++ (runs.full ++ runs.last) in
      (
        record { block_info = ms; bytes = len },
        read_file_eq d i len 0 ms named found clamped (Runs-read_blocks i request.offset len runs)
            ∙ ap (λ n. ok (success (record { block_info = ms; bytes = n }), s)) whole,
        refl,
        runs.serves,
      )

  -- In a consistent service, a read of a name that the root directory does not have dereferences a
  -- null pointer, for the test of the pointer comes after its use.
  pub read_file_missing :
      get_dentry hash request.name c.root ≡ none → read_file hash request s ≡ fault null_pointer
  unfolding read_file
  read_file_missing absent =
      rw (get_inode_found root_inum c.root s.inode_table c.table c.root_found)
        (rw (absent, ◌>>=◌) refl)
