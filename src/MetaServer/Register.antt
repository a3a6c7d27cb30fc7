-- ===== src/MetaServer/Register.antt =====
-- The service that the constructor makes, and `RegisterMemoryRegion`.
use Prim.Native.Nat.{bit_and}
use sponge_bob.Prelude.{
  ℕ, ◌+◌, ◌/◌, ◌^◌, ◌<◌, ◌≡◌, ◌≢◌, refl, ap, subst, sym, ◌∙◌, some, [], arith, ◌==◌, u64_mod,
  Bool-cases, inl, inr, int_of_u64, int_of_u64-lt, u64_of_int-int_of_u64, count, add64, sub64,
}
use sponge_bob.Result.{ok, ◌>>=◌}
use sponge_bob.Containers.Table
use sponge_bob.Containers.Table.{find-assign_in_order}
use sponge_bob.Inode.{Inode, dir, new_inode, file_block_size}
use sponge_bob.InodeTable.{new_inode_table, create_root_dir}
use sponge_bob.InodeTable.Partition.{new_inode_table-IsValid}
use sponge_bob.FileMap.Descriptors.{new_file_map-IsValid}
use sponge_bob.SpaceManager.{SpaceManager, new_space_manager, align_start}
use sponge_bob.SpaceManager.Partition.{new_space_manager-IsValid}
use sponge_bob.SpaceManager.Allocation.{new_space_manager_region}
use sponge_bob.MetaServer.Messages.{success}
use sponge_bob.MetaServer.State.{Service, new_service}
use sponge_bob.MetaServer.Handlers.{register_memory_region}
use sponge_bob.MetaServer.Create.{new_inode-Sound}
use sponge_bob.MetaServer.Consistent.{owned, Managed, Sound, Consistent}

-- The service that the constructor makes is consistent.
pub new_service-Consistent : (server_count : ℕ) → Consistent (new_service server_count)
unfolding new_service new_inode_table create_root_dir Table.assign Table.find new_inode
new_service-Consistent server_count = record {
  table = new_inode_table-IsValid 100 (omega arith) (omega arith);
  descriptors = new_file_map-IsValid 100;
  root = new_inode dir 0;
  root_found = refl;
  named = λ k. ground arith;
  hashes = λ h. omega arith;
  sound = λ k i f. Sound-at k i f;
  spaces = record { at = λ k sm f. absurd (ground (arith, f)) };
}
  where
    Sound-at :
        (k : ℕ) (i : Inode)
        → Table.find k (new_service server_count).inode_table.table ≡ some i
        → Sound i
    Sound-at k i f = elim (Bool-cases (0 == k)) [
      | inl e ↦
          let q : new_inode dir 0 ≡ i = ground (arith, f, e) in
          subst Sound q (new_inode-Sound dir 0)
      | inr e ↦ absurd (ground (arith, f, e))
    ]

-- Server `nodeid` registered its region of `len` bytes at `addr`: the service stays consistent; the
-- server has a space manager with the whole blocks of the region, all of them free; the managers of
-- the other servers and the files are as before.
pub record Registered (nodeid addr len : ℕ) (s s' : Service) : Type 0 where
  pub consistent : Consistent s'
  pub manager : SpaceManager
  pub stored : Table.find (int_of_u64 nodeid) s'.space_manager ≡ some manager
  pub id : manager.server_id ≡ nodeid
  pub start : manager.space_start ≡ addr
  pub whole : manager.total_blocks ≡ len / file_block_size
  pub unused : manager.inused_blocks ≡ []
  pub others :
      (k : ℕ) → k ≢ int_of_u64 nodeid → Table.find k s'.space_manager ≡ Table.find k s.space_manager
  pub shape : s' ≡ record s { space_manager = s'.space_manager }

manager_start :
    (addr last block_size server_id : ℕ) (sm : SpaceManager)
    → bit_and (sub64 block_size 1) addr ≡ 0
    → new_space_manager addr last block_size server_id ≡ ok sm
    → sm.space_start ≡ addr
unfolding new_space_manager align_start
manager_start addr last block_size server_id sm aligned e = ground arith

register_run :
    (nodeid addr len : ℕ) (s : Service) (sm : SpaceManager)
    → new_space_manager addr (sub64 (add64 addr len) 1) file_block_size nodeid ≡ ok sm
    → register_memory_region nodeid addr len s
      ≡ ok (
        success tt,
        record s { space_manager = Table.assign_in_order (int_of_u64 nodeid) sm s.space_manager },
      )
unfolding register_memory_region
register_run nodeid addr len s sm e = rw (e, ◌>>=◌) refl

-- In a consistent service, a server of number below 2 ^ 31 whose blocks no file holds registers a
-- region of memory that is not empty, starts at a multiple of the block size and ends below 2 ^ 64.
-- The call succeeds and the service stays consistent; the server has a space manager with the whole
-- blocks of the region, all of them free; the other managers and the rest of the service are as
-- before.
pub register_memory_region_total :
    (nodeid addr len : ℕ) {s : Service}
    → Consistent s
    → nodeid < 2 ^ 31
    → 0 < len
    → addr + len < u64_mod
    → bit_and (sub64 file_block_size 1) addr ≡ 0
    → ((b : ℕ) → owned nodeid b s.inode_table.table ≡ 0)
    → (s' : Service) × (register_memory_region nodeid addr len s ≡ ok (success tt, s'))
      × Registered nodeid addr len s s'
register_memory_region_total nodeid addr len {s} c small some_bytes fits aligned unowned =
    let last = sub64 (add64 addr len) 1 in
    let (sm, run, v, none_used, id) =
      new_space_manager-IsValid addr last file_block_size nodeid (omega arith) in
    let key = int_of_u64 nodeid in
    let whole : sm.total_blocks ≡ len / file_block_size =
      (new_space_manager_region addr len file_block_size nodeid 0 sm (omega arith) some_bytes fits
        aligned run).0 in
    let managed : Managed s.inode_table.table key sm = record {
      key = int_of_u64-lt nodeid;
      id = id ∙ sym (u64_of_int-int_of_u64 nodeid small);
      valid = v;
      reach = omega (arith, whole);
      used = λ b.
          ap (count b) none_used ∙ sym (ap (λ n. owned n b s.inode_table.table) id ∙ unowned b);
    } in
    (
      record s { space_manager = Table.assign_in_order key sm s.space_manager },
      register_run nodeid addr len s sm run,
      record {
        consistent = record {
          table = c.table;
          descriptors = c.descriptors;
          root = c.root;
          root_found = c.root_found;
          named = c.named;
          hashes = c.hashes;
          sound = c.sound;
          spaces = record {
            at = λ k sm' f. elim (Bool-cases (key == k)) [
              | inl e ↦
                  let q : sm ≡ sm' =
                    ground (arith, find-assign_in_order k key sm s.space_manager, f, e) in
                  let same : key ≡ k = ground (arith, e) in
                  subst (λ j. Managed s.inode_table.table j sm') same
                    (subst (Managed s.inode_table.table key) q managed)
              | inr e ↦
                  c.spaces.at k sm'
                    (ground (arith, find-assign_in_order k key sm s.space_manager, f, e))
            ];
          };
        };
        manager = sm;
        stored = ground (arith, find-assign_in_order key key sm s.space_manager);
        id = id;
        start = manager_start addr last file_block_size nodeid sm aligned run;
        whole = whole;
        unused = none_used;
        others = λ k ne. ground (arith, find-assign_in_order k key sm s.space_manager);
        shape = refl;
      },
    )
