-- ===== src/Tests/Traces.antt =====
-- Calls of the service one after the other, and the places of the file that they make.
use sponge_bob.Prelude.{
  ℕ, ◌+◌, ◌*◌, ◌≤◌, ◌<◌, ◌≡◌, refl, false, none, some, [], ◌∷◌, arith, inl, inr, Bool-cases, ◌==◌,
  int_of_u64, u64_of_int,
}
use sponge_bob.Containers.MinQueue
use sponge_bob.Containers.Table
use sponge_bob.Containers.NumSet
use sponge_bob.FileMap
use sponge_bob.Inode
use sponge_bob.Inode.{Inode, BlockInfo, dir, reg_file, file_block_size, get_dentry}
use sponge_bob.InodeTable
use sponge_bob.SpaceManager
use sponge_bob.SpaceManager.{SpaceManager}
use sponge_bob.MetaServer.Messages
use sponge_bob.MetaServer.Messages.{TransferRequest, TransferReply, success}
use sponge_bob.MetaServer.Transfer
use sponge_bob.MetaServer.State
use sponge_bob.MetaServer.State.{Service, new_service}
use sponge_bob.MetaServer.Handlers
use sponge_bob.MetaServer.Consistent.{Consistent}
use sponge_bob.MetaServer.Abstract.{view, file_of, register_call, write_call, read_call}
use sponge_bob.MetaServer.Steps.{Reach, here, next, Step, register_step, write_step, read_step}
use sponge_bob.MetaServer.Steps.Places.{Reach-places_differ, Reach-places_within}
use sponge_bob.Tests.Fixture.{name_length}

abbrev rand : ℕ → ℕ
rand n = n

abbrev written_range : TransferRequest
written_range = record { name = "ab"; offset = 1048570; length = 20 }

abbrev pieces : TransferReply
pieces = record {
  block_info =
      record { block_idx = 0; serverid = 1; mem_offset = 1048570; length = 6; buff_offset = 0 }
      ∷ record { block_idx = 1; serverid = 1; mem_offset = 1048576; length = 14; buff_offset = 6 }
      ∷ [];
  bytes = 20;
}

abbrev empty_disk : SpaceManager
empty_disk = record {
  inused_blocks = [];
  free_list = 0 ∷ 1 ∷ 2 ∷ [];
  space_start = 1048576;
  space_end = 4194303;
  total_bytes = 3145728;
  block_size = 1048576;
  total_blocks = 3;
  cur_blocks = 0;
  server_id = 1;
}

abbrev used_disk : SpaceManager
used_disk = record empty_disk { inused_blocks = 1 ∷ 0 ∷ []; free_list = 2 ∷ []; cur_blocks = 2 }

abbrev empty_root : Inode
empty_root = record {
  inum = 0;
  type = dir;
  size = 0;
  file_fd = none;
  children = [];
  block_info_list = [];
}

abbrev file_ab : Inode
file_ab = record {
  inum = 1;
  type = reg_file;
  size = 1048590;
  file_fd = none;
  children = [];
  block_info_list =
      record { server_id = 1; start_addr = 0; length = 6; block_nr = 0 }
      ∷ record { server_id = 1; start_addr = 1048576; length = 14; block_nr = 1 }
      ∷ [];
}

-- After the registration, and after the write.
abbrev registered : Service
registered = record {
  server_count = 2;
  inode_table = record {
    total_size = 100;
    cur_size = 1;
    locked = false;
    table = (0, empty_root) ∷ [];
    free_list = MinQueue.iota 1 100;
  };
  space_manager = (2147483649, empty_disk) ∷ [];
  file_map = record { total_size = 100; fd_used_set = []; fd_free_list = MinQueue.iota 4 100 };
  rand_calls = 0;
}

abbrev written : Service
written = record registered {
  inode_table = record {
    total_size = 100;
    cur_size = 2;
    locked = false;
    table =
        (0, record empty_root { children = (2, record { name = "ab"; hash = 2; inum = 1 }) ∷ [] })
        ∷ (1, file_ab)
        ∷ [];
    free_list = MinQueue.iota 2 99;
  };
  space_manager = (2147483649, used_disk) ∷ [];
  rand_calls = 2;
}

first :
    Step name_length rand (new_service 2) registered (register_call 1 1048576 3145728 (success tt))
unfolding new_service InodeTable.new_inode_table InodeTable.create_root_dir Table.assign
    Inode.new_inode FileMap.new_file_map Handlers.register_memory_region
    SpaceManager.new_space_manager SpaceManager.align_start MinQueue.iota Table.assign_in_order
    int_of_u64
first =
    register_step 1 1048576 3145728 (success tt)
      (record {
        small = omega arith;
        some_bytes = omega arith;
        fits = omega arith;
        aligned = refl;
        unowned = λ b. refl;
      })
      refl

room_at :
    (k : ℕ) (sm : SpaceManager)
    → Table.find k registered.space_manager ≡ some sm
    → sm.cur_blocks + 2 ≤ sm.total_blocks
unfolding Table.find
room_at k sm e = elim (Bool-cases (2147483649 == k)) [
  | inl q ↦ ground (arith, e, q)
  | inr q ↦ absurd (ground (arith, e, q))
]

second : Step name_length rand registered written (write_call written_range (success pieces))
unfolding Handlers.write_file Handlers.write_inode_range Handlers.with_root InodeTable.get_inode
    InodeTable.lock InodeTable.write_inode InodeTable.allocate_free_inode Table.find Table.assign
    Inode.get_dentry Inode.add_dentry Inode.new_dentry Inode.new_inode Inode.set_size
    Inode.get_block_num Inode.append_file_block_info Inode.get_block_info
    Inode.change_file_block_info_length State.file_to_write State.create_file_ State.enlarge
    State.append_blocks State.append_block State.int_rounds State.choose_server State.nth_key
    SpaceManager.allocate_one_block MinQueue.pop MinQueue.iota NumSet.insert Table.assign_in_order
    Transfer.write_blocks Transfer.write_first Transfer.write_full Transfer.write_last
    Messages.init_block_info u64_of_int
second =
    write_step written_range (success pieces) empty_root refl
      (record {
        short = omega arith;
        room = record { some_server = omega arith; at = room_at };
        inodes = λ e. omega arith;
      })
      refl

third : Step name_length rand written written (read_call written_range (success pieces))
unfolding Handlers.read_file Handlers.with_root Handlers.clamp_length InodeTable.get_inode
    InodeTable.lock Table.find Inode.get_dentry Inode.get_block_info Transfer.read_blocks
    Transfer.read_first Transfer.read_full Transfer.read_last Messages.init_block_info
third = read_step written_range (success pieces) refl

-- Server 1 registers, a client writes to a file that is not there, and reads what it has written.
three_calls :
    Reach name_length rand
      (new_service 2)
      (read_call written_range (success pieces)
        ∷ write_call written_range (success pieces)
        ∷ register_call 1 1048576 3145728 (success tt)
        ∷ [])
      written
three_calls = next (next (next here first) second) third

ab_file : view name_length written "ab" ≡ some (file_of file_ab)
unfolding get_dentry Table.find
ab_file = refl

cd_file : view name_length written "cd" ≡ some (file_of file_ab)
unfolding get_dentry Table.find
cd_file = refl

disk_found : Table.find 2147483649 written.space_manager ≡ some used_disk
unfolding Table.find
disk_found = refl

abbrev place : ℕ
place = 1048580

placed_byte : (file_of file_ab).places 1048580 ≡ some (1, 1048580)
placed_byte = refl

-- Names of one hash lead to one file.
Reach-places_differ_example : (name_length "ab" ≡ name_length "cd") × (place ≡ place)
Reach-places_differ_example =
    Reach-places_differ name_length rand 2 three_calls 2147483649 1 used_disk disk_found refl "ab"
      "cd" (file_of file_ab) (file_of file_ab) place place 1048580 ab_file cd_file placed_byte
      placed_byte

Reach-places_within_example : 1048580 < used_disk.total_blocks * file_block_size
Reach-places_within_example =
    Reach-places_within name_length rand 2 three_calls 2147483649 1 used_disk disk_found refl "ab"
      (file_of file_ab) 1048580 1048580 ab_file placed_byte
