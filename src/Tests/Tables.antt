-- ===== src/Tests/Tables.antt =====
-- The tables and the queue.
use sponge_bob.Prelude.{
  ℕ, ◌+◌, ◌≤◌, ◌<◌, ◌≡◌, ◌≢◌, refl, true, false, none, some, List, [], ◌∷◌, ◌++◌, arith, length,
  count,
}
use sponge_bob.Result.{ok, fault, deadlock}
use sponge_bob.Containers.MinQueue
use sponge_bob.Containers.Table
use sponge_bob.Inode.{reg_file, dir, add_dentry, delete_dentry, get_dentry, new_dentry}
use sponge_bob.Inode.Directory.{get_dentry-add_dentry, get_dentry-delete_dentry}
use sponge_bob.InodeTable.{InodeTable, get_inode, allocate_free_inode, delete_inode}
use sponge_bob.InodeTable.Partition.{
  Allocated, Deleted, allocate_free_inode_room, delete_inode_found, get_inode_missing,
}
use sponge_bob.FileMap.{allocate_fd, reclaim_fd}
use sponge_bob.FileMap.Descriptors
use sponge_bob.FileMap.Descriptors.{
  Allocates, new_file_map-IsValid, allocate_fd-Allocates, reclaim_fd-allocate_fd,
}
use sponge_bob.SpaceManager
use sponge_bob.SpaceManager.{SpaceManager, allocate_space, reclaim_space}
use sponge_bob.SpaceManager.Allocation.{
  TakesAll, allocate_space_cases, reclaim_space-TakesAll, blocks_for,
}
use sponge_bob.Queue.{Queue, pop_polling, push_polling}
use sponge_bob.Queue.Fifo.{IsCounted, pop_polling_first, pop_polling_wrapped}
use sponge_bob.Tests.Fixture.{
  name_length, root, file_a, inodes, inodes-IsValid, disk, disk-IsValid, service,
  service-Consistent,
}

allocate_free_inode_room_example :
    (i : ℕ) × (t' : InodeTable) × (allocate_free_inode dir inodes ≡ ok (i, t'))
    × Allocated dir inodes i t'
allocate_free_inode_room_example = allocate_free_inode_room dir inodes inodes-IsValid (omega arith)

found_a : Table.find 1 inodes.table ≡ some file_a
unfolding Table.find
found_a = refl

none_at_2 : Table.find 2 inodes.table ≡ none
unfolding Table.find
none_at_2 = refl

delete_inode_found_example :
    (t' : InodeTable) × (delete_inode 1 inodes ≡ ok (true, t')) × Deleted inodes 1 t'
delete_inode_found_example =
    delete_inode_found 1 file_a inodes inodes-IsValid (λ e. absurd (omega arith)) found_a

get_inode_missing_example :
    (t' : InodeTable) × (get_inode 2 inodes ≡ ok (none, t'))
    × (get_inode 0 t' ≡ fault deadlock)
    × (allocate_free_inode reg_file t' ≡ fault deadlock)
    × (delete_inode 0 t' ≡ fault deadlock)
get_inode_missing_example = get_inode_missing 2 0 reg_file inodes inodes-IsValid none_at_2

allocate_fd-Allocates_example :
    Allocates service.file_map (allocate_fd service.file_map).0 (allocate_fd service.file_map).1
    × Descriptors.IsValid (allocate_fd service.file_map).1
allocate_fd-Allocates_example =
    allocate_fd-Allocates service.file_map service-Consistent.descriptors

takes_5 : (allocate_fd service.file_map).0 ≡ some 5
unfolding allocate_fd
takes_5 = refl

reclaim_fd-allocate_fd_example :
    reclaim_fd 5 (allocate_fd service.file_map).1 ≡ (true, service.file_map)
reclaim_fd-allocate_fd_example =
    reclaim_fd-allocate_fd service.file_map 5 service-Consistent.descriptors takes_5

allocate_space_cases_example :
    ((1 + blocks_for 2000000 1048576 ≤ 3)
      → (bs : List ℕ) × (sm' : SpaceManager) × (allocate_space 2000000 disk ≡ ok (bs, sm'))
        × (length bs ≡ blocks_for 2000000 1048576)
        × TakesAll disk bs sm')
    × (3 < 1 + blocks_for 2000000 1048576 → allocate_space 2000000 disk ≡ ok ([], disk))
allocate_space_cases_example =
    allocate_space_cases 2000000 disk disk-IsValid (omega arith) (omega arith)

reclaim_space-TakesAll_example :
    (bs : List ℕ) × (sm' : SpaceManager) × (SpaceManager.Partition.IsValid (reclaim_space bs sm')
      × ((reclaim_space bs sm').cur_blocks ≡ 1)
      × ((c : ℕ)
          → (count c (reclaim_space bs sm').inused_blocks ≡ count c disk.inused_blocks)
            × (count c (reclaim_space bs sm').free_list ≡ count c disk.free_list)))
reclaim_space-TakesAll_example =
    let (bs, sm', run, l, t) =
      (allocate_space_cases 2000000 disk disk-IsValid (omega arith) (omega arith)).0
        (omega arith) in
    (bs, sm', reclaim_space-TakesAll disk sm' bs t disk-IsValid)

get_dentry-add_dentry_example :
    let (added, i') = add_dentry name_length "bc" 2 root in
    (added ≡ elim (get_dentry name_length "bc" root) [ none ↦ true | some _ ↦ false ])
    × (get_dentry name_length "bc" i' ≡ elim (get_dentry name_length "bc" root) [
      | none ↦ some (new_dentry name_length "bc" 2)
      | some d ↦ some d
    ])
    × (name_length "a" ≢ name_length "bc"
        → get_dentry name_length "a" i' ≡ get_dentry name_length "a" root)
get_dentry-add_dentry_example = get_dentry-add_dentry name_length "bc" "a" 2 root

get_dentry-delete_dentry_example :
    let (deleted, i') = delete_dentry name_length "a" root in
    (deleted ≡ elim (get_dentry name_length "a" root) [ none ↦ false | some _ ↦ true ])
    × (get_dentry name_length "a" i' ≡ none)
    × (name_length "bc" ≢ name_length "a"
        → get_dentry name_length "bc" i' ≡ get_dentry name_length "bc" root)
get_dentry-delete_dentry_example = get_dentry-delete_dentry name_length "a" "bc" root

abbrev two : Queue ℕ
two = record { queue = 7 ∷ 8 ∷ []; offset = 2 }

pop_polling_first_example :
    (q' : Queue ℕ) × (pop_polling two ≡ ok (7, q')) × (q'.queue ≡ 8 ∷ []) × IsCounted q'
pop_polling_first_example =
    pop_polling_first 7 (8 ∷ []) two (record { at = refl }) refl (omega arith)

abbrev crowd : Queue ℕ
crowd = record { queue = 0 ∷ MinQueue.iota 1 254; offset = 255 }

pop_polling_wrapped_example :
    (pop_polling (push_polling 9 crowd) ≡ fault deadlock)
    × (pop_polling (push_polling 8 (push_polling 9 crowd))
        ≡ ok (0, record { queue = MinQueue.iota 1 254 ++ (9 ∷ []) ++ (8 ∷ []); offset = 0 }))
pop_polling_wrapped_example =
    pop_polling_wrapped 0 9 8 (MinQueue.iota 1 254) crowd
      (record { at = omega (arith, MinQueue.length-iota 1 254) }) refl (MinQueue.length-iota 1 254)
