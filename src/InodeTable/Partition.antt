-- ===== src/InodeTable/Partition.antt =====
-- Inode numbers are in use or free, and never both.
use sponge_bob.Prelude.{
  ℕ, suc, ◌+◌, ◌≤◌, ◌<◌, ◌≡◌, refl, ◌≢◌, true, false, none, some, List, [], ◌∷◌, arith, leb, ◌==◌,
  length, count, indicator, u64_mod, sym, ap, subst, add64, sub64,
}
use sponge_bob.Result.{ok, fault, deadlock}
use sponge_bob.Containers.MinQueue
use sponge_bob.Containers.MinQueue.{count-push, length-push, push-IsSorted, IsSorted, IsSorted-zero}
use sponge_bob.Containers.Table
use sponge_bob.Containers.Table.{
  keys, keys-assign_new, length-assign_new, keys-assign_old, length-assign_old, keys-erase,
  length-erase, count_of_some, find-assign, find-erase, find-none, count_of_find-none, find_total,
}
use sponge_bob.Inode.{Inode, FileType, new_inode}
use sponge_bob.InodeTable.{
  InodeTable, new_inode_table, get_inode, allocate_free_inode, delete_inode, write_inode,
}

-- Every number up to `total_size_` is in the table or in the free list, once; the size is that of
-- the table; the root is there; nobody holds the lock.
pub record IsValid (t : InodeTable) : Type 0 where
  pub partition :
      (k : ℕ) → count k (keys t.table) + count k t.free_list ≡ indicator (leb k t.total_size)
  pub balance : length t.table + length t.free_list ≡ t.total_size + 1
  pub counted : length t.table ≡ t.cur_size
  pub fits : t.cur_size ≤ t.total_size
  pub bounded : t.total_size + 1 < u64_mod
  pub unlocked : t.locked ≡ false
  pub sorted : IsSorted 0 t.free_list
  pub root : count 0 (keys t.table) ≡ 1

-- The constructor makes a table with the root directory alone.
pub new_inode_table-IsValid :
    (size : ℕ) → 0 < size → size + 1 < u64_mod → IsValid (new_inode_table size)
unfolding new_inode_table Table.assign
new_inode_table-IsValid size pos h = record {
  partition = λ k. ground (arith, MinQueue.count-iota k 1 size);
  balance = omega (arith, MinQueue.length-iota 1 size);
  counted = refl;
  fits = omega arith;
  bounded = h;
  unlocked = refl;
  sorted = IsSorted-zero 1 (MinQueue.iota 1 size) (MinQueue.iota-IsSorted 1 size);
  root = refl;
}

-- A successful allocation of number `i` takes the table `t` to `t'`.
pub record Allocated (type : FileType) (t : InodeTable) (i : ℕ) (t' : InodeTable) : Type 0 where
  pub valid : IsValid t'
  pub was_free : count i (keys t.table) ≡ 0
  pub least : (b : ℕ) → b < i → count b t.free_list ≡ 0
  pub table : t'.table ≡ Table.assign i (new_inode type i) t.table
  pub cur_size : t'.cur_size ≡ t.cur_size + 1
  pub total_size : t'.total_size ≡ t.total_size

allocate_from :
    (type : FileType) (t : InodeTable) (i : ℕ) (rest : List ℕ)
    → IsValid t
    → t.free_list ≡ i ∷ rest
    → t.cur_size < t.total_size
    → (t' : InodeTable) × (allocate_free_inode type t ≡ ok (i, t')) × Allocated type t i t'
unfolding allocate_free_inode MinQueue.pop
allocate_from type t i rest v e room = (
  t',
  ground (arith, v.unlocked, v.bounded),
  record {
    valid = record {
      partition =
          λ k. omega (arith, free_count k, keys-assign_new k i new t.table absent, v.partition k);
      balance = omega (arith, free_length, length-assign_new i new t.table absent, v.balance);
      counted = omega (arith, length-assign_new i new t.table absent, v.counted, v.bounded);
      fits = omega (arith, v.bounded);
      bounded = v.bounded;
      unlocked = v.unlocked;
      sorted = IsSorted-zero i rest sorted.1;
      root =
          ground
            (arith, keys-assign_new 0 i new t.table absent, v.root, v.partition 0, free_count 0);
    };
    was_free = absent;
    least = λ b h.
        MinQueue.count_below i b t.free_list (subst (IsSorted i) (sym e) (omega arith, sorted.1)) h;
    table = refl;
    cur_size = omega (arith, v.bounded);
    total_size = refl;
  },
)
  where
    new : Inode
    new = new_inode type i

    t' : InodeTable
    t' = record t {
      free_list = rest;
      cur_size = add64 t.cur_size 1;
      table = Table.assign i new t.table;
    }

    free_count : (k : ℕ) → count k t.free_list ≡ indicator (i == k) + count k rest
    free_count k = ap (count k) e

    free_length : length t.free_list ≡ suc (length rest)
    free_length = ap length e

    sorted : (0 ≤ i) × IsSorted i rest
    sorted = subst (IsSorted 0) e v.sorted

    absent : count i (keys t.table) ≡ 0
    absent = ground (arith, v.partition i, free_count i)

-- In a valid table with fewer inodes than `total_size_` an allocation succeeds. It gives the least
-- free number, which is in the table from then on with an empty inode of the type asked for, and keeps
-- the table valid.
pub allocate_free_inode_room :
    (type : FileType) (t : InodeTable)
    → IsValid t
    → t.cur_size < t.total_size
    → (i : ℕ) × (t' : InodeTable) × (allocate_free_inode type t ≡ ok (i, t'))
      × Allocated type t i t'
allocate_free_inode_room type t v room = go t.free_list refl
  where
    go :
        (xs : List ℕ)
        → t.free_list ≡ xs
        → (i : ℕ) × (t' : InodeTable) × (allocate_free_inode type t ≡ ok (i, t'))
          × Allocated type t i t'
    go [] e = absurd (omega (arith, ap length e, v.balance, v.counted))
    go (i ∷ rest) e = let (t', r, a) = allocate_from type t i rest v e room in (i, t', r, a)

-- In a full table the answer is `total_size_ + 1`, which is no number of the table, and nothing
-- changes.
pub allocate_free_inode_full :
    (type : FileType) (t : InodeTable)
    → IsValid t
    → t.cur_size ≡ t.total_size
    → (allocate_free_inode type t ≡ ok (t.total_size + 1, t))
      × (count (t.total_size + 1) (keys t.table) ≡ 0)
unfolding allocate_free_inode
allocate_free_inode_full type t v e =
    (ground (arith, v.unlocked, v.bounded), ground (arith, v.partition (t.total_size + 1)))

-- The deletion of number `inum` takes the table `t` to `t'`.
pub record Deleted (t : InodeTable) (inum : ℕ) (t' : InodeTable) : Type 0 where
  pub valid : IsValid t'
  pub table : t'.table ≡ Table.erase inum t.table
  pub free : t'.free_list ≡ MinQueue.push inum t.free_list
  pub cur_size : t'.cur_size + 1 ≡ t.cur_size
  pub total_size : t'.total_size ≡ t.total_size

-- In a valid table the deletion of a number that is there, other than the root's, succeeds: the number
-- leaves the table for the free list, the table is one smaller, and it stays valid.
pub delete_inode_found :
    (inum : ℕ) (i : Inode) (t : InodeTable)
    → IsValid t
    → inum ≢ 0
    → Table.find inum t.table ≡ some i
    → (t' : InodeTable) × (delete_inode inum t ≡ ok (true, t')) × Deleted t inum t'
unfolding delete_inode
delete_inode_found inum i t v ne e = (
  t',
  ground (arith, v.unlocked, e),
  record {
    valid = record {
      partition = λ k. ground (
        arith,
        keys-erase k inum t.table,
        count-push k inum t.free_list,
        v.partition k,
        v.partition inum,
        present,
      );
      balance = omega (
        arith,
        Table.length-erase inum t.table,
        length-push inum t.free_list,
        v.balance,
        present,
      );
      counted =
          omega (arith, Table.length-erase inum t.table, v.counted, v.bounded, v.fits, present);
      fits = omega (arith, Table.length-erase inum t.table, v.counted, v.bounded, v.fits, present);
      bounded = v.bounded;
      unlocked = v.unlocked;
      sorted = push-IsSorted 0 inum t.free_list (omega arith) v.sorted;
      root = ground (arith, keys-erase 0 inum t.table, v.root);
    };
    table = refl;
    free = refl;
    cur_size =
        omega (arith, Table.length-erase inum t.table, v.counted, v.bounded, v.fits, present);
    total_size = refl;
  },
)
  where
    t' : InodeTable
    t' = record t {
      table = Table.erase inum t.table;
      free_list = MinQueue.push inum t.free_list;
      cur_size = sub64 t.cur_size 1;
    }

    present : count inum (keys t.table) ≡ 1
    present = ground (arith, v.partition inum, count_of_some inum i t.table e)

-- Writing through a pointer to an inode of the table keeps the table valid.
pub write_inode-IsValid :
    (inum : ℕ) (i old : Inode) (t : InodeTable)
    → IsValid t
    → Table.find inum t.table ≡ some old
    → IsValid (write_inode inum i t)
unfolding write_inode
write_inode-IsValid inum i old t v e =
    let k = keys-assign_old inum i old t.table e in
    let l = length-assign_old inum i old t.table e in
    record {
      partition = λ b. rw k (v.partition b);
      balance = rw l v.balance;
      counted = rw l v.counted;
      fits = v.fits;
      bounded = v.bounded;
      unlocked = v.unlocked;
      sorted = v.sorted;
      root = rw k v.root;
    }

-- Looking up a number of the table changes nothing.
pub get_inode_found :
    (inum : ℕ) (i : Inode) (t : InodeTable)
    → IsValid t
    → Table.find inum t.table ≡ some i
    → get_inode inum t ≡ ok (some i, t)
unfolding get_inode
get_inode_found inum i t v e = ground (arith, v.unlocked, e)

-- In a valid table, looking up a number that is not there answers null and leaves the lock held: a
-- lookup, an allocation and a deletion after it hang.
pub get_inode_missing :
    (inum other : ℕ) (type : FileType) (t : InodeTable)
    → IsValid t
    → Table.find inum t.table ≡ none
    → (t' : InodeTable) × (get_inode inum t ≡ ok (none, t'))
      × (get_inode other t' ≡ fault deadlock)
      × (allocate_free_inode type t' ≡ fault deadlock)
      × (delete_inode other t' ≡ fault deadlock)
unfolding get_inode allocate_free_inode delete_inode
get_inode_missing inum other type t v e =
    (record t { locked = true }, ground (arith, v.unlocked, e), refl, refl, refl)
