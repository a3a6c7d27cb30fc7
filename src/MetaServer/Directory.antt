-- ===== src/MetaServer/Directory.antt =====
-- `ReadDirectory`.
use sponge_bob.Prelude.{ℕ, ◌<◌, ◌≡◌, refl, String, some, List, [], ◌∷◌, arith, count}
use sponge_bob.Result.{ok, ◌>>=◌}
use sponge_bob.Containers.Table
use sponge_bob.Containers.Table.{Table, keys, find_total}
use sponge_bob.Inode.{Inode, Dentry, is_dir}
use sponge_bob.InodeTable.{InodeTable}
use sponge_bob.InodeTable.Partition.{IsValid, get_inode_found}
use sponge_bob.MetaServer.Messages.{DentryInfo, success}
use sponge_bob.MetaServer.State.{Service, root_inum}
use sponge_bob.MetaServer.Handlers.{read_directory, list_entries, own_entry}
use sponge_bob.MetaServer.Consistent.{entry_inums, Consistent}

-- The message `e` has the name and the number of the entry, and the type and the size of its inode.
pub record Describes (t : InodeTable) (d : Dentry) (e : DentryInfo) : Type 0 where
  name : e.name ≡ d.name
  inum : e.inum ≡ d.inum
  inode : Inode
  stored : Table.find d.inum t.table ≡ some inode
  is_dir : e.is_dir ≡ is_dir inode
  size : e.size ≡ inode.size

-- One message for each entry, in the order of the map.
pub data DescribesAll (t : InodeTable) : Table Dentry → List DentryInfo → Type 0 where
  none_left : DescribesAll t [] []
  next :
      (h : ℕ) (d : Dentry) (ds : Table Dentry) (e : DentryInfo) (es : List DentryInfo)
      → Describes t d e
      → DescribesAll t ds es
      → DescribesAll t ((h, d) ∷ ds) (e ∷ es)

list_entries_run :
    (t : InodeTable)
    → IsValid t
    → (ds : Table Dentry) → ((k : ℕ) → 0 < count k (entry_inums ds) → 0 < count k (keys t.table))
    → (es : List DentryInfo) × (list_entries ds t ≡ ok (es, t)) × DescribesAll t ds es
unfolding list_entries
list_entries_run t v [] live = ([], refl, none_left)
list_entries_run t v ((h, d) ∷ ds) live =
    let (i, found) =
      find_total d.inum 0 t.table (ground (arith, live d.inum, v.partition d.inum)) in
    let (es, run, all) = list_entries_run t v ds (λ k h. live k (omega arith)) in
    let e : DentryInfo = record {
      name = d.name;
      is_dir = is_dir i;
      inum = d.inum;
      size = i.size;
    } in
    (
      e ∷ es,
      rw (get_inode_found d.inum i t v found) (rw (run, ◌>>=◌) refl),
      next h d ds e es
          (record {
            name = refl;
            inum = refl;
            inode = i;
            stored = found;
            is_dir = refl;
            size = refl;
          })
          all,
    )

-- In a consistent service, `ReadDirectory` of any path succeeds and changes nothing. It lists `.`, `..`
-- and then each entry of the root directory once, with the type and the size of its inode.
pub read_directory_total :
    (path : String) {s : Service} (c : Consistent s)
    → (es : List DentryInfo) × (read_directory path s
        ≡ ok (success (own_entry "." ∷ own_entry ".." ∷ es), s))
      × DescribesAll s.inode_table c.root.children es
unfolding read_directory
read_directory_total path {s} c =
    let (es, run, all) =
      list_entries_run s.inode_table c.table c.root.children (λ k h. omega (arith, c.named k)) in
    (
      es,
      rw (get_inode_found root_inum c.root s.inode_table c.table c.root_found)
          (rw (run, ◌>>=◌) refl),
      all,
    )
