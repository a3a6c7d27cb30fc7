-- ===== src/MetaServer/Write/File.antt =====
-- `WriteFile` of a name, there or not, and `ReadFile` of the same range after it.
use sponge_bob.Prelude.{
  ℕ, ◌+◌, ◌^◌, ◌≤◌, ◌<◌, ◌≡◌, refl, ap, sym, ◌∙◌, ◌≢◌, String, false, none, some, arith,
  Option-cases, inl, inr, sub64, subst,
}
use sponge_bob.Result.{ok, or_fault, ◌>>=◌}
use sponge_bob.Containers.Table
use sponge_bob.Inode.{Inode, Dentry, reg_file, file_block_size, new_inode, new_dentry, get_dentry}
use sponge_bob.InodeTable.Partition.{get_inode_found}
use sponge_bob.MetaServer.Messages.{TransferRequest, TransferReply, success}
use sponge_bob.MetaServer.Transfer.{read_blocks}
use sponge_bob.MetaServer.Transfer.Located.{locate, Serves}
use sponge_bob.MetaServer.State.{Service, root_inum, create_file_, file_to_write}
use sponge_bob.MetaServer.Handlers.{write_inode_range, write_file, read_file, clamp_length}
use sponge_bob.MetaServer.Consistent.{Consistent}
use sponge_bob.MetaServer.Consistent.Frame.{entry_live}
use sponge_bob.MetaServer.Enlarge.{Room}
use sponge_bob.MetaServer.Create.{Created, create_file__new}
use sponge_bob.MetaServer.Read.{read_file_eq}
use sponge_bob.MetaServer.Write.{blocks_of_size, Fits, write_inode_range_run}

-- There is room for a write: the end of the range is below 2 ^ 51, every server has the blocks for
-- it, and a name that is not there can get an inode.
pub record Writable (hash : String → ℕ) (request : TransferRequest) (s : Service) (root : Inode)
    : Type 0 where
  pub short : request.offset + request.length + file_block_size ≤ 2 ^ 51
  pub room : Room (blocks_of_size (request.offset + request.length)) s.space_manager
  pub inodes :
      get_dentry hash request.name root ≡ none → s.inode_table.cur_size < s.inode_table.total_size

Writable-Fits :
    (hash : String → ℕ) (request : TransferRequest) (s s' : Service) (root i : Inode)
    → Writable hash request s root
    → s'.space_manager ≡ s.space_manager
    → Fits request i s'
Writable-Fits hash request s s' root i w e = record {
  short = w.short;
  room =
      rw e (record {
        some_server = w.room.some_server;
        at = λ k sm f. omega (arith, w.room.at k sm f);
      });
}

-- What a write of a name leaves: the name leads to an inode of which `Written` holds.
pub record FileWritten (hash : String → ℕ) (request : TransferRequest) (s : Service) (root : Inode)
    (reply : TransferReply) (s' : Service) : Type 0 where
  pub consistent : Consistent s'
  pub dentry : Dentry
  pub named : get_dentry hash request.name consistent.root ≡ some dentry
  pub inode : Inode
  pub stored : Table.find dentry.inum s'.inode_table.table ≡ some inode
  pub size : inode.size ≡ request.offset + request.length
  pub type_old :
      (d : Dentry) (i : Inode)
      → get_dentry hash request.name root ≡ some d
      → Table.find d.inum s.inode_table.table ≡ some i
      → inode.type ≡ i.type
  pub type_new : get_dentry hash request.name root ≡ none → inode.type ≡ reg_file
  pub names :
      (other : String)
      → hash other ≢ hash request.name
      → get_dentry hash other consistent.root ≡ get_dentry hash other root
  pub bytes : reply.bytes ≡ request.length
  pub serves : Serves inode.block_info_list request.offset 0 request.length reply.block_info
  pub stays :
      (d : Dentry) (i : Inode) (p : ℕ) (place : ℕ × ℕ)
      → get_dentry hash request.name root ≡ some d
      → Table.find d.inum s.inode_table.table ≡ some i
      → locate i.block_info_list p ≡ some place
      → locate inode.block_info_list p ≡ some place
  pub others :
      (k : ℕ)
      → k ≢ dentry.inum
      → k ≢ root_inum
      → Table.find k s'.inode_table.table ≡ Table.find k s.inode_table.table
  pub file_map : s'.file_map ≡ s.file_map
  pub again : read_blocks inode request.offset request.length ≡ ok (reply.block_info, 0)

-- The root directory of a service is one.
same_root :
    {s s' : Service} (c : Consistent s) (c' : Consistent s')
    → Table.find root_inum s'.inode_table.table ≡ Table.find root_inum s.inode_table.table
    → c'.root ≡ c.root
same_root c c' e = ground (arith, c.root_found, c'.root_found, e)

read_again :
    (hash : String → ℕ) (request : TransferRequest) {s s' : Service} {root : Inode}
    {reply : TransferReply}
    → request.offset + request.length + file_block_size ≤ 2 ^ 51
    → FileWritten hash request s root reply s'
    → read_file hash request s' ≡ ok (success reply, s')
unfolding clamp_length
read_again hash request {s' = s'} {reply = reply} short x =
    let len = request.length in
    let clamped : clamp_length request.offset len x.inode.size ≡ len = ground (arith, x.size) in
    let whole : sub64 len 0 ≡ reply.bytes = omega (arith, x.bytes) in
    read_file_eq hash request x.consistent x.dentry x.inode len 0 reply.block_info x.named x.stored
      clamped x.again
    ∙ ap (λ n. ok (success (record { block_info = reply.block_info; bytes = n }), s')) whole

module _ (hash : String → ℕ) (rand : ℕ → ℕ) (request : TransferRequest) {s : Service}
    (c : Consistent s) (w : Writable hash request s c.root) where
  file_to_write_old :
      (d : Dentry)
      → get_dentry hash request.name c.root ≡ some d
      → file_to_write hash request.name c.root s.inode_table ≡ ok (d.inum, s.inode_table)
  unfolding file_to_write
  file_to_write_old d e = rw (e, file_to_write) refl

  file_to_write_new :
      (i : ℕ) (s' : Service)
      → get_dentry hash request.name c.root ≡ none
      → create_file_ hash request.name false s.inode_table ≡ ok (i, s'.inode_table)
      → Created hash request.name reg_file s c.root i s'
      → file_to_write hash request.name c.root s.inode_table ≡ ok (i, s'.inode_table)
  unfolding file_to_write new_dentry
  file_to_write_new i s' e run made =
      rw (e, file_to_write)
        (rw (run, ◌>>=◌)
          (rw (made.consistent.root_found, or_fault) (rw (made.named, or_fault) refl)))

  write_file_eq :
      (inum : ℕ) (i : Inode) (s1 : Service) (c1 : Consistent s1)
      → file_to_write hash request.name c.root s.inode_table ≡ ok (inum, s1.inode_table)
      → Table.find inum s1.inode_table.table ≡ some i
      → write_file hash rand request s
        ≡ write_inode_range rand inum i request (record s { inode_table = s1.inode_table })
  unfolding write_file
  write_file_eq inum i s1 c1 to found =
      rw (get_inode_found root_inum c.root s.inode_table c.table c.root_found)
        (rw (to, ◌>>=◌) (rw (get_inode_found inum i s1.inode_table c1.table found) refl))

  -- A write of a name that is there.
  write_old :
      (d : Dentry) (i : Inode)
      → get_dentry hash request.name c.root ≡ some d
      → Table.find d.inum s.inode_table.table ≡ some i
      → (reply : TransferReply) × (s' : Service) × (write_file hash rand request s
          ≡ ok (success reply, s'))
        × FileWritten hash request s c.root reply s'
  write_old d i named found =
      let (not_root, _) = entry_live c (hash request.name) d (unfold get_dentry in named) in
      let (reply, s', run, x) =
        write_inode_range_run rand request d.inum i s c not_root found
          (Writable-Fits hash request s s c.root i w refl) in
      let root = same_root c x.consistent (x.others root_inum (λ e. not_root (sym e))) in
      (
        reply,
        s',
        write_file_eq d.inum i s c (file_to_write_old d named) found ∙ run,
        record {
          consistent = x.consistent;
          dentry = d;
          named = ap (get_dentry hash request.name) root ∙ named;
          inode = x.inode;
          stored = x.stored;
          size = x.size;
          type_old = λ d' i' e f.
              let same : d' ≡ d = ground (arith, e, named) in
              let same_inode : i' ≡ i = ground (arith, f, found, same) in
              x.type ∙ ap (λ (y : Inode). y.type) (sym same_inode);
          type_new = λ e. absurd (ground (arith, e, named));
          names = λ other ne. ap (get_dentry hash other) root;
          bytes = x.bytes;
          serves = x.serves;
          stays = λ d' i' p place e f l.
              let same : d' ≡ d = ground (arith, e, named) in
              let same_inode : i' ≡ i = ground (arith, f, found, same) in
              x.stays p place
                (subst (λ (y : Inode). locate y.block_info_list p ≡ some place) same_inode l);
          others = λ k ne nr. x.others k ne;
          file_map = x.file_map;
          again = x.again;
        },
      )

  -- A write of a name that is not there.
  write_new :
      get_dentry hash request.name c.root ≡ none
      → (reply : TransferReply) × (s' : Service) × (write_file hash rand request s
          ≡ ok (success reply, s'))
        × FileWritten hash request s c.root reply s'
  write_new absent =
      let (k, s1, run1, made) = create_file__new hash request.name c absent (w.inodes absent) in
      let (reply, s', run, x) =
        write_inode_range_run rand request k (new_inode reg_file k) s1 made.consistent made.not_root
          made.stored
          (Writable-Fits hash request s s1 c.root (new_inode reg_file k) w
            (ap (λ (y : Service). y.space_manager) made.shape)) in
      let root =
        same_root made.consistent x.consistent (x.others root_inum (λ e. made.not_root (sym e))) in
      (
        reply,
        s',
        write_file_eq k (new_inode reg_file k) s1 made.consistent
              (file_to_write_new k s1 absent run1 made) made.stored
            ∙ ap (write_inode_range rand k (new_inode reg_file k) request) (sym made.shape)
            ∙ run,
        record {
          consistent = x.consistent;
          dentry = new_dentry hash request.name k;
          named = ap (get_dentry hash request.name) root ∙ made.named;
          inode = x.inode;
          stored = unfold new_dentry in x.stored;
          size = x.size;
          type_old = λ d' i' e f. absurd (ground (arith, e, absent));
          type_new = λ e. unfold new_inode in x.type;
          names = λ other ne. ap (get_dentry hash other) root ∙ made.names other ne;
          bytes = x.bytes;
          serves = x.serves;
          stays = λ d' i' p place e f l. absurd (ground (arith, e, absent));
          others = λ j ne nr. unfold new_dentry in (x.others j ne ∙ made.others j ne nr);
          file_map = x.file_map ∙ ap (λ (y : Service). y.file_map) made.shape;
          again = x.again;
        },
      )

  -- In a consistent service with room for it (`Writable`: the end of the range below 2 ^ 51, the
  -- blocks left on every server, a free inode for a new name), a write succeeds. The service stays
  -- consistent; the name leads to an inode whose size is the end of the range, of the file's type or,
  -- if the name is new, a regular file, and names of another hash lead where they led; the reply
  -- counts the whole length and serves each byte of the range by its place in that inode; a byte of
  -- the file that had a place keeps it; the other inodes but the root and the descriptors are as
  -- before; and cutting the range for a read gives the blocks of the reply.
  pub write_file_total :
      (reply : TransferReply) × (s' : Service) × (write_file hash rand request s
        ≡ ok (success reply, s'))
      × FileWritten hash request s c.root reply s'
  write_file_total = elim (Option-cases (get_dentry hash request.name c.root)) [
    | inl absent ↦ write_new absent
    | inr (d, named) ↦
        let (_, (i, found)) = entry_live c (hash request.name) d (unfold get_dentry in named) in
        write_old d i named found
  ]

  -- When such a write has given a reply, a read of the same range answers the same reply, and changes
  -- nothing.
  pub read_file-write_file :
      (reply : TransferReply) (s' : Service)
      → write_file hash rand request s ≡ ok (success reply, s')
      → read_file hash request s' ≡ ok (success reply, s')
  read_file-write_file reply s' run =
      let (reply', s'', run', x) = write_file_total in
      cc (read_again hash request w.short x, run, run')
