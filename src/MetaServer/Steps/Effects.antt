-- ===== src/MetaServer/Steps/Effects.antt =====
-- What each call does to the names and files.
use sponge_bob.Prelude.{
  ℕ, ◌+◌, ◌*◌, ◌/◌, ◌<◌, ◌≡◌, ◌≢◌, refl, ap, subst, sym, ◌∙◌, String, Option, none, some, List,
  arith, inl, inr, Option-cases, length, get_elem?_total,
}
use sponge_bob.Containers.Table
use sponge_bob.Containers.Table.{Table}
use sponge_bob.Inode.{
  Inode, Dentry, FileType, BlockInfo, file_block_size, reg_file, get_dentry, new_inode, new_dentry,
}
use sponge_bob.MetaServer.Messages.{TransferRequest, TransferReply, success}
use sponge_bob.MetaServer.Transfer.Located.{locate, serve}
use sponge_bob.MetaServer.State.{Service}
use sponge_bob.MetaServer.Consistent.{Consistent}
use sponge_bob.MetaServer.Consistent.Frame.{entry_live}
use sponge_bob.MetaServer.Create.{Created}
use sponge_bob.MetaServer.Remove.File.{Removed}
use sponge_bob.MetaServer.Write.File.{FileWritten}
use sponge_bob.MetaServer.Abstract.{
  File, file_of, file_at, empty_file, view, Sets, Does, writes, write_call, view_eq, entries_differ,
}

locate_some : (bs : List BlockInfo) (p : ℕ) → p < length bs * file_block_size → locate bs p ≢ none
locate_some bs p h e =
    let (b, f) = get_elem?_total bs (p / file_block_size) (omega arith) in
    absurd (ground (arith, e, f))

module _ (hash : String → ℕ) {s s' : Service} (c : Consistent s) (c' : Consistent s') where
  -- Names that lead where they led, to inodes that are as they were, have the files that they had.
  view_same :
      (name : String)
      → get_dentry hash name c'.root ≡ get_dentry hash name c.root
      → ((d : Dentry)
          → get_dentry hash name c.root ≡ some d
          → Table.find d.inum s'.inode_table.table ≡ Table.find d.inum s.inode_table.table)
      → view hash s' name ≡ view hash s name
  view_same name e same =
      view_eq hash c' name
      ∙ ap (file_at s'.inode_table.table) e
      ∙ go (get_dentry hash name c.root) refl
      ∙ sym (view_eq hash c name)
    where
      go :
          (d : Option Dentry)
          → get_dentry hash name c.root ≡ d
          → file_at s'.inode_table.table (get_dentry hash name c.root)
            ≡ file_at s.inode_table.table (get_dentry hash name c.root)
      go none f = rw f refl
      go (some d) f = rw f (rw (same d f, file_at) refl)

module _ (hash : String → ℕ) {s : Service} (c : Consistent s) where
  -- A name that leads to a stored inode has its file.
  pub view_found :
      (name : String) (d : Dentry) (i : Inode)
      → get_dentry hash name c.root ≡ some d
      → Table.find d.inum s.inode_table.table ≡ some i
      → view hash s name ≡ some (file_of i)
  view_found name d i e f = view_eq hash c name ∙ rw e (rw (f, file_at) refl)

  pub view_missing : (name : String) → get_dentry hash name c.root ≡ none → view hash s name ≡ none
  view_missing name e = view_eq hash c name ∙ rw e refl

same_hash :
    (hash : String → ℕ) (name other : String) (root : Inode) (d : Option Dentry)
    → hash other ≡ hash name
    → get_dentry hash name root ≡ d
    → get_dentry hash other root ≡ d
unfolding get_dentry
same_hash hash name other root d e f = ap (λ h. Table.find h root.children) e ∙ f

module _ (hash : String → ℕ) (name : String) {s s' : Service} (c : Consistent s) where
  pub Created-Sets :
      (type : FileType) (i : ℕ)
      → get_dentry hash name c.root ≡ none
      → Created hash name type s c.root i s'
      → Sets hash name (some (empty_file type)) (view hash s) (view hash s')
  unfolding new_inode new_dentry
  Created-Sets type i absent x = record {
    at = λ other e.
        view_found hash x.consistent other (new_dentry hash name i) (new_inode type i)
          (same_hash hash name other x.consistent.root _ e x.named) x.stored;
    others = λ other ne. view_same hash c x.consistent other (x.names other ne) (λ d f.
        let (not_root, (j, live)) = entry_live c (hash other) d (unfold get_dentry in f) in
        x.others d.inum (λ e. absurd (ground (arith, e, live, x.fresh))) not_root);
  }

  pub Removed-Sets :
      (d : Dentry) (i : Inode)
      → get_dentry hash name c.root ≡ some d
      → Table.find d.inum s.inode_table.table ≡ some i
      → Removed hash name d i s c.root s'
      → Sets hash name none (view hash s) (view hash s')
  Removed-Sets d i named found x = record {
    at = λ other e.
        view_missing hash x.consistent other
          (same_hash hash name other x.consistent.root none e x.unnamed);
    others = λ other ne. view_same hash c x.consistent other (x.names other ne) (λ d' f.
        let (not_root, _) = entry_live c (hash other) d' (unfold get_dentry in f) in
        x.others d'.inum
          (entries_differ c (hash other) (hash name) d' d (unfold get_dentry in f)
            (unfold get_dentry in named) ne)
          not_root);
  }

module _ (hash : String → ℕ) (request : TransferRequest) (reply : TransferReply) {s s' : Service}
    (c : Consistent s) (x : FileWritten hash request s c.root reply s') where
  -- The file that the name had is one that `FileWritten` speaks of.
  written_old :
      (e : File)
      → view hash s request.name ≡ some e
      → (x.inode.type ≡ e.type)
        × ((p : ℕ) (place : ℕ × ℕ)
            → e.places p ≡ some place
            → locate x.inode.block_info_list p ≡ some place)
  written_old e v = elim (Option-cases (get_dentry hash request.name c.root)) [
    | inl n ↦ absurd (ground (arith, v, view_missing hash c request.name n))
    | inr (d, n) ↦
        let (_, (i, f)) = entry_live c (hash request.name) d (unfold get_dentry in n) in
        let q : file_of i ≡ e = ground (arith, v, view_found hash c request.name d i n f) in
        subst
          (λ (y : File).
            (x.inode.type ≡ y.type)
            × ((p : ℕ) (place : ℕ × ℕ)
                → y.places p ≡ some place
                → locate x.inode.block_info_list p ≡ some place))
          q (x.type_old d i n f, λ p place. x.stays d i p place n f)
  ]

  written_new : view hash s request.name ≡ none → x.inode.type ≡ reg_file
  written_new v = elim (Option-cases (get_dentry hash request.name c.root)) [
    | inl n ↦ x.type_new n
    | inr (d, n) ↦
        let (_, (i, f)) = entry_live c (hash request.name) d (unfold get_dentry in n) in
        absurd (ground (arith, v, view_found hash c request.name d i n f))
  ]

  -- Each byte of the range has a place, from which the reply serves it.
  written_range :
      (j : ℕ)
      → j < request.length
      → (locate x.inode.block_info_list (request.offset + j) ≢ none)
        × (serve reply.block_info j ≡ locate x.inode.block_info_list (request.offset + j))
  written_range j h =
      let so = x.consistent.sound x.dentry.inum x.inode x.stored in
      (
        locate_some x.inode.block_info_list (request.offset + j) (omega (arith, so.sized, x.size)),
        ground (arith, x.serves.at j),
      )

  pub FileWritten-Does : Does hash (view hash s) (view hash s') (write_call request (success reply))
  FileWritten-Does =
      writes request reply (file_of x.inode) x.bytes x.size written_range written_new written_old
        (record {
          at = λ other e.
              view_found hash x.consistent other x.dentry x.inode
                (same_hash hash request.name other x.consistent.root _ e x.named) x.stored;
          others = λ other ne. view_same hash c x.consistent other (x.names other ne) (λ d f.
              let (not_root, _) = entry_live c (hash other) d (unfold get_dentry in f) in
              x.others d.inum
                (entries_differ x.consistent (hash other) (hash request.name) d x.dentry
                  (unfold get_dentry in (x.names other ne ∙ f)) (unfold get_dentry in x.named) ne)
                not_root);
        })
