-- ===== src/MetaServer/Abstract.antt =====
-- What the metadata service promises: a map from names to files, each with a type, a size and a place
-- for each of its bytes. Names of one hash are one name.
use sponge_bob.Prelude.{
  ℕ, ◌+◌, ◌≤◌, ◌<◌, ◌≡◌, ◌≢◌, refl, String, Option, none, some, List, [], ◌∷◌, arith, count, Bool,
  true, false, ◌-◌, min, u64_mod, if◌then◌else◌,
}
use sponge_bob.Containers.Table
use sponge_bob.Containers.Table.{Table}
use sponge_bob.Inode.{Inode, Dentry, FileType, reg_file, dir, get_dentry}
use sponge_bob.MetaServer.Messages.{TransferRequest, TransferReply, DentryInfo, Response, success}
use sponge_bob.MetaServer.Transfer.Located.{locate, serve}
use sponge_bob.MetaServer.State.{Service, root_inum}
use sponge_bob.MetaServer.Consistent.{entry_inums, Consistent}

-- A file: `places p` is the server and the address of its byte `p`, if it has a block for it.
pub record File : Type 0 where
  pub type : FileType
  pub size : ℕ
  pub places : ℕ → Option (ℕ × ℕ)

-- The names and their files.
abbrev pub Files : Type 0
Files = String → Option File

abbrev pub file_of : Inode → File
file_of i = record { type = i.type; size = i.size; places = locate i.block_info_list }

-- The file that an entry of the directory leads to.
abbrev pub file_at : Table Inode → Option Dentry → Option File
file_at m none = none
file_at m (some d) = elim (Table.find d.inum m) [ none ↦ none | some i ↦ some (file_of i) ]

-- The names and files of a service.
abbrev pub view : (String → ℕ) → Service → Files
view hash s name = elim (Table.find root_inum s.inode_table.table) [
  | none ↦ none
  | some root ↦ file_at s.inode_table.table (get_dentry hash name root)
]

-- The calls, each with its answer.
pub data Call : Type 0 where
  read_call : TransferRequest → Response TransferReply → Call
  write_call : TransferRequest → Response TransferReply → Call
  create_call : String → Bool → Response ℕ → Call
  open_call : String → Response (Option ℕ) → Call
  close_call : ℕ → Response Bool → Call
  remove_call : String → Response Bool → Call
  list_call : String → Response (List DentryInfo) → Call
  register_call : ℕ → ℕ → ℕ → Response (Unit {0}) → Call

abbrev pub empty_file : FileType → File
empty_file type = record { type = type; size = 0; places = λ p. none }

abbrev pub Same : Files → Files → Type 0
Same f f' = (name : String) → f' name ≡ f name

-- What each call does to the names and files.
module _ (hash : String → ℕ) where
  -- `name`, and every name of its hash, has the file `e` afterwards; the other names keep theirs.
  pub record Sets (name : String) (e : Option File) (f f' : Files) : Type 0 where
    pub at : (other : String) → hash other ≡ hash name → f' other ≡ e
    pub others : (other : String) → hash other ≢ hash name → f' other ≡ f other

  pub data Does (f f' : Files) : Call → Type 0 where
    -- Only a name that is there is read. From inside the file on, the answer has the bytes up to its
    -- end, at most those asked for, and each of them is served by its place.
    reads :
        (request : TransferRequest) (response : Response TransferReply) (e : File)
        → f request.name ≡ some e
        → (request.offset ≤ e.size
            → request.offset + request.length < u64_mod
            → (reply : TransferReply) × (response ≡ success reply)
              × (reply.bytes ≡ min request.length (e.size - request.offset))
              × ((j : ℕ)
                  → j < reply.bytes
                  → serve reply.block_info j ≡ e.places (request.offset + j)))
        → Same f f'
        → Does f f' (read_call request response)
    -- A write ends the file at the end of the range, gives each byte of the range a place, from which
    -- the answer serves it, and leaves the places that the file had. A new file is a regular one.
    writes :
        (request : TransferRequest) (reply : TransferReply) (e' : File)
        → reply.bytes ≡ request.length
        → e'.size ≡ request.offset + request.length
        → ((j : ℕ)
            → j < request.length
            → (e'.places (request.offset + j) ≢ none)
              × (serve reply.block_info j ≡ e'.places (request.offset + j)))
        → (f request.name ≡ none → e'.type ≡ reg_file)
        → ((e : File)
            → f request.name ≡ some e
            → (e'.type ≡ e.type)
              × ((p : ℕ) (place : ℕ × ℕ) → e.places p ≡ some place → e'.places p ≡ some place))
        → Sets request.name (some e') f f'
        → Does f f' (write_call request (success reply))
    -- A new name gets an empty file; one that is there keeps its file, whatever type was asked for.
    creates :
        (name : String) (dir_wanted : Bool) (response : Response ℕ)
        → f name ≡ none
        → Sets name (some (empty_file (if dir_wanted then dir else reg_file))) f f'
        → Does f f' (create_call name dir_wanted response)
    creates_none :
        (name : String) (dir_wanted : Bool) (response : Response ℕ) (e : File)
        → f name ≡ some e
        → Same f f'
        → Does f f' (create_call name dir_wanted response)
    opens_new :
        (name : String) (response : Response (Option ℕ))
        → f name ≡ none
        → Sets name (some (empty_file reg_file)) f f'
        → Does f f' (open_call name response)
    opens_old :
        (name : String) (response : Response (Option ℕ)) (e : File)
        → f name ≡ some e
        → Same f f'
        → Does f f' (open_call name response)
    closes : (fd : ℕ) (response : Response Bool) → Same f f' → Does f f' (close_call fd response)
    removes :
        (name : String) (e : File)
        → f name ≡ some e
        → Sets name none f f'
        → Does f f' (remove_call name (success true))
    removes_none :
        (name : String) → f name ≡ none → Same f f' → Does f f' (remove_call name (success false))
    lists :
        (path : String) (response : Response (List DentryInfo))
        → Same f f'
        → Does f f' (list_call path response)
    registers :
        (nodeid addr len : ℕ) (response : Response (Unit {0}))
        → Same f f'
        → Does f f' (register_call nodeid addr len response)

-- In a consistent service the view is that of the root directory.
pub view_eq :
    (hash : String → ℕ) {s : Service} (c : Consistent s) (name : String)
    → view hash s name ≡ file_at s.inode_table.table (get_dentry hash name c.root)
view_eq hash {s} c name = rw (c.root_found, view) refl

count_entry :
    (h : ℕ) (d : Dentry) (ds : Table Dentry)
    → Table.find h ds ≡ some d
    → 1 ≤ count d.inum (entry_inums ds)
unfolding Table.find
count_entry h d [] e = absurd (ground (arith, e))
count_entry h d ((j, w) ∷ ds) e = ground (arith, count_entry h d ds)

count_entries :
    (h h' : ℕ) (d d' : Dentry) (ds : Table Dentry)
    → Table.find h ds ≡ some d
    → Table.find h' ds ≡ some d'
    → h ≢ h'
    → d.inum ≡ d'.inum
    → 2 ≤ count d.inum (entry_inums ds)
unfolding Table.find
count_entries h h' d d' [] e e' ne same = absurd (ground (arith, e))
count_entries h h' d d' ((j, w) ∷ ds) e e' ne same =
    ground (arith, count_entries h h' d d' ds, count_entry h d ds, count_entry h' d' ds)

-- Entries under different hashes have different numbers.
pub entries_differ :
    {s : Service} (c : Consistent s) (h h' : ℕ) (d d' : Dentry)
    → Table.find h c.root.children ≡ some d
    → Table.find h' c.root.children ≡ some d'
    → h ≢ h'
    → d.inum ≢ d'.inum
entries_differ c h h' d d' e e' ne same = absurd (
    ground (
      arith,
      count_entries h h' d d' c.root.children e e' ne same,
      c.named d.inum,
      c.table.partition d.inum,
    ))
