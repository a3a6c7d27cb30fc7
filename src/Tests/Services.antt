-- ===== src/Tests/Services.antt =====
-- The handlers on the service of the fixture.
use sponge_bob.Prelude.{
  false, subst, Bool, ◌<◌, if◌then◌else◌, ℕ, ◌+◌, ◌-◌, ◌≤◌, ◌≡◌, refl, true, Option, none, some,
  List, ◌∷◌, arith, min, inl, inr, Bool-cases, ◌==◌,
}
use sponge_bob.Result.{ok, fault, null_pointer}
use sponge_bob.Containers.Table
use sponge_bob.Inode.{dir, get_dentry}
use sponge_bob.SpaceManager.{SpaceManager}
use sponge_bob.MetaServer.Messages.{
  FileBlockInfo, DentryInfo, TransferRequest, TransferReply, success,
}
use sponge_bob.MetaServer.Transfer.Located.{Serves, serve}
use sponge_bob.MetaServer.State.{Service}
use sponge_bob.MetaServer.Handlers.{
  read_directory, own_entry, read_file, write_file, create_file, remove_file, open_file,
  register_memory_region,
}
use sponge_bob.MetaServer.Consistent.{Consistent}
use sponge_bob.MetaServer.Write.File.{Writable, FileWritten, write_file_total, read_file-write_file}
use sponge_bob.MetaServer.Read.{read_file_total}
use sponge_bob.MetaServer.Create.{Created, create_file_new}
use sponge_bob.MetaServer.Remove.File.{Removed, remove_file_total}
use sponge_bob.MetaServer.Directory.{DescribesAll, read_directory_total}
use sponge_bob.MetaServer.Full.{create_file_full}
use sponge_bob.MetaServer.Open.{Opened, open_file_total}
use sponge_bob.MetaServer.Register.{Registered, register_memory_region_total}
use sponge_bob.MetaClient.{server_stub, int_value}
use sponge_bob.Fuse.{fuse_mkdir, fuse_unlink, neg}
use sponge_bob.Rdma.Types.{pos, negsuc}
use sponge_bob.MetaServer.Abstract.{File, view}
use sponge_bob.Client.{Remote, read, write}
use sponge_bob.Client.Transfers.{Moves, read-write, read-fuse_unlink, fuse_mkdir_new}
use sponge_bob.Tests.Fixture.{
  full_service, full_service-Consistent, name_length, service, service-Consistent, root, file_a,
  dentry_a, inodes, disk,
}

abbrev rand : ℕ → ℕ
rand n = n

-- A range over the end of the first block of a file that is not there.
abbrev write_bc : TransferRequest
write_bc = record { name = "bc"; offset = 1048570; length = 20 }

abbrev read_a : TransferRequest
read_a = record { name = "a"; offset = 2; length = 10 }

named_a : get_dentry name_length "a" root ≡ some dentry_a
unfolding get_dentry Table.find
named_a = refl

absent_bc : get_dentry name_length "bc" root ≡ none
unfolding get_dentry Table.find
absent_bc = refl

found_a : Table.find 1 inodes.table ≡ some file_a
unfolding Table.find
found_a = refl

room_at :
    (k : ℕ) (sm : SpaceManager)
    → Table.find k service.space_manager ≡ some sm
    → sm.cur_blocks + 2 ≤ sm.total_blocks
unfolding Table.find
room_at k sm f = elim (Bool-cases (2147483649 == k)) [
  | inl e ↦
      let q : disk ≡ sm = ground (arith, f, e) in
      subst (λ m. m.cur_blocks + 2 ≤ m.total_blocks) q (omega arith)
  | inr e ↦ absurd (ground (arith, f, e))
]

Writable-bc : Writable name_length write_bc service root
Writable-bc = record {
  short = omega arith;
  room = record { some_server = omega arith; at = room_at };
  inodes = λ e. omega arith;
}

write_file_total_example :
    (reply : TransferReply) × (s' : Service) × (write_file name_length rand write_bc service
      ≡ ok (success reply, s'))
    × FileWritten name_length write_bc service root reply s'
write_file_total_example = write_file_total name_length rand write_bc service-Consistent Writable-bc

read_file-write_file_example :
    (reply : TransferReply) × (s' : Service) × (read_file name_length write_bc s'
      ≡ ok (success reply, s'))
read_file-write_file_example =
    let (reply, s', run, x) =
      write_file_total name_length rand write_bc service-Consistent Writable-bc in
    (
      reply,
      s',
      read_file-write_file name_length rand write_bc service-Consistent Writable-bc reply s' run,
    )

read_file_total_example :
    (reply : TransferReply) × (read_file name_length read_a service ≡ ok (success reply, service))
    × (reply.bytes ≡ min 10 (5 - 2))
    × Serves file_a.block_info_list 2 0 reply.bytes reply.block_info
read_file_total_example =
    read_file_total name_length read_a service-Consistent dentry_a file_a named_a found_a
      (omega arith) (omega arith)

create_file_new_example :
    (i : ℕ) × (s' : Service) × (create_file name_length "bc" true service ≡ ok (success i, s'))
    × Created name_length "bc" dir service root i s'
create_file_new_example =
    create_file_new name_length "bc" service-Consistent absent_bc (omega arith) true

remove_file_total_example :
    (s' : Service) × (remove_file name_length "a" service ≡ ok (success true, s'))
    × Removed name_length "a" dentry_a file_a service root s'
remove_file_total_example =
    remove_file_total name_length "a" service-Consistent dentry_a named_a file_a found_a
      (λ e. absurd (omega arith))

open_file_total_example :
    (fd : Option ℕ) × (s' : Service) × (open_file name_length "bc" service ≡ ok (success fd, s'))
    × Opened name_length "bc" service fd s'
open_file_total_example = open_file_total name_length "bc" service-Consistent (λ e. omega arith)

register_memory_region_total_example :
    (s' : Service) × (register_memory_region 2 4194304 3145728 service ≡ ok (success tt, s'))
    × Registered 2 4194304 3145728 service s'
register_memory_region_total_example =
    register_memory_region_total 2 4194304 3145728 service-Consistent (omega arith) (omega arith)
      (omega arith) refl (λ b. refl)

-- A socket that logs the transfers.
abbrev logged : Remote (List (ℕ × ℕ × ℕ × ℕ))
logged = record {
  remote_read = λ buf node mem len log. ok (true, (buf, node, mem, len) ∷ log);
  remote_write = λ buf node mem len log. ok (true, (buf, node, mem, len) ∷ log);
}

read-write_example :
    (blocks : List FileBlockInfo) × (e : File) × (s' : Service) × Consistent s'
    × (view name_length s' "bc" ≡ some e)
    × ((j : ℕ) → j < 20 → serve blocks j ≡ e.places (1048570 + j))
    × ((x x' : List (ℕ × ℕ × ℕ × ℕ)) (done : Bool)
        → Moves logged.remote_write 100 blocks x done x'
        → write (server_stub name_length rand) logged "bc" 100 1048570 20 (service, x)
          ≡ ok ((if done then int_value 20 else negsuc 0), (s', x')))
    × ((y y' : List (ℕ × ℕ × ℕ × ℕ)) (done : Bool)
        → Moves logged.remote_read 900 blocks y done y'
        → read (server_stub name_length rand) logged "bc" 900 1048570 20 (s', y)
          ≡ ok ((if done then int_value 20 else negsuc 0), (s', y')))
read-write_example =
    read-write name_length rand logged "bc" 100 900 1048570 20 service-Consistent Writable-bc

read-fuse_unlink_example :
    (s' : Service) × (fuse_unlink (server_stub name_length rand) 2 "a" service ≡ ok (pos 0, s'))
    × ((y : List (ℕ × ℕ × ℕ × ℕ))
        → read (server_stub name_length rand) logged "a" 900 0 5 (s', y) ≡ fault null_pointer)
read-fuse_unlink_example =
    read-fuse_unlink name_length rand logged 2 "a" 900 0 5 service-Consistent dentry_a named_a

fuse_mkdir_new_example :
    (i : ℕ) × (s' : Service) × (fuse_mkdir (server_stub name_length rand) 2 "bc" service
      ≡ ok (neg 2, s'))
    × Created name_length "bc" dir service root i s'
fuse_mkdir_new_example =
    fuse_mkdir_new name_length rand 2 "bc" service-Consistent absent_bc (omega arith)

read_directory_total_example :
    (es : List DentryInfo) × (read_directory "/" service
      ≡ ok (success (own_entry "." ∷ own_entry ".." ∷ es), service))
    × DescribesAll inodes root.children es
read_directory_total_example = read_directory_total "/" service-Consistent

create_file_full_example :
    (s' : Service) × (create_file name_length "bc" false full_service ≡ ok (success 3, s'))
    × (Table.find 3 s'.inode_table.table ≡ none)
    × (read_directory "/" s' ≡ fault null_pointer)
create_file_full_example =
    create_file_full name_length "bc" full_service-Consistent absent_bc refl false "/"
