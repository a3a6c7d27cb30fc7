-- ===== src/Tests/Sockets.antt =====
-- Connections: the configuration, the exchange over a socket, the queue pairs, and the nodes that join.
use sponge_bob.Prelude.{
  ℕ, zero, suc, ◌+◌, ◌≡◌, ◌≢◌, refl, ap, sym, ◌∙◌, String, true, none, some, List, [], ◌∷◌, arith,
  length, ltb, ◌==◌, if◌then◌else◌, ℤ, pos, get_elem?,
}
use text.Mathlib.Text
use sponge_bob.Result.{ok, fault, out_of_fuel}
use sponge_bob.Containers.Table
use sponge_bob.Configuration.{Settings, uint16, new_configuration, get_ip_by_id, get_id_by_ip}
use sponge_bob.Configuration.Lookups.{Separate, none_left, apart, get_ip_by_id-get_id_by_ip}
use sponge_bob.Rdma.Types.{RdmaSocket}
use sponge_bob.Rdma.Connect.Types.{bytes, Net}
use sponge_bob.Rdma.Start.{get_node_id}
use sponge_bob.Inode.{new_inode}
use sponge_bob.InodeTable.{new_inode_table, create_root_dir}
use sponge_bob.MetaServer.State.{Service, new_service}
use sponge_bob.MetaServer.Consistent.{owned}
use sponge_bob.MetaServer.Register.{Registered, new_service-Consistent}
use sponge_bob.MetaClient.{server_stub}
use sponge_bob.Storage.{Pool, new_storage_server}
use sponge_bob.Storage.Registers.{new_storage_server-Registered}
use sponge_bob.Tests.Fixture.{name_length}
use sponge_bob.Tests.Transfers.{socket}
use sponge_bob.Rdma.Connect.Sync.{data_sync}
use sponge_bob.Rdma.Connect.Sync.Ends.{
  enough, more, overwrite_all, data_sync-Reads, data_sync_endless,
}

abbrev ip_1 : String
ip_1 = "192.168.10.3"

abbrev ip_2 : String
ip_2 = "192.168.10.4"

abbrev settings : Settings
settings = record {
  nodes = (pos 1, ip_1) ∷ (pos 2, ip_2) ∷ [];
  metaip = "192.168.10.3:50060";
  rdma_port = 1;
  rdma_tcp_port = 56789;
}

no_text : (ip_1 ≡ ip_2) → ⊥
no_text e = absurd (ground (arith, ap (λ t. Text.◌==◌ ip_1 t) e))

two_nodes : Separate settings.nodes
two_nodes =
    apart (λ j other f. second j other f)
      (apart (λ j other f. absurd (ground (arith, f))) none_left)
  where
    second :
        (j : ℕ) (other : ℤ × String)
        → get_elem? ((pos 2, ip_2) ∷ []) j ≡ some other
        → (1 ≢ uint16 other.0) × (ip_1 ≢ other.1)
    second zero other f =
        let e : (pos 2, ip_2) ≡ other = ground (arith, f) in
        (
          λ q. absurd (omega (arith, q, ap (λ (p : ℤ × String). uint16 p.0) e)),
          λ q. no_text (q ∙ sym (ap (λ (p : ℤ × String). p.1) e)),
        )
    second (suc j) other f = absurd (ground (arith, f))

get_ip_by_id-get_id_by_ip_example :
    (get_ip_by_id (uint16 (pos 2)) (new_configuration settings)
      ≡ (ip_2, new_configuration settings))
    × (get_id_by_ip ip_2 (new_configuration settings)
        ≡ (uint16 (pos 2), new_configuration settings))
    × ((new_configuration settings).server_count ≡ length settings.nodes)
get_ip_by_id-get_id_by_ip_example = get_ip_by_id-get_id_by_ip settings 1 (pos 2) ip_2 two_nodes refl

abbrev zeros : List ℕ
zeros = 0 ∷ 0 ∷ 0 ∷ []

abbrev sent : List ℕ
sent = 1 ∷ 2 ∷ 3 ∷ []

abbrev two_pieces : List (List ℕ)
two_pieces = (5 ∷ 6 ∷ []) ∷ (7 ∷ []) ∷ []

-- The calls of a fabric that counts them: `read` gives two bytes first and then one more.
abbrev slow : Net ℕ
slow = record {
  create_qp = λ attr f. (some f, f + 1);
  qp_num = λ qp f. 100 + qp;
  modify_qp = λ qp attr masks f. (true, f + 1);
  query_gid = λ port index f. (some [], f + 1);
  write = λ sock bs f. (pos (length bs), f);
  read = λ sock n f. (if f == 0 then bytes (5 ∷ 6 ∷ []) else bytes (7 ∷ []), f + 1);
  socket = λ f. (some 3, f);
  connect = λ sock ip port f. (ltb 2 f, f + 1);
  accept = λ sock f. (none, f);
}

-- The second piece covers a part of the first.
data_sync-Reads_example :
    (data_sync slow 2 4 3 sent zeros 0 ≡ ok (pos 0, overwrite_all slow two_pieces zeros, 2))
    × ((bs : List ℕ)
        → two_pieces ≡ bs ∷ []
        → length zeros ≡ length bs
        → overwrite_all slow two_pieces zeros ≡ bs)
data_sync-Reads_example =
    data_sync-Reads slow 2 4 3 sent zeros two_pieces 0 0 2 refl (omega arith)
      (more (omega arith) refl (more (omega arith) refl (enough (omega arith))))

abbrev gone : Net ℕ
gone = record slow { read = λ sock n f. (bytes [], f + 1) }

data_sync_endless_example : data_sync gone 9 4 3 sent zeros 0 ≡ fault out_of_fuel
data_sync_endless_example =
    data_sync_endless gone 9 4 3 sent zeros 0 0 (record { at = λ size f. (f + 1, refl) })
      (omega arith) refl

unowned_new : (b : ℕ) → owned (uint16 (pos 1)) b (new_service 2).inode_table.table ≡ 0
unfolding new_service new_inode_table create_root_dir Table.assign new_inode
unowned_new b = refl

new_storage_server-Registered_example :
    (pool : Pool) × (r : RdmaSocket) × (s' : Service) × (new_storage_server
        (server_stub name_length (λ n. n))
        socket
        settings
        ip_1
        (some 1048576)
        3145728
        (new_service 2)
      ≡ ok ((pool, r), s'))
    × (get_node_id r ≡ uint16 (pos 1))
    × Registered (uint16 (pos 1)) 1048576 3145728 (new_service 2) s'
new_storage_server-Registered_example =
    new_storage_server-Registered name_length (λ n. n) socket settings 0 (pos 1) ip_1 1048576
      3145728 (new_service-Consistent 2) two_nodes refl (omega arith) (omega arith) refl unowned_new
