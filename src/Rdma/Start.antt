-- ===== src/Rdma/Start.antt =====
-- The constructor of `RdmaSocket`, and the functions that answer a member.
pub mod First
use sponge_bob.Prelude.{
  ℕ, ◌+◌, ◌%◌, ◌^◌, String, Bool, true, false, Option, List, [], ◌∷◌, pos, length, if◌then◌else◌,
}
use sponge_bob.Containers.Table
use sponge_bob.Configuration.{Configuration, get_id_by_ip}
use sponge_bob.Queue.{new_queue}
use sponge_bob.Rdma.Types.{RdmaSocket, PeerSockData}

-- The members behind the initializers and before `CreateResources`; `memory` holds what the members
-- have before anything is assigned to them, `peers` among them, and `ip` is the answer of `getIP`. A
-- configuration counts in `int`, the members are `uint16_t`.
unfoldable pub new_socket : RdmaSocket → ℕ → ℕ → Configuration → Bool → ℕ → String → RdmaSocket
new_socket memory cq_num mm conf is_server mode ip =
    let r : RdmaSocket = record memory {
      gid_index = pos 0;
      is_running = true;
      is_server = is_server;
      cq_num = cq_num;
      cq_ptr = 0;
      mm = mm;
      conf = conf;
      mode = mode;
      queue = new_queue ∷ new_queue ∷ [];
      server_count = conf.server_count;
      port = conf.rdma_port;
      server_port = conf.rdma_tcp_port;
      max_node_id = (conf.server_count + 1) % 2 ^ 16;
    } in
    let (id, conf') = get_id_by_ip ip conf in
    if is_server then record r { my_node_id = id; conf = conf' } else record r {
      write_size = 0 ∷ 0 ∷ [];
      read_size = 0 ∷ 0 ∷ [];
      write_time_cost = 0 ∷ 0 ∷ [];
      read_time_cost = 0 ∷ 0 ∷ [];
      write_test = false;
    }

-- `getCQCount`, `getNodeID` and `getPeerInformation`
unfoldable pub get_cq_count : RdmaSocket → ℕ
get_cq_count r = r.cq_num

unfoldable pub get_node_id : RdmaSocket → ℕ
get_node_id r = r.my_node_id

unfoldable pub get_peer_information : ℕ → RdmaSocket → Option PeerSockData
get_peer_information node_id r = Table.find node_id r.peers
