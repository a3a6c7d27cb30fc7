-- ===== src/Rdma/Start/First.antt =====
-- Server 1 as it starts.
use sponge_bob.Prelude.{
  ℕ, ◌+◌, ◌^◌, ◌<◌, ◌≡◌, refl, ap, ◌∙◌, String, true, some, [], arith, get_elem?, ℤ, ◌%◌, length,
}
use sponge_bob.Containers.Table
use sponge_bob.Configuration.{Settings, Configuration, uint16, new_configuration, get_id_by_ip}
use sponge_bob.Configuration.Lookups.{Separate, get_ip_by_id-get_id_by_ip}
use sponge_bob.Rdma.Types.{RdmaSocket}
use sponge_bob.Rdma.Start.{new_socket, get_node_id}
use sponge_bob.Rdma.Connect.Accept.Numbered.{Numbered}

-- A server whose address stands with number 1 in a configuration file in which no two nodes have one
-- number or one address, and fewer than 2 ^ 16 - 1 nodes: its socket starts with number 1 and with
-- client numbers behind those of the nodes, if the array of its peers is empty as it starts.
pub new_socket-Numbered :
    (s : Settings) (k : ℕ) (id : ℤ) (ip : String) (memory : RdmaSocket) (cq_num mm mode : ℕ)
    → Separate s.nodes
    → get_elem? s.nodes k ≡ some (id, ip)
    → uint16 id ≡ 1
    → length s.nodes + 1 < 2 ^ 16
    → memory.peers ≡ []
    → Numbered (new_socket memory cq_num mm (new_configuration s) true mode ip)
      × (get_node_id (new_socket memory cq_num mm (new_configuration s) true mode ip) ≡ 1)
      × ((new_socket memory cq_num mm (new_configuration s) true mode ip).max_node_id
          ≡ length s.nodes + 1)
unfolding new_socket get_node_id Table.find
new_socket-Numbered s k id ip memory cq_num mm mode separate node one few empty =
    let (_, found, servers) = get_ip_by_id-get_id_by_ip s k id ip separate node in
    let number : (get_id_by_ip ip (new_configuration s)).0 ≡ 1 =
      ap (λ (p : ℕ × Configuration). p.0) found ∙ one in
    let next : ((new_configuration s).server_count + 1) % 2 ^ 16 ≡ length s.nodes + 1 =
      omega (arith, servers, few) in
    (
      record {
        server = refl;
        first = number;
        above = omega (arith, next, servers);
        below_next = λ j peer f. absurd (ground (arith, ap (Table.find j) empty, f));
      },
      number,
      next,
    )
