-- ===== src/Configuration.antt =====
-- src/net/Configuration.cpp: the table of the storage nodes. Boost reads the file: what `read_xml` and
-- `get` answer is a parameter, `Settings`.
pub mod Lookups
use sponge_bob.Prelude.{ℕ, ◌+◌, ◌-◌, ◌%◌, ◌^◌, String, none, some, List, [], ◌∷◌, ℤ, pos, negsuc}
use sponge_bob.Containers.Table
use sponge_bob.Containers.Table.{Table}
use sponge_bob.Containers.TextMap
use sponge_bob.Containers.TextMap.{TextMap}

-- The values of the file: the nodes of `address.storage` in order, with `id` and `ip`.
pub record Settings : Type 0 where
  pub nodes : List (ℤ × String)
  pub metaip : String
  pub rdma_port : ℕ
  pub rdma_tcp_port : ℕ

pub record Configuration : Type 0 where
  pub id2ip : Table String
  pub ip2id : TextMap ℕ
  pub server_count : ℕ
  pub metaip : String
  pub rdma_port : ℕ
  pub rdma_tcp_port : ℕ

-- `(uint16_t)`
abbrev pub uint16 : ℤ → ℕ
uint16 (pos n) = n % 2 ^ 16
uint16 (negsuc n) = 2 ^ 16 - 1 - n % 2 ^ 16

-- A round of the loop over the nodes.
unfoldable pub add_node : ℤ × String → Configuration → Configuration
add_node (id, ip) c = record c {
  id2ip = Table.assign (uint16 id) ip c.id2ip;
  ip2id = TextMap.assign ip (uint16 id) c.ip2id;
  server_count = c.server_count + 1;
}

unfoldable pub add_nodes : List (ℤ × String) → Configuration → Configuration
unfolding add_node
add_nodes [] c = c
add_nodes (node ∷ nodes) c = add_nodes nodes (add_node node c)

-- `Configuration()`
unfoldable pub new_configuration : Settings → Configuration
unfolding add_nodes
new_configuration s = add_nodes s.nodes (record {
  id2ip = [];
  ip2id = [];
  server_count = 0;
  metaip = s.metaip;
  rdma_port = s.rdma_port;
  rdma_tcp_port = s.rdma_tcp_port;
})

-- `getIPbyID`: `operator[]` enters an empty text for a number that is not there.
unfoldable pub get_ip_by_id : ℕ → Configuration → String × Configuration
get_ip_by_id id c = elim (Table.find id c.id2ip) [
  | some ip ↦ (ip, c)
  | none ↦ ("", record c { id2ip = Table.assign id "" c.id2ip })
]

-- `getIDbyIP`: likewise, with 0.
unfoldable pub get_id_by_ip : String → Configuration → ℕ × Configuration
get_id_by_ip ip c = elim (TextMap.find ip c.ip2id) [
  | some id ↦ (id, c)
  | none ↦ (0, record c { ip2id = TextMap.assign ip 0 c.ip2id })
]
