-- ===== src/Configuration/Lookups.antt =====
-- What the tables of a configuration answer.
use sponge_bob.Prelude.{
  ℕ, zero, suc, ◌+◌, ◌≡◌, ◌≢◌, refl, sym, ◌∙◌, String, some, List, [], ◌∷◌, arith, get_elem?,
  length, ap, ℤ,
}
use sponge_bob.Containers.Table
use sponge_bob.Containers.TextMap
use sponge_bob.Configuration.{
  Settings, Configuration, uint16, add_node, add_nodes, new_configuration, get_ip_by_id,
  get_id_by_ip,
}

-- No two nodes have one number, as `uint16_t`, or one address.
pub data Separate : List (ℤ × String) → Type 0 where
  none_left : Separate []
  apart :
      {node : ℤ × String} {nodes : List (ℤ × String)}
      → ((j : ℕ) (other : ℤ × String)
          → get_elem? nodes j ≡ some other
          → (uint16 node.0 ≢ uint16 other.0) × (node.1 ≢ other.1))
      → Separate nodes
      → Separate (node ∷ nodes)

-- Nodes of other numbers and addresses leave an entry alone.
add_nodes-kept :
    (id : ℕ) (ip : String) (nodes : List (ℤ × String)) (c : Configuration)
    → ((j : ℕ) (other : ℤ × String)
        → get_elem? nodes j ≡ some other
        → (id ≢ uint16 other.0) × (ip ≢ other.1))
    → (Table.find id (add_nodes nodes c).id2ip ≡ Table.find id c.id2ip)
      × (TextMap.find ip (add_nodes nodes c).ip2id ≡ TextMap.find ip c.ip2id)
unfolding add_nodes add_node
add_nodes-kept id ip [] c h = (refl, refl)
add_nodes-kept id ip (node ∷ nodes) c h =
    let (e, e') = add_nodes-kept id ip nodes (add_node node c) (λ j other f. h (suc j) other f) in
    let (ne, ne') = h 0 node refl in
    (
      e ∙ Table.find-assign_ne id (uint16 node.0) node.1 c.id2ip ne,
      e' ∙ TextMap.find-assign_ne ip node.1 (uint16 node.0) c.ip2id ne',
    )

add_nodes-found :
    (k : ℕ) (id : ℤ) (ip : String) (nodes : List (ℤ × String)) (c : Configuration)
    → Separate nodes
    → get_elem? nodes k ≡ some (id, ip)
    → (Table.find (uint16 id) (add_nodes nodes c).id2ip ≡ some ip)
      × (TextMap.find ip (add_nodes nodes c).ip2id ≡ some (uint16 id))
unfolding add_nodes add_node
add_nodes-found k id ip [] c s f = absurd (ground (arith, f))
add_nodes-found zero id ip ((id', ip') ∷ nodes) c (apart h s) f =
    let (e, e') = add_nodes-kept (uint16 id') ip' nodes (add_node (id', ip') c) h in
    let (q, q') : (id' ≡ id) × (ip' ≡ ip) = (cc, cc) in
    (
      ap (λ t. Table.find (uint16 t) (add_nodes nodes (add_node (id', ip') c)).id2ip) (sym q)
          ∙ e
          ∙ Table.find-assign_self (uint16 id') ip' c.id2ip
          ∙ ap some q',
      ap (λ t. TextMap.find t (add_nodes nodes (add_node (id', ip') c)).ip2id) (sym q')
          ∙ e'
          ∙ TextMap.find-assign_self ip' (uint16 id') c.ip2id
          ∙ ap (λ t. some (uint16 t)) q,
    )
add_nodes-found (suc k) id ip (node ∷ nodes) c (apart h s) f =
    add_nodes-found k id ip nodes (add_node node c) s f

add_nodes-count :
    (nodes : List (ℤ × String)) (c : Configuration)
    → (add_nodes nodes c).server_count ≡ c.server_count + length nodes
unfolding add_nodes add_node
add_nodes-count [] c = omega arith
add_nodes-count (node ∷ nodes) c = omega (arith, add_nodes-count nodes (add_node node c))

-- When no two nodes of the file have one number or one address: for each of them, `getIPbyID` of its
-- number answers its address, `getIDbyIP` of its address answers its number, neither changes the
-- configuration, and `ServerCount` is the number of nodes.
pub get_ip_by_id-get_id_by_ip :
    (s : Settings) (k : ℕ) (id : ℤ) (ip : String)
    → Separate s.nodes
    → get_elem? s.nodes k ≡ some (id, ip)
    → (get_ip_by_id (uint16 id) (new_configuration s) ≡ (ip, new_configuration s))
      × (get_id_by_ip ip (new_configuration s) ≡ (uint16 id, new_configuration s))
      × ((new_configuration s).server_count ≡ length s.nodes)
unfolding get_ip_by_id get_id_by_ip new_configuration
get_ip_by_id-get_id_by_ip s k id ip h f =
    let start : Configuration = record {
      id2ip = [];
      ip2id = [];
      server_count = 0;
      metaip = s.metaip;
      rdma_port = s.rdma_port;
      rdma_tcp_port = s.rdma_tcp_port;
    } in
    let (e, e') = add_nodes-found k id ip s.nodes start h f in
    (
      rw (e, get_ip_by_id) refl,
      rw (e', get_id_by_ip) refl,
      omega (arith, add_nodes-count s.nodes start),
    )
