-- ===== src/Rdma/Connect/Client.antt =====
-- `SocketConnect`, `RdmaConnect` and `ServerConnect`: the nodes that this one goes to.
pub mod Tries
use sponge_bob.Prelude.{
  ℕ, zero, suc, String, Bool, true, false, Option, none, some, List, [], ◌∷◌, ◌==◌, ltb, not,
  if◌then◌else◌,
}
use sponge_bob.Result.{Result, ok, fault, ◌>>=◌}
use sponge_bob.Containers.Table.{keys}
use sponge_bob.Configuration.{get_ip_by_id}
use sponge_bob.Rdma.Types.{RdmaSocket, PeerSockData, Verbs, qps_max_depth}
use sponge_bob.Rdma.Connect.Types.{ExchangeId, ExchangeMeta, Layout, Net}
use sponge_bob.Rdma.Connect.Exchange.{Locals, connect_queue_pair}
use sponge_bob.Rdma.Connect.Accept.{file_peer, receive_in_advance}

module _ {F : Type 0} (net : Net F) where
  -- The loop of `SocketConnect` with `n` more calls of `connect`.
  unfoldable pub connect_tries : ℕ → ℕ → String → ℕ → F → Bool × F
  connect_tries zero sock ip port f = (false, f)
  connect_tries (suc n) sock ip port f =
      let (connected, f') = net.connect sock ip port f in
      elim connected [ true ↦ (true, f') | false ↦ connect_tries n sock ip port f' ]

  -- `SocketConnect`, which looks the address up twice; nothing stands for -1.
  unfoldable pub socket_connect : ℕ → RdmaSocket → F → Option ℕ × RdmaSocket × F
  unfolding connect_tries
  socket_connect node_id r f =
      let (_, logged) = get_ip_by_id node_id r.conf in
      let (ip, conf) = get_ip_by_id node_id logged in
      let (created, f1) = net.socket f in
      elim created [
        | none ↦ (none, record r { conf = conf }, f1)
        | some sock ↦
            let (connected, f2) = connect_tries 4 sock ip r.server_port f1 in
            (if connected then some sock else none, record r { conf = conf }, f2)
      ]

  module _ (verbs : Verbs F) (ids : Layout ExchangeId) (metas : Layout ExchangeMeta) (reads : ℕ)
      (malloced : F → PeerSockData) (locals : F → Locals) where
    -- The connection to one node: false is the `return` on an error. `ServerConnect` posts receives for
    -- the node, `RdmaConnect` does not.
    unfoldable pub connect_node : Bool → ℕ → RdmaSocket → F → Result (Bool × RdmaSocket × F)
    unfolding socket_connect
    connect_node receives node_id r f =
        let (connected, r1, f1) = socket_connect node_id r f in
        elim connected [
          | none ↦ ok (false, r1, f1)
          | some sock ↦ do
            let peer : PeerSockData = record (malloced f1) { sock = sock; node_id = node_id }
            (done, peer', r2, f2) ← connect_queue_pair net ids metas reads (locals f1) peer r1 f1
            elim done [
              | true ↦ do
                r3 ← file_peer peer'.node_id (record peer' { counter = 0 }) r2
                f3 ← elim receives as (λ _. Result F) [
                  | true ↦ receive_in_advance verbs qps_max_depth peer'.node_id r3 f2
                  | false ↦ ok f2
                ]
                ok (true, r3, f3)
              | false ↦ ok (false, r2, f2)
            ]
        ]

    -- The loop over the nodes of the configuration, for those that `wanted` picks.
    unfoldable pub connect_nodes :
        Bool → (ℕ → Bool) → List ℕ → RdmaSocket → F → Result (RdmaSocket × F)
    unfolding connect_node
    connect_nodes receives wanted [] r f = ok (r, f)
    connect_nodes receives wanted (id ∷ nodes) r f = elim (wanted id) [
      | true ↦ do
        (go_on, r', f') ← connect_node receives id r f
        elim go_on [ true ↦ connect_nodes receives wanted nodes r' f' | false ↦ ok (r', f') ]
      | false ↦ connect_nodes receives wanted nodes r f
    ]

    -- `RdmaConnect`: node 1 gives this one its number, and goes first.
    unfoldable pub rdma_connect : RdmaSocket → F → Result (RdmaSocket × F)
    unfolding connect_node connect_nodes
    rdma_connect r f = do
      (go_on, r', f') ← connect_node false 1 r f
      elim go_on [
        | true ↦ connect_nodes false (λ id. not (id == 1)) (keys r'.conf.id2ip) r' f'
        | false ↦ ok (r', f')
      ]

    -- `ServerConnect`
    unfoldable pub server_connect : RdmaSocket → F → Result (RdmaSocket × F)
    unfolding connect_nodes
    server_connect r f = connect_nodes true (λ id. ltb id r.my_node_id) (keys r.conf.id2ip) r f
