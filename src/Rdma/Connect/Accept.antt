-- ===== src/Rdma/Connect/Accept.antt =====
-- `RdmaAccept`: a node joins, and is filed under its number.
pub mod Numbered
pub mod Joins
pub mod Total
pub mod Served
use sponge_bob.Prelude.{
  ℕ, zero, suc, ◌*◌, Bool, true, false, Option, none, some, ltb, if◌then◌else◌, add64,
}
use sponge_bob.Result.{Result, ok, fault, out_of_range, out_of_fuel, ◌>>=◌}
use sponge_bob.Containers.Table
use sponge_bob.Rdma.Types.{RdmaSocket, PeerSockData, Verbs, qps_max_depth}
use sponge_bob.Rdma.Post.{rdma_receive}
use sponge_bob.Rdma.Connect.Types.{ExchangeId, ExchangeMeta, Layout, Net}
use sponge_bob.Rdma.Connect.Exchange.{Locals, connect_queue_pair}

-- `peers[NodeID] = peer`, an array of 1000 entries.
abbrev pub file_peer : ℕ → PeerSockData → RdmaSocket → Result RdmaSocket
file_peer node_id peer r =
    if ltb node_id 1000
    then ok (record r { peers = Table.assign node_id peer r.peers })
    else fault out_of_range

module _ {F : Type 0} (verbs : Verbs F) where
  -- `n` times `RdmaReceive` of no bytes into the page of the node; its result is not looked at.
  unfoldable pub receive_in_advance : ℕ → ℕ → RdmaSocket → F → Result F
  receive_in_advance zero node_id r f = ok f
  receive_in_advance (suc n) node_id r f = do
    (_, f') ← rdma_receive verbs node_id (add64 r.mm (node_id * 4096)) 0 r f
    receive_in_advance n node_id r f'

  -- What `malloc` and the stack hold at the time of a call is `malloced` and `locals`.
  module _ (net : Net F) (ids : Layout ExchangeId) (metas : Layout ExchangeMeta) (reads : ℕ)
      (malloced : F → PeerSockData) (locals : F → Locals) where
    -- A round of `RdmaAccept`, for the socket `fd`.
    unfoldable pub accept_client : ℕ → RdmaSocket → F → Result (RdmaSocket × F)
    unfolding receive_in_advance
    accept_client fd r f = do
      let peer : PeerSockData = record (malloced f) { sock = fd; counter = 0 }
      (done, peer', r', f') ← connect_queue_pair net ids metas reads (locals f) peer r f
      elim done [
        | true ↦ do
          r'' ← file_peer peer'.node_id peer' r'
          f'' ← receive_in_advance qps_max_depth peer'.node_id r'' f'
          ok (r'', f'')
        | false ↦ ok (r', f')
      ]

    -- `RdmaAccept`. The first parameter is fuel, the number of nodes that may join.
    unfoldable pub rdma_accept : ℕ → ℕ → RdmaSocket → F → Result (RdmaSocket × F)
    unfolding accept_client
    rdma_accept zero sock r f = fault out_of_fuel
    rdma_accept (suc fuel) sock r f = elim r.is_running [
      | true ↦
          let (accepted, f') = net.accept sock f in
          elim accepted [
            | none ↦ ok (r, f')
            | some fd ↦ do (r', f'') ← accept_client fd r f'; rdma_accept fuel sock r' f''
          ]
      | false ↦ ok (r, f)
    ]
