-- ===== src/Rdma/Connect/Exchange.antt =====
-- `ConnectQueuePair`: both ends exchange their identities, make the queue pairs, exchange what the
-- other end needs to reach them, and make them ready.
pub mod Given
pub mod Frame
use sponge_bob.Prelude.{
  ℕ, zero, suc, ◌+◌, ◌%◌, ◌^◌, ◌==◌, Bool, true, false, Option, none, some, List, [], ◌∷◌, ltb,
  ◌&&◌, ◌||◌, not, if◌then◌else◌, ℤ, pos, negsuc, below,
}
use sponge_bob.Result.{Result, ok, fault, out_of_range, ◌>>=◌}
use sponge_bob.Rdma.Types.{RdmaSocket, PeerSockData, qp_number}
use sponge_bob.Rdma.Connect.Types.{ExchangeId, ExchangeMeta, Layout, Net}
use sponge_bob.Rdma.Connect.Sync.{data_sync, drop}
use sponge_bob.Rdma.Connect.Pairs.{create_queue_pair, ready_pair}

-- What the local variables hold before anything is assigned to them.
pub record Locals : Type 0 where
  pub remote_id : List ℕ
  pub local_meta : ExchangeMeta
  pub remote_meta : List ℕ

-- `LocalID`
unfoldable pub local_id : RdmaSocket → ExchangeId
local_id r =
    if r.is_server
    then record {
      node_id = r.my_node_id;
      is_server = true;
      given_id = if r.my_node_id == 1 then r.max_node_id else 0;
    }
    else record { node_id = r.my_node_id; is_server = false; given_id = 0 }

-- The node numbers behind the exchange of the identities.
unfoldable pub take_id : ExchangeId → PeerSockData → RdmaSocket → PeerSockData × RdmaSocket
take_id remote peer r =
    if r.is_server && remote.is_server
    then (record peer { node_id = remote.node_id }, r)
    else if r.is_server && (not remote.is_server && not (r.my_node_id == 1))
    then (record peer { node_id = remote.node_id }, r)
    else if r.is_server && (not remote.is_server && (r.my_node_id == 1))
    then (
      record peer { node_id = r.max_node_id },
      record r { max_node_id = (r.max_node_id + 1) % 2 ^ 16 },
    )
    else if not r.is_server && not (remote.given_id == 0)
    then (peer, record r { my_node_id = remote.given_id })
    else (peer, r)

-- `DoubleQP`
abbrev pub double_qp : PeerSockData → RdmaSocket → Bool
double_qp peer r = not r.is_server || (r.is_server && ltb r.conf.server_count peer.node_id)

-- The queue pairs that a connection has.
abbrev pub pairs_of : PeerSockData → RdmaSocket → ℕ
pairs_of peer r = if double_qp peer r then qp_number else 2

module _ {F : Type 0} (net : Net F) where
  -- `CreateQueuePair(peer, i)` for the `n` places from `i` on.
  unfoldable pub create_pairs :
      ℕ → ℕ → PeerSockData → RdmaSocket → F → Result (PeerSockData × RdmaSocket × F)
  create_pairs zero i peer r f = ok (peer, r, f)
  create_pairs (suc n) i peer r f = do
    (peer', r', f') ← create_queue_pair net peer i r f
    create_pairs n (i + 1) peer' r' f'

  -- `LocalMeta.qpNum[i] = peer->qp[i]->qp_num` for the first `n` places.
  unfoldable pub numbers : ℕ → List ℕ → List ℕ → F → List ℕ
  numbers zero qps old f = old
  numbers (suc n) [] old f = old
  numbers (suc n) (qp ∷ qps) old f = net.qp_num qp f ∷ numbers n qps (drop 1 old) f

  -- `MyGid`: nothing if the query fails.
  abbrev pub my_gid : RdmaSocket → F → Option (List ℕ) × F
  my_gid r f =
      if below r.gid_index 0 then (some zero_gid, f) else net.query_gid r.port r.gid_index f
    where
      zero_gid : List ℕ
      zero_gid = 0 ∷ 0 ∷ 0 ∷ 0 ∷ 0 ∷ 0 ∷ 0 ∷ 0 ∷ 0 ∷ 0 ∷ 0 ∷ 0 ∷ 0 ∷ 0 ∷ 0 ∷ 0 ∷ []

  -- `LocalMeta`
  unfoldable pub local_meta : ExchangeMeta → List ℕ → PeerSockData → RdmaSocket → F → ExchangeMeta
  unfolding numbers
  local_meta old gid peer r f = record old {
    rkey = if r.is_server then r.rkey else old.rkey;
    qp_num = numbers (pairs_of peer r) peer.qp old.qp_num f;
    lid = r.lid;
    registered_memory = r.mm;
    gid = gid;
  }

  -- What `peer` keeps of `RemoteMeta`.
  abbrev pub take_meta : ExchangeMeta → PeerSockData → PeerSockData
  take_meta meta peer = record peer {
    rkey = meta.rkey;
    qp_num = meta.qp_num;
    lid = meta.lid;
    registered_memory = meta.registered_memory;
    gid = meta.gid;
  }

  -- The loop that makes the first `n` queue pairs ready; false at the first that fails.
  unfoldable pub ready_pairs : ℕ → List ℕ → List ℕ → ℕ → RdmaSocket → F → Result (Bool × F)
  ready_pairs zero qps nums lid r f = ok (true, f)
  ready_pairs (suc n) (qp ∷ qps) (num ∷ nums) lid r f =
      let (done, f') = ready_pair net qp num lid r f in
      elim done [ true ↦ ready_pairs n qps nums lid r f' | false ↦ ok (false, f') ]
  ready_pairs (suc n) (qp ∷ qps) [] lid r f = fault out_of_range
  ready_pairs (suc n) [] nums lid r f = fault out_of_range

  module _ (ids : Layout ExchangeId) (metas : Layout ExchangeMeta) (reads : ℕ) where
    -- The second exchange, and what comes after it.
    unfoldable pub exchange_metas :
        Locals
        → List ℕ
        → PeerSockData
        → RdmaSocket
        → F
        → Result (Bool × PeerSockData × RdmaSocket × F)
    unfolding local_meta ready_pairs
    exchange_metas locals gid peer r f = do
      (rc, buffer, f') ←
          data_sync net reads peer.sock metas.size
            (metas.to_bytes (local_meta locals.local_meta gid peer r f)) locals.remote_meta f
      elim (below rc 0) [
        | true ↦ ok (false, peer, r, f')
        | false ↦ do
          let peer' = take_meta (metas.of_bytes buffer) peer
          (done, f'') ← ready_pairs (pairs_of peer r) peer'.qp peer'.qp_num peer'.lid r f'
          ok (done, peer', r, f'')
      ]

    -- What comes after the node numbers.
    unfoldable pub connect_pairs :
        Locals → PeerSockData → RdmaSocket → F → Result (Bool × PeerSockData × RdmaSocket × F)
    unfolding create_pairs exchange_metas
    connect_pairs locals peer r f = do
      (peer', r', f') ← create_pairs (pairs_of peer r) 0 peer r f
      let (gid, f'') = my_gid r' f'
      elim gid [
        | none ↦ ok (false, peer', r', f'')
        | some id ↦ exchange_metas locals id peer' r' f''
      ]

    -- `ConnectQueuePair`
    unfoldable pub connect_queue_pair :
        Locals → PeerSockData → RdmaSocket → F → Result (Bool × PeerSockData × RdmaSocket × F)
    unfolding local_id take_id connect_pairs
    connect_queue_pair locals peer r f = do
      (rc, buffer, f') ←
          data_sync net reads peer.sock ids.size (ids.to_bytes (local_id r)) locals.remote_id f
      elim (below rc 0) [
        | true ↦ ok (false, peer, r, f')
        | false ↦
            let (peer', r') = take_id (ids.of_bytes buffer) peer r in
            connect_pairs locals peer' r' f'
      ]
