-- ===== src/Rdma/Connect/Exchange/Frame.antt =====
-- What setting up a connection leaves alone.
use sponge_bob.Prelude.{
  ℕ, zero, suc, ◌+◌, ◌≡◌, refl, ap, subst, ◌∙◌, Bool, true, false, Option, none, some, List, arith,
  below, get_elem?, ℤ, ◌⊎◌, inl, inr,
}
use sponge_bob.Result.{Result, ok, ◌>>=◌, or_fault, out_of_range, null_pointer, bind_ok}
use sponge_bob.Rdma.Types.{RdmaSocket, PeerSockData}
use sponge_bob.Rdma.Connect.Types.{ExchangeId, ExchangeMeta, Layout, Net}
use sponge_bob.Rdma.Connect.Sync.{data_sync}
use sponge_bob.Rdma.Connect.Pairs.{choose_cq, create_queue_pair, init_attr}
use sponge_bob.Rdma.Connect.Exchange.{
  Locals, local_id, take_id, pairs_of, create_pairs, my_gid, local_meta, take_meta, ready_pairs,
  exchange_metas, connect_pairs, connect_queue_pair,
}

-- The socket changes in `cqPtr` alone, and the peer keeps its node number.
pub record Frame (peer peer' : PeerSockData) (r r' : RdmaSocket) : Type 0 where
  pub socket : r' ≡ record r { cq_ptr = r'.cq_ptr }
  pub node : peer'.node_id ≡ peer.node_id

Frame-trans :
    {p p' p'' : PeerSockData} {r r' r'' : RdmaSocket}
    → Frame p p' r r'
    → Frame p' p'' r' r''
    → Frame p p'' r r''
Frame-trans {r'' = r''} a b = record {
  socket = b.socket ∙ ap (λ (s : RdmaSocket). record s { cq_ptr = r''.cq_ptr }) a.socket;
  node = b.node ∙ a.node;
}

choose_cq-frame :
    (peer : PeerSockData) (offset : ℕ) (r : RdmaSocket)
    → (choose_cq peer offset r).1 ≡ record r { cq_ptr = (choose_cq peer offset r).1.cq_ptr }
unfolding choose_cq
choose_cq-frame peer offset r = ground arith

module _ {F : Type 0} (net : Net F) where
  create_queue_pair-Frame :
      (peer : PeerSockData) (offset : ℕ) (r : RdmaSocket) (f : F) (peer' : PeerSockData)
      (r' : RdmaSocket) (f' : F)
      → create_queue_pair net peer offset r f ≡ ok (peer', r', f')
      → Frame peer peer' r r'
  unfolding create_queue_pair
  create_queue_pair-Frame peer offset r f peer' r' f' e =
      let (cq, _, e1) =
        bind_ok (or_fault (get_elem? r.cq (choose_cq peer offset r).0) out_of_range) _ _ e in
      let (qp, _, e2) =
        bind_ok (or_fault (net.create_qp (init_attr cq r) f).0 null_pointer) _ _ e1 in
      let same : (choose_cq peer offset r).1 ≡ r' = cc in
      record {
        socket =
            subst (λ (s : RdmaSocket). s ≡ record r { cq_ptr = s.cq_ptr }) same
              (choose_cq-frame peer offset r);
        node = ground (arith, e2);
      }

  create_pairs-Frame :
      (n i : ℕ) (peer : PeerSockData) (r : RdmaSocket) (f : F) (peer' : PeerSockData)
      (r' : RdmaSocket) (f' : F)
      → create_pairs net n i peer r f ≡ ok (peer', r', f')
      → Frame peer peer' r r'
  unfolding create_pairs
  create_pairs-Frame zero i peer r f peer' r' f' e = record {
    socket = ground (arith, e);
    node = ground (arith, e);
  }
  create_pairs-Frame (suc n) i peer r f peer' r' f' e =
      let ((p1, r1, f1), made, rest) = bind_ok (create_queue_pair net peer i r f) _ _ e in
      Frame-trans (create_queue_pair-Frame peer i r f p1 r1 f1 made)
        (create_pairs-Frame n (i + 1) p1 r1 f1 peer' r' f' rest)

  module _ (ids : Layout ExchangeId) (metas : Layout ExchangeMeta) (reads : ℕ) where
    exchange_metas-Frame :
        (locals : Locals) (gid : List ℕ) (peer : PeerSockData) (r : RdmaSocket) (f : F)
        (done : Bool) (peer' : PeerSockData) (r' : RdmaSocket) (f' : F)
        → exchange_metas net ids metas reads locals gid peer r f ≡ ok (done, peer', r', f')
        → Frame peer peer' r r'
    unfolding exchange_metas
    exchange_metas-Frame locals gid peer r f done peer' r' f' e =
        let ((rc, buffer, f1), sent, rest) =
          bind_ok
            (data_sync net reads peer.sock metas.size
              (metas.to_bytes (local_meta net locals.local_meta gid peer r f)) locals.remote_meta f)
            _ _ e in
        go rc buffer f1 (below rc 0) refl rest
      where
        go :
            (rc : ℤ) (buffer : List ℕ) (f1 : F) (b : Bool)
            → below rc 0 ≡ b
            → (elim b as (λ _. Result (Bool × PeerSockData × RdmaSocket × F)) [
              | true ↦ ok (false, peer, r, f1)
              | false ↦ do
                let peer1 = take_meta net (metas.of_bytes buffer) peer
                (d, f2) ← ready_pairs net (pairs_of peer r) peer1.qp peer1.qp_num peer1.lid r f1
                ok (d, peer1, r, f2)
            ])
              ≡ ok (done, peer', r', f')
            → Frame peer peer' r r'
        go rc buffer f1 true h x = record { socket = ground (arith, x); node = ground (arith, x) }
        go rc buffer f1 false h x =
            let peer1 = take_meta net (metas.of_bytes buffer) peer in
            let (_, _, y) =
              bind_ok (ready_pairs net (pairs_of peer r) peer1.qp peer1.qp_num peer1.lid r f1) _ _
                x in
            record { socket = ground (arith, y); node = ground (arith, y) }

    connect_pairs-Frame :
        (locals : Locals) (peer : PeerSockData) (r : RdmaSocket) (f : F) (done : Bool)
        (peer' : PeerSockData) (r' : RdmaSocket) (f' : F)
        → connect_pairs net ids metas reads locals peer r f ≡ ok (done, peer', r', f')
        → Frame peer peer' r r'
    unfolding connect_pairs
    connect_pairs-Frame locals peer r f done peer' r' f' e =
        let ((p1, r1, f1), made, rest) =
          bind_ok (create_pairs net (pairs_of peer r) 0 peer r f) _ _ e in
        Frame-trans (create_pairs-Frame (pairs_of peer r) 0 peer r f p1 r1 f1 made)
          (go p1 r1 (my_gid net r1 f1).1 (my_gid net r1 f1).0 rest)
      where
        go :
            (p1 : PeerSockData) (r1 : RdmaSocket) (f2 : F) (gid : Option (List ℕ))
            → (elim gid as (λ _. Result (Bool × PeerSockData × RdmaSocket × F)) [
              | none ↦ ok (false, p1, r1, f2)
              | some id ↦ exchange_metas net ids metas reads locals id p1 r1 f2
            ])
              ≡ ok (done, peer', r', f')
            → Frame p1 peer' r1 r'
        go p1 r1 f2 none x = record { socket = ground (arith, x); node = ground (arith, x) }
        go p1 r1 f2 (some id) x = exchange_metas-Frame locals id p1 r1 f2 done peer' r' f' x

    -- What server 1 does with a client's connection: the number that the call leaves in `MaxNodeID`,
    -- and the one that the client is filed under. The identity of the other end is that which the
    -- first exchange, when it succeeds, leaves in the buffer.
    pub connect_queue_pair-given :
        (locals : Locals) (peer : PeerSockData) (r : RdmaSocket) (f : F) (done : Bool)
        (peer' : PeerSockData) (r' : RdmaSocket) (f' : F)
        → connect_queue_pair net ids metas reads locals peer r f ≡ ok (done, peer', r', f')
        → ((r' ≡ record r { cq_ptr = r'.cq_ptr }) × (done ≡ false))
          ⊎ ((rc : ℤ) × (buffer : List ℕ) × (f1 : F) × (data_sync net reads peer.sock ids.size
                  (ids.to_bytes (local_id r))
                  locals.remote_id
                  f
                ≡ ok (rc, buffer, f1))
              × (below rc 0 ≡ false)
              × (r' ≡ record (take_id (ids.of_bytes buffer) peer r).1 { cq_ptr = r'.cq_ptr })
              × (peer'.node_id ≡ (take_id (ids.of_bytes buffer) peer r).0.node_id))
    unfolding connect_queue_pair
    connect_queue_pair-given locals peer r f done peer' r' f' e =
        let ((rc, buffer, f1), sent, rest) =
          bind_ok
            (data_sync net reads peer.sock ids.size (ids.to_bytes (local_id r)) locals.remote_id f)
            _ _ e in
        elim (go rc buffer f1 (below rc 0) refl rest) [
          | inl x ↦ inl x
          | inr (n, socket, node) ↦ inr (rc, buffer, f1, sent, n, socket, node)
        ]
      where
        go :
            (rc : ℤ) (buffer : List ℕ) (f1 : F) (b : Bool)
            → below rc 0 ≡ b
            → (elim b as (λ _. Result (Bool × PeerSockData × RdmaSocket × F)) [
              | true ↦ ok (false, peer, r, f1)
              | false ↦
                  connect_pairs net ids metas reads locals
                    (take_id (ids.of_bytes buffer) peer r).0
                    (take_id (ids.of_bytes buffer) peer r).1
                    f1
            ])
              ≡ ok (done, peer', r', f')
            → ((r' ≡ record r { cq_ptr = r'.cq_ptr }) × (done ≡ false))
              ⊎ ((below rc 0 ≡ false)
                  × (r' ≡ record (take_id (ids.of_bytes buffer) peer r).1 { cq_ptr = r'.cq_ptr })
                  × (peer'.node_id ≡ (take_id (ids.of_bytes buffer) peer r).0.node_id))
        go rc buffer f1 true n x = inl (ground (arith, x), ground (arith, x))
        go rc buffer f1 false n x =
            let k =
              connect_pairs-Frame locals (take_id (ids.of_bytes buffer) peer r).0
                (take_id (ids.of_bytes buffer) peer r).1 f1 done peer' r' f' x in
            inr (n, k.socket, k.node)
