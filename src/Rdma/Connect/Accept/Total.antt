-- ===== src/Rdma/Connect/Accept/Total.antt =====
-- A network that answers: no node that joins makes the server fault.
use sponge_bob.Prelude.{
  ℕ, zero, suc, ◌+◌, ◌*◌, ◌≤◌, ◌<◌, ◌≡◌, refl, ap, ◌∙◌, Bool, true, false, some, List, [], ◌∷◌,
  arith, length, get_elem?_total, set, length-set, add64, ℤ, below, inl, inr, Bool-cases,
  Option-cases,
}
use sponge_bob.Result.{Result, ok, ◌>>=◌, or_fault}
use sponge_bob.Containers.Table
use sponge_bob.Containers.Table.{find-assign}
use sponge_bob.Rdma.Types.{RdmaSocket, PeerSockData, Verbs}
use sponge_bob.Rdma.Post.{rdma_receive, sge_of}
use sponge_bob.Rdma.Connect.Types.{ExchangeId, ExchangeMeta, Layout, Net, QpInitAttr}
use sponge_bob.Rdma.Connect.Sync.{data_sync}
use sponge_bob.Rdma.Connect.Pairs.{choose_cq, create_queue_pair, ready_pair, init_attr}
use sponge_bob.Rdma.Connect.Pairs.Queues.{Pointed, choose_cq-Pointed}
use sponge_bob.Rdma.Connect.Exchange.{
  Locals, local_id, take_id, pairs_of, create_pairs, my_gid, local_meta, take_meta, ready_pairs,
  exchange_metas, connect_pairs, connect_queue_pair,
}
use sponge_bob.Rdma.Connect.Accept.{receive_in_advance}

module _ {F : Type 0} (net : Net F)
    (created : (attr : QpInitAttr) (f : F) → (qp : ℕ) × ((net.create_qp attr f).0 ≡ some qp)) where
  create_queue_pair_total :
      (peer : PeerSockData) (offset : ℕ) (r : RdmaSocket) (f : F)
      → Pointed r
      → (peer' : PeerSockData) × (r' : RdmaSocket) × (f' : F) × (create_queue_pair net peer offset r
            f
          ≡ ok (peer', r', f'))
        × Pointed r'
        × (length peer'.qp ≡ length peer.qp)
  unfolding create_queue_pair
  create_queue_pair_total peer offset r f p =
      let (inside, p', _, _) = choose_cq-Pointed peer offset r p in
      let (cq, e) = get_elem?_total r.cq (choose_cq peer offset r).0 inside in
      let (qp, e') = created (init_attr cq r) f in
      (
        record peer { cq = cq; qp = set peer.qp offset qp },
        (choose_cq peer offset r).1,
        (net.create_qp (init_attr cq r) f).1,
        rw (e, or_fault) (rw (e', or_fault) refl),
        p',
        length-set peer.qp offset qp,
      )

  create_pairs_total :
      (n i : ℕ) (peer : PeerSockData) (r : RdmaSocket) (f : F)
      → Pointed r
      → (peer' : PeerSockData) × (r' : RdmaSocket) × (f' : F) × (create_pairs net n i peer r f
          ≡ ok (peer', r', f'))
        × Pointed r'
        × (length peer'.qp ≡ length peer.qp)
  unfolding create_pairs
  create_pairs_total zero i peer r f p = (peer, r, f, refl, p, refl)
  create_pairs_total (suc n) i peer r f p =
      let (peer1, r1, f1, run, p1, l1) = create_queue_pair_total peer i r f p in
      let (peer2, r2, f2, run2, p2, l2) = create_pairs_total n (i + 1) peer1 r1 f1 p1 in
      (peer2, r2, f2, rw (run, ◌>>=◌) run2, p2, l2 ∙ l1)

  ready_pairs_total :
      (n : ℕ) (qps nums : List ℕ) (lid : ℕ) (r : RdmaSocket) (f : F)
      → n ≤ length qps
      → n ≤ length nums
      → (done : Bool) × (f' : F) × (ready_pairs net n qps nums lid r f ≡ ok (done, f'))
  unfolding ready_pairs
  ready_pairs_total zero qps nums lid r f h k = (true, f, refl)
  ready_pairs_total (suc n) [] nums lid r f h k = absurd (ground (arith, h))
  ready_pairs_total (suc n) (qp ∷ qps) [] lid r f h k = absurd (ground (arith, k))
  ready_pairs_total (suc n) (qp ∷ qps) (num ∷ nums) lid r f h k =
      go (ready_pair net qp num lid r f).0 (ready_pair net qp num lid r f).1 (
        ready_pairs_total n qps nums lid r (ready_pair net qp num lid r f).1 (ground (arith, h))
          (ground (arith, k)))
    where
      go :
          (b : Bool) (f1 : F)
          → (done : Bool) × (f' : F) × (ready_pairs net n qps nums lid r f1 ≡ ok (done, f'))
          → (done : Bool) × (f' : F) × ((elim b as (λ _. Result (Bool × F)) [
            | true ↦ ready_pairs net n qps nums lid r f1
            | false ↦ ok (false, f1)
          ])
              ≡ ok (done, f'))
      go true f1 x = x
      go false f1 x = (false, f1, refl)

  module _ (ids : Layout ExchangeId) (metas : Layout ExchangeMeta) (reads : ℕ)
      (known : (fd : ℕ) (sent held : List ℕ) (f : F)
        → (rc : ℤ) × (buffer : List ℕ) × (f' : F) × (data_sync net reads fd ids.size sent held f
            ≡ ok (rc, buffer, f')))
      (synced : (fd : ℕ) (sent held : List ℕ) (f : F)
        → (rc : ℤ) × (buffer : List ℕ) × (f' : F) × (data_sync net reads fd metas.size sent held f
            ≡ ok (rc, buffer, f')))
      (three : (bs : List ℕ) → length (metas.of_bytes bs).qp_num ≡ 3) where
    exchange_metas_total :
        (locals : Locals) (gid : List ℕ) (peer : PeerSockData) (r : RdmaSocket) (f : F)
        → length peer.qp ≡ 3
        → (done : Bool) × (peer' : PeerSockData) × (f' : F) × (exchange_metas net ids metas reads
              locals gid peer r f
            ≡ ok (done, peer', r, f'))
          × (length peer'.qp ≡ 3)
    unfolding exchange_metas
    exchange_metas_total locals gid peer r f h =
        let (rc, buffer, f1, run) =
          synced peer.sock (metas.to_bytes (local_meta net locals.local_meta gid peer r f))
            locals.remote_meta f in
        let peer1 = take_meta net (metas.of_bytes buffer) peer in
        let (d, f2, ready) =
          ready_pairs_total (pairs_of peer r) peer1.qp peer1.qp_num peer1.lid r f1
            (ground (arith, h)) (ground (arith, three buffer)) in
        elim (Bool-cases (below rc 0)) [
          | inl t ↦ (false, peer, f1, rw (run, ◌>>=◌) (rw t refl), h)
          | inr t ↦ (d, peer1, f2, rw (run, ◌>>=◌) (rw t (rw (ready, ◌>>=◌) refl)), h)
        ]

    connect_pairs_total :
        (locals : Locals) (peer : PeerSockData) (r : RdmaSocket) (f : F)
        → Pointed r
        → length peer.qp ≡ 3
        → (done : Bool) × (peer' : PeerSockData) × (r' : RdmaSocket) × (f' : F) × (connect_pairs net
              ids metas reads locals peer r f
            ≡ ok (done, peer', r', f'))
          × Pointed r'
          × (length peer'.qp ≡ 3)
    unfolding connect_pairs
    connect_pairs_total locals peer r f p h =
        let (peer1, r1, f1, run, p1, l1) = create_pairs_total (pairs_of peer r) 0 peer r f p in
        elim (Option-cases (my_gid net r1 f1).0) [
          | inl n ↦
              (false, peer1, r1, (my_gid net r1 f1).1, rw (run, ◌>>=◌) (rw n refl), p1, l1 ∙ h)
          | inr (id, n) ↦
              let (d, peer2, f2, run2, l2) =
                exchange_metas_total locals id peer1 r1 (my_gid net r1 f1).1 (l1 ∙ h) in
              (d, peer2, r1, f2, rw (run, ◌>>=◌) (rw n run2), p1, l2)
        ]

    take_id-Pointed :
        (id : ExchangeId) (peer : PeerSockData) (r : RdmaSocket)
        → Pointed r
        → Pointed (take_id id peer r).1
    unfolding take_id
    take_id-Pointed id peer r p = record {
      queues = ground (arith, p.queues);
      some_queue = ground (arith, p.some_queue);
      room = λ h. ground (arith, p.room, h);
      inside = ground (arith, p.inside);
    }

    take_id-qp :
        (id : ExchangeId) (peer : PeerSockData) (r : RdmaSocket)
        → (take_id id peer r).0.qp ≡ peer.qp
    unfolding take_id
    take_id-qp id peer r = ground arith

    pub connect_queue_pair_total :
        (locals : Locals) (peer : PeerSockData) (r : RdmaSocket) (f : F)
        → Pointed r
        → length peer.qp ≡ 3
        → (done : Bool) × (peer' : PeerSockData) × (r' : RdmaSocket) × (f' : F)
          × (connect_queue_pair net ids metas reads locals peer r f ≡ ok (done, peer', r', f'))
          × Pointed r'
          × (length peer'.qp ≡ 3)
    unfolding connect_queue_pair
    connect_queue_pair_total locals peer r f p h =
        let (rc, buffer, f1, run) =
          known peer.sock (ids.to_bytes (local_id r)) locals.remote_id f in
        let id = ids.of_bytes buffer in
        let (d, peer2, r2, f2, run2, p2, l2) =
          connect_pairs_total locals (take_id id peer r).0 (take_id id peer r).1 f1
            (take_id-Pointed id peer r p) (ap length (take_id-qp id peer r) ∙ h) in
        elim (Bool-cases (below rc 0)) [
          | inl t ↦ (false, peer, r, f1, rw (run, ◌>>=◌) (rw t refl), p, h)
          | inr t ↦ (d, peer2, r2, f2, rw (run, ◌>>=◌) (rw t run2), p2, l2)
        ]

pub receive_in_advance_total :
    {F : Type 0} (verbs : Verbs F) (n node_id : ℕ) (r : RdmaSocket) (f : F) (peer : PeerSockData)
    → Table.find node_id r.peers ≡ some peer
    → 0 < length peer.qp
    → (f' : F) × (receive_in_advance verbs n node_id r f ≡ ok f')
unfolding receive_in_advance rdma_receive
receive_in_advance_total verbs zero node_id r f peer e h = (f, refl)
receive_in_advance_total verbs (suc n) node_id r f peer e h =
    let (qp, q) = get_elem?_total peer.qp 0 h in
    let (f', run) =
      receive_in_advance_total verbs n node_id r
        (verbs.post_recv qp (sge_of r (add64 r.mm (node_id * 4096)) 0 ∷ []) f).1 peer e h in
    (f', rw (e, or_fault) (rw (q, or_fault) run))
