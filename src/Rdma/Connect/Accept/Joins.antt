-- ===== src/Rdma/Connect/Accept/Joins.antt =====
-- A node that joins server 1.
use sponge_bob.Prelude.{
  ℕ, ◌+◌, ◌^◌, ◌≤◌, ◌<◌, ◌≡◌, refl, ap, sym, subst, ◌∙◌, Bool, true, false, some, List, arith, ltb,
  ℤ, below, ◌⊎◌, inl, inr,
}
use sponge_bob.Result.{Result, ok, fault, ◌>>=◌, bind_ok, out_of_range}
use sponge_bob.Containers.Table
use sponge_bob.Containers.Table.{find-assign}
use sponge_bob.Rdma.Types.{RdmaSocket, PeerSockData, Verbs, qps_max_depth}
use sponge_bob.Rdma.Connect.Types.{ExchangeId, ExchangeMeta, Layout, Net}
use sponge_bob.Rdma.Connect.Exchange.{Locals, local_id, connect_queue_pair}
use sponge_bob.Rdma.Connect.Sync.{data_sync}
use sponge_bob.Rdma.Connect.Exchange.Frame.{connect_queue_pair-given}
use sponge_bob.Rdma.Connect.Accept.{file_peer, receive_in_advance, accept_client}
use sponge_bob.Rdma.Connect.Accept.Numbered.{
  Numbered, Kept, Kept-trans, Kept-weaken, moved_on, filed, taken,
}

module _ {F : Type 0} (verbs : Verbs F) (net : Net F) (ids : Layout ExchangeId)
    (metas : Layout ExchangeMeta) (reads : ℕ) (malloced : F → PeerSockData)
    (locals : F → Locals) where
  -- The network brings identities of nodes that are what they say: where the exchange of the identities
  -- on a socket succeeds, a node that says that it is a server has a server's number.
  pub record Honest (server_count : ℕ) : Type 0 where
    pub at :
        (fd : ℕ) (r : RdmaSocket) (f f' : F) (rc : ℤ) (buffer : List ℕ)
        → data_sync net reads fd ids.size (ids.to_bytes (local_id r)) (locals f).remote_id f
          ≡ ok (rc, buffer, f')
        → below rc 0 ≡ false
        → (ids.of_bytes buffer).is_server ≡ true
        → (ids.of_bytes buffer).node_id ≤ server_count

  -- What comes after the connection: the peer is filed if there is one.
  after_connection :
      (done : Bool) (peer' : PeerSockData) (r1 r' : RdmaSocket) (f1 f' : F) (first_free : ℕ)
      → Numbered r1
      → ((k : ℕ) (p : PeerSockData) → Table.find k r1.peers ≡ some p → k < first_free)
      → first_free ≤ r1.max_node_id
      → (peer'.node_id ≤ r1.server_count)
        ⊎ ((first_free ≤ peer'.node_id) × (peer'.node_id < r1.max_node_id))
      → (elim done as (λ _. Result (RdmaSocket × F)) [
        | true ↦ do
          r'' ← file_peer peer'.node_id peer' r1
          f'' ← receive_in_advance verbs qps_max_depth peer'.node_id r'' f1
          ok (r'', f'')
        | false ↦ ok (r1, f1)
      ])
        ≡ ok (r', f')
      → Kept 0 first_free r1 r'
  after_connection false peer' r1 r' f1 f' first_free h old ff place e =
      let same : r1 ≡ r' = ground (arith, e) in
      subst (Kept 0 first_free r1) same
        (moved_on r1 r1 r1.max_node_id 0 first_free h (omega arith) refl)
  after_connection true peer' r1 r' f1 f' first_free h old ff place e =
      let (r2, run, rest) = bind_ok (file_peer peer'.node_id peer' r1) _ _ e in
      let (f2, _, end) =
        bind_ok (receive_in_advance verbs qps_max_depth peer'.node_id r2 f1) _ _ rest in
      let same : r2 ≡ r' = ground (arith, end) in
      subst (Kept 0 first_free r1) same
        (filed peer'.node_id peer' r1 r2 first_free h run old ff place)

  pub accept_client-Kept :
      (fd : ℕ) (r r' : RdmaSocket) (f f' : F)
      → Numbered r
      → r.max_node_id + 1 < 2 ^ 16
      → Honest r.server_count
      → accept_client verbs net ids metas reads malloced locals fd r f ≡ ok (r', f')
      → Kept 1 r.max_node_id r r'
  unfolding accept_client
  accept_client-Kept fd r r' f f' h b servers e =
      let peer : PeerSockData = record (malloced f) { sock = fd; counter = 0 } in
      let ((done, peer', r1, f1), run, rest) =
        bind_ok (connect_queue_pair net ids metas reads (locals f) peer r f) _ _ e in
      elim (connect_queue_pair-given net ids metas reads (locals f) peer r f done peer' r1 f1 run) [
        | inl (q, d) ↦
            let k0 = moved_on r r1 r.max_node_id 0 r.max_node_id h (omega arith) q in
            let stays : r1 ≡ r' = ground (arith, rest, d) in
            Kept-weaken (omega arith) (
              Kept-trans k0.rising k0 (
                subst (Kept 0 r1.max_node_id r1) stays
                  (moved_on r1 r1 r1.max_node_id 0 r1.max_node_id k0.numbered (omega arith) refl)))
        | inr (rc, buffer, fx, sent, below_zero, q, node) ↦
            elim (taken (ids.of_bytes buffer) peer r h b) [
              | inl (s, t) ↦
                  let k0 = moved_on r r1 r.max_node_id 0 r.max_node_id h (omega arith) (cc) in
                  Kept-weaken (omega arith) (
                    Kept-trans k0.rising k0 (
                      after_connection done peer' r1 r' f1 f' r1.max_node_id k0.numbered
                        k0.numbered.below_next (omega arith)
                        (inl (
                          omega (
                            arith,
                            servers.at fd r f fx rc buffer sent below_zero s,
                            k0.servers,
                            node,
                            ap (λ p. p.0.node_id) t,
                          )))
                        rest))
              | inr t ↦
                  let next : r1 ≡ record r { cq_ptr = r1.cq_ptr; max_node_id = r.max_node_id + 1 } =
                    cc in
                  let up : r1.max_node_id ≡ r.max_node_id + 1 =
                    ap (λ (u : RdmaSocket). u.max_node_id) next in
                  let number : peer'.node_id ≡ r.max_node_id =
                    node ∙ ap (λ (u : PeerSockData × RdmaSocket). u.0.node_id) t in
                  let k1 = moved_on r r1 (r.max_node_id + 1) 1 r.max_node_id h refl next in
                  Kept-weaken (omega arith) (
                    Kept-trans (omega arith) k1 (
                      after_connection done peer' r1 r' f1 f' r.max_node_id k1.numbered
                        (λ k p x.
                          h.below_next k p
                            (ap (λ (u : RdmaSocket). Table.find k u.peers) (sym next) ∙ x))
                        k1.rising (inr (omega (arith, number), omega (arith, number, up))) rest))
            ]
      ]

  -- A client that is given a number from 1000 on, when its connection is set up: the round writes
  -- behind the end of the array of the peers.
  pub accept_client_full :
      (fd : ℕ) (r r1 : RdmaSocket) (f f1 : F) (peer : PeerSockData)
      → connect_queue_pair net ids metas reads
          (locals f)
          (record (malloced f) { sock = fd; counter = 0 })
          r
          f
        ≡ ok (true, peer, r1, f1)
      → 1000 ≤ peer.node_id
      → accept_client verbs net ids metas reads malloced locals fd r f ≡ fault out_of_range
  unfolding accept_client
  accept_client_full fd r r1 f f1 peer e h =
      let t : ltb peer.node_id 1000 ≡ false = ground arith in rw (e, ◌>>=◌) (rw (t, ◌>>=◌) refl)
