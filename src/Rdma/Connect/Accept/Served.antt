-- ===== src/Rdma/Connect/Accept/Served.antt =====
-- Server 1 on a network that answers: it serves the nodes that join, one after the other, without a
-- fault.
use sponge_bob.Prelude.{
  ℕ, zero, suc, ◌+◌, ◌≤◌, ◌<◌, ◌≡◌, refl, ap, sym, subst, ◌∙◌, true, false, none, some, List, arith,
  ltb, length, ℤ, ◌⊎◌, inl, inr, Bool-cases, Option-cases, ==_refl,
}
use sponge_bob.Result.{Result, ok, ◌>>=◌}
use sponge_bob.Containers.Table
use sponge_bob.Containers.Table.{find-assign}
use sponge_bob.Rdma.Types.{RdmaSocket, PeerSockData, Verbs, qps_max_depth}
use sponge_bob.Rdma.Connect.Types.{ExchangeId, ExchangeMeta, Layout, Net, QpInitAttr}
use sponge_bob.Rdma.Connect.Sync.{data_sync}
use sponge_bob.Rdma.Connect.Pairs.Queues.{Pointed}
use sponge_bob.Rdma.Connect.Exchange.{Locals, connect_queue_pair}
use sponge_bob.Rdma.Connect.Exchange.Frame.{connect_queue_pair-given}
use sponge_bob.Rdma.Connect.Accept.{accept_client, rdma_accept}
use sponge_bob.Rdma.Connect.Accept.Numbered.{
  Numbered, Kept, Kept-trans, Kept-weaken, moved_on, taken,
}
use sponge_bob.Rdma.Connect.Accept.Joins.{Honest, accept_client-Kept}
use sponge_bob.Rdma.Connect.Accept.Total.{connect_queue_pair_total, receive_in_advance_total}

module _ {F : Type 0} (verbs : Verbs F) (net : Net F) (ids : Layout ExchangeId)
    (metas : Layout ExchangeMeta) (reads : ℕ) (malloced : F → PeerSockData)
    (locals : F → Locals) where
  -- The device makes the queue pairs that it is asked for, both exchanges end within the reads
  -- allowed, and the arrays of queue pairs have their three places.
  pub record Answers : Type 0 where
    pub created : (attr : QpInitAttr) (f : F) → (qp : ℕ) × ((net.create_qp attr f).0 ≡ some qp)
    pub known :
        (fd : ℕ) (sent held : List ℕ) (f : F)
        → (rc : ℤ) × (buffer : List ℕ) × (f' : F) × (data_sync net reads fd ids.size sent held f
            ≡ ok (rc, buffer, f'))
    pub synced :
        (fd : ℕ) (sent held : List ℕ) (f : F)
        → (rc : ℤ) × (buffer : List ℕ) × (f' : F) × (data_sync net reads fd metas.size sent held f
            ≡ ok (rc, buffer, f'))
    pub three : (bs : List ℕ) → length (metas.of_bytes bs).qp_num ≡ 3
    pub room : (f : F) → length (malloced f).qp ≡ 3

  -- The number of a node whose connection is set up is one of the array.
  number_small :
      (fd : ℕ) (r r1 : RdmaSocket) (f f1 : F) (peer1 : PeerSockData)
      → Numbered r
      → r.max_node_id < 1000
      → Honest verbs net ids metas reads malloced locals r.server_count
      → connect_queue_pair net ids metas reads
          (locals f)
          (record (malloced f) { sock = fd; counter = 0 })
          r
          f
        ≡ ok (true, peer1, r1, f1)
      → peer1.node_id < 1000
  number_small fd r r1 f f1 peer1 h b servers run =
      let peer : PeerSockData = record (malloced f) { sock = fd; counter = 0 } in
      elim (connect_queue_pair-given net ids metas reads (locals f) peer r f true peer1 r1 f1 run) [
        | inl (q, d) ↦ absurd (ground (arith, d))
        | inr (rc, buffer, fx, sent, z, q, node) ↦
            elim (taken (ids.of_bytes buffer) peer r h (omega (arith, b))) [
              | inl (s, t) ↦ omega (
                arith,
                servers.at fd r f fx rc buffer sent z s,
                node,
                ap (λ p. p.0.node_id) t,
                h.above,
                b,
              )
              | inr t ↦
                  let number : peer1.node_id ≡ r.max_node_id =
                    node ∙ ap (λ (u : PeerSockData × RdmaSocket). u.0.node_id) t in
                  omega (arith, number, b)
            ]
      ]

  accept_client_total :
      (fd : ℕ) (r : RdmaSocket) (f : F)
      → Answers
      → Numbered r
      → Pointed r
      → r.max_node_id < 1000
      → Honest verbs net ids metas reads malloced locals r.server_count
      → (r' : RdmaSocket) × (f' : F) × (accept_client verbs net ids metas reads malloced locals fd r
            f
          ≡ ok (r', f'))
        × Pointed r'
  unfolding accept_client
  accept_client_total fd r f a h p b servers =
      let peer : PeerSockData = record (malloced f) { sock = fd; counter = 0 } in
      let (done, peer1, r1, f1, run, p1, l1) =
        connect_queue_pair_total net a.created ids metas reads a.known a.synced a.three (locals f)
          peer r f p (a.room f) in
      elim (Bool-cases done) [
        | inr fails ↦ (r1, f1, rw (run, ◌>>=◌) (rw fails refl), p1)
        | inl joins ↦
            let small =
              number_small fd r r1 f f1 peer1 h b servers
                (run ∙ ap (λ d. ok (d, peer1, r1, f1)) joins) in
            let t : ltb peer1.node_id 1000 ≡ true = ground arith in
            let r2 = record r1 { peers = Table.assign peer1.node_id peer1 r1.peers } in
            let filed : Table.find peer1.node_id r2.peers ≡ some peer1 =
              find-assign peer1.node_id peer1.node_id peer1 r1.peers
              ∙ rw (==_refl peer1.node_id) refl in
            let (f2, received) =
              receive_in_advance_total verbs qps_max_depth peer1.node_id r2 f1 peer1 filed
                (omega (arith, l1)) in
            (
              r2,
              f2,
              rw (run, ◌>>=◌) (rw joins (rw (t, ◌>>=◌) (rw (received, ◌>>=◌) refl))),
              record {
                queues = p1.queues;
                some_queue = p1.some_queue;
                room = p1.room;
                inside = p1.inside;
              },
            )
      ]

  -- The server has returned, or it has served `n` nodes and goes on.
  abbrev pub Serving : ℕ → ℕ → RdmaSocket → F → Type 0
  Serving n sock r f =
      (r' : RdmaSocket) × (f' : F) × Kept n r.max_node_id r r'
      × ((rdma_accept verbs net ids metas reads malloced locals n sock r f ≡ ok (r', f'))
          ⊎ ((fuel rest : ℕ)
              → fuel ≡ n + rest
              → rdma_accept verbs net ids metas reads malloced locals fuel sock r f
                ≡ rdma_accept verbs net ids metas reads malloced locals rest sock r' f'))

  stay : (n sock : ℕ) (r : RdmaSocket) → Numbered r → Kept n r.max_node_id r r
  stay n sock r h =
      Kept-weaken (omega arith) (moved_on r r r.max_node_id 0 r.max_node_id h (omega arith) refl)

  not_running :
      (k sock : ℕ) (r : RdmaSocket) (f : F) (x : Result (RdmaSocket × F))
      → r.is_running ≡ false
      → ok (r, f) ≡ x
      → rdma_accept verbs net ids metas reads malloced locals (suc k) sock r f ≡ x
  unfolding rdma_accept
  not_running k sock r f x stops e = rw (stops, rdma_accept) e

  no_round :
      (k sock : ℕ) (r : RdmaSocket) (f : F) (x : Result (RdmaSocket × F))
      → r.is_running ≡ true
      → (net.accept sock f).0 ≡ none
      → ok (r, (net.accept sock f).1) ≡ x
      → rdma_accept verbs net ids metas reads malloced locals (suc k) sock r f ≡ x
  unfolding rdma_accept
  no_round k sock r f x running nobody e = rw (running, rdma_accept) (rw nobody e)

  one_round :
      (k sock fd : ℕ) (r r1 : RdmaSocket) (f f2 : F)
      → r.is_running ≡ true
      → (net.accept sock f).0 ≡ some fd
      → accept_client verbs net ids metas reads malloced locals fd r (net.accept sock f).1
        ≡ ok (r1, f2)
      → rdma_accept verbs net ids metas reads malloced locals (suc k) sock r f
        ≡ rdma_accept verbs net ids metas reads malloced locals k sock r1 f2
  unfolding rdma_accept
  one_round k sock fd r r1 f f2 running accepted run =
      rw (running, rdma_accept) (rw accepted (rw (run, ◌>>=◌) refl))

  -- On a network that answers, and on which a node that says that it is a server has the number of a
  -- server, `RdmaAccept` of server 1 faults for no node that joins, while the numbers stay below 1000:
  -- for every `n` it has returned after `n` nodes at most, or it has served `n` nodes and goes on. In
  -- both cases every client that had joined still has its place under its number, each client that
  -- joined since has a number from the old `MaxNodeID` on, also where a connection failed in between,
  -- all numbers in use are below the new one, and it is greater by `n` at most. At the start the
  -- numbers in use are below `MaxNodeID`, which is above those of the servers, and `cqPtr` points at one
  -- of the completion queues, of which there are two at least.
  pub rdma_accept_total :
      (n sock : ℕ) (r : RdmaSocket) (f : F)
      → Answers
      → Numbered r
      → Pointed r
      → r.max_node_id + n ≤ 1000
      → Honest verbs net ids metas reads malloced locals r.server_count
      → Serving n sock r f
  unfolding rdma_accept
  rdma_accept_total zero sock r f a h p b servers = (
    r,
    f,
    stay zero sock r h,
    inr (λ fuel rest e.
        let q : fuel ≡ rest = omega (arith, e) in
        ap (λ k. rdma_accept verbs net ids metas reads malloced locals k sock r f) q),
  )
  rdma_accept_total (suc n) sock r f a h p b servers = elim (Bool-cases r.is_running) [
    | inr stops ↦ (r, f, stay (suc n) sock r h, inl (not_running n sock r f _ stops refl))
    | inl running ↦ elim (Option-cases (net.accept sock f).0) [
      | inl nobody ↦ (
        r,
        (net.accept sock f).1,
        stay (suc n) sock r h,
        inl (no_round n sock r f _ running nobody refl),
      )
      | inr (fd, accepted) ↦
          let (r1, f2, run, p1) =
            accept_client_total fd r (net.accept sock f).1 a h p (omega (arith, b)) servers in
          let k =
            accept_client-Kept verbs net ids metas reads malloced locals fd r r1
              (net.accept sock f).1 f2 h (omega (arith, b)) servers run in
          let (r', f', k', ends) =
            rdma_accept_total n sock r1 f2 a k.numbered p1 (omega (arith, b, k.given))
              (subst (Honest verbs net ids metas reads malloced locals) (sym k.servers) servers) in
          (
            r',
            f',
            Kept-weaken (omega arith) (Kept-trans k.rising k k'),
            elim ends [
              | inl done ↦ inl (one_round n sock fd r r1 f f2 running accepted run ∙ done)
              | inr more ↦ inr (λ fuel rest e.
                  let q : fuel ≡ suc (n + rest) = omega (arith, e) in
                  ap (λ k. rdma_accept verbs net ids metas reads malloced locals k sock r f) q
                  ∙ one_round (n + rest) sock fd r r1 f f2 running accepted run
                  ∙ more (n + rest) rest refl)
            ],
          )
    ]
  ]
