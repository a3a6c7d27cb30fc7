-- ===== src/Rdma/Connect/Accept/Numbered.antt =====
-- The clients that joined server 1 keep their places.
use sponge_bob.Prelude.{
  ℕ, ◌+◌, ◌^◌, ◌≤◌, ◌<◌, ◌≡◌, refl, sym, subst, ◌∙◌, true, some, arith, ◌⊎◌, inl, inr, Bool-cases,
  ◌==◌,
}
use sponge_bob.Result.{ok}
use sponge_bob.Containers.Table
use sponge_bob.Containers.Table.{find-assign}
use sponge_bob.Rdma.Types.{RdmaSocket, PeerSockData}
use sponge_bob.Rdma.Connect.Types.{ExchangeId}
use sponge_bob.Rdma.Connect.Exchange.{take_id}
use sponge_bob.Rdma.Connect.Accept.{file_peer}

-- Server 1, whose clients have numbers above those of the servers and below the next one to be given.
pub record Numbered (r : RdmaSocket) : Type 0 where
  pub server : r.is_server ≡ true
  pub first : r.my_node_id ≡ 1
  pub above : r.server_count < r.max_node_id
  pub below_next :
      (k : ℕ) (peer : PeerSockData) → Table.find k r.peers ≡ some peer → k < r.max_node_id

-- From `r` to `r'` the clients keep their places, numbers are given in order, `n` of them at most,
-- and a client that joins gets one from `low` on.
pub record Kept (n low : ℕ) (r r' : RdmaSocket) : Type 0 where
  pub numbered : Numbered r'
  pub servers : r'.server_count ≡ r.server_count
  pub rising : r.max_node_id ≤ r'.max_node_id
  pub given : r'.max_node_id ≤ r.max_node_id + n
  pub clients :
      (k : ℕ) (peer : PeerSockData)
      → r.server_count < k
      → Table.find k r.peers ≡ some peer
      → Table.find k r'.peers ≡ some peer
  pub joined :
      (k : ℕ) (peer : PeerSockData)
      → r.server_count < k
      → Table.find k r'.peers ≡ some peer
      → (Table.find k r.peers ≡ some peer) ⊎ (low ≤ k)

pub Kept-trans :
    {m n low low' : ℕ} {r s t : RdmaSocket}
    → low ≤ low'
    → Kept m low r s
    → Kept n low' s t
    → Kept (m + n) low r t
Kept-trans {low = low} {r = r} h a b = record {
  numbered = b.numbered;
  servers = b.servers ∙ a.servers;
  rising = omega (arith, a.rising, b.rising);
  given = omega (arith, a.given, b.given);
  clients = λ k peer above f.
      b.clients k peer (omega (arith, above, a.servers)) (a.clients k peer above f);
  joined = λ k peer above f. elim (b.joined k peer (omega (arith, above, a.servers)) f) [
    | inl old ↦ a.joined k peer above old
    | inr new ↦ inr (omega (arith, h, new))
  ];
}

-- The socket with another `cqPtr`, and another `MaxNodeID` that is not smaller.
pub moved_on :
    (r r' : RdmaSocket) (m n low : ℕ)
    → Numbered r
    → m ≡ r.max_node_id + n
    → r' ≡ record r { cq_ptr = r'.cq_ptr; max_node_id = m }
    → Kept n low r r'
moved_on r r' m n low h q e = subst (Kept n low r) (sym e) (record {
  numbered = record {
    server = h.server;
    first = h.first;
    above = omega (arith, h.above, q);
    below_next = λ k peer f. omega (arith, h.below_next k peer f, q);
  };
  servers = refl;
  rising = omega (arith, q);
  given = omega (arith, q);
  clients = λ k peer above f. f;
  joined = λ k peer above f. inl f;
})

-- Filing a peer under a server's number, or under the last number given.
pub filed :
    (node_id : ℕ) (peer : PeerSockData) (r r' : RdmaSocket) (first_free : ℕ)
    → Numbered r
    → file_peer node_id peer r ≡ ok r'
    → ((k : ℕ) (p : PeerSockData) → Table.find k r.peers ≡ some p → k < first_free)
    → first_free ≤ r.max_node_id
    → (node_id ≤ r.server_count) ⊎ ((first_free ≤ node_id) × (node_id < r.max_node_id))
    → Kept 0 first_free r r'
filed node_id peer r r' first_free h e old ff place = subst (Kept 0 first_free r) same (record {
  numbered = record {
    server = h.server;
    first = h.first;
    above = h.above;
    below_next = λ k p f. elim (Bool-cases (node_id == k)) [
      | inl q ↦ below_max k q place
      | inr q ↦ h.below_next k p (ground (arith, f, q, find-assign k node_id peer r.peers))
    ];
  };
  servers = refl;
  rising = omega arith;
  given = omega arith;
  clients = λ k p above f. elim (Bool-cases (node_id == k)) [
    | inl q ↦ absurd (not_old k q p above f place)
    | inr q ↦ ground (arith, f, q, find-assign k node_id peer r.peers)
  ];
  joined = λ k p above f. elim (Bool-cases (node_id == k)) [
    | inl q ↦ inr (new_number k q above place)
    | inr q ↦ inl (ground (arith, f, q, find-assign k node_id peer r.peers))
  ];
})
  where
    same : record r { peers = Table.assign node_id peer r.peers } ≡ r'
    same = ground (arith, e)

    below_max :
        (k : ℕ)
        → (node_id == k) ≡ true
        → (node_id ≤ r.server_count) ⊎ ((first_free ≤ node_id) × (node_id < r.max_node_id))
        → k < r.max_node_id
    below_max k q (inl l) = ground (arith, q, l, h.above)
    below_max k q (inr (l, m)) = ground (arith, q, m)

    new_number :
        (k : ℕ)
        → (node_id == k) ≡ true
        → r.server_count < k
        → (node_id ≤ r.server_count) ⊎ ((first_free ≤ node_id) × (node_id < r.max_node_id))
        → first_free ≤ k
    new_number k q above (inl l) = absurd (ground (arith, q, l, above))
    new_number k q above (inr (l, m)) = ground (arith, q, l)

    not_old :
        (k : ℕ)
        → (node_id == k) ≡ true
        → (p : PeerSockData) → r.server_count < k
        → Table.find k r.peers ≡ some p
        → (node_id ≤ r.server_count) ⊎ ((first_free ≤ node_id) × (node_id < r.max_node_id))
        → ⊥
    not_old k q p above f (inl l) = ground (arith, q, l, above)
    not_old k q p above f (inr (l, m)) = ground (arith, q, l, old k p f)

pub Kept-weaken : {m n low : ℕ} {r s : RdmaSocket} → m ≤ n → Kept m low r s → Kept n low r s
Kept-weaken h a = record {
  numbered = a.numbered;
  servers = a.servers;
  rising = a.rising;
  given = omega (arith, a.given, h);
  clients = a.clients;
  joined = a.joined;
}

pub taken :
    (remote : ExchangeId) (peer : PeerSockData) (r : RdmaSocket)
    → Numbered r
    → r.max_node_id + 1 < 2 ^ 16
    → ((remote.is_server ≡ true)
        × (take_id remote peer r ≡ (record peer { node_id = remote.node_id }, r)))
      ⊎ (take_id remote peer r
          ≡ (record peer { node_id = r.max_node_id }, record r { max_node_id = r.max_node_id + 1 }))
unfolding take_id
taken remote peer r h b = elim (Bool-cases remote.is_server) [
  | inl q ↦ inl (q, ground (arith, q, h.server))
  | inr q ↦ inr (ground (arith, q, h.server, h.first, b))
]
