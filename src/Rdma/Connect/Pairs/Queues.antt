-- ===== src/Rdma/Connect/Pairs/Queues.antt =====
-- Which completion queues the queue pairs share.
use sponge_bob.Prelude.{ℕ, ◌≤◌, ◌<◌, ◌≡◌, true, arith, length}
use sponge_bob.Rdma.Types.{RdmaSocket, PeerSockData}
use sponge_bob.Rdma.Connect.Pairs.{choose_cq}

-- `cqPtr` points at a completion queue; at a server there are two of them at least.
pub record Pointed (r : RdmaSocket) : Type 0 where
  pub queues : length r.cq ≡ r.cq_num
  pub some_queue : 0 < r.cq_num
  pub room : r.is_server ≡ true → 2 ≤ r.cq_num
  pub inside : r.cq_ptr < r.cq_num

-- The queue that a queue pair gets is one that was made, and `cqPtr` points at one from then on. At a
-- server the pairs with another server get the first one, the first pair with a client never does, and
-- any later pair made right behind it gets the same one as it.
pub choose_cq-Pointed :
    (peer : PeerSockData) (offset : ℕ) (r : RdmaSocket)
    → Pointed r
    → ((choose_cq peer offset r).0 < length r.cq)
      × Pointed (choose_cq peer offset r).1
      × (r.is_server ≡ true
          → 0 < peer.node_id
          → peer.node_id ≤ r.server_count
          → (choose_cq peer offset r).0 ≡ 0)
      × (r.is_server ≡ true
          → r.server_count < peer.node_id
          → (offset ≡ 0 → 0 < (choose_cq peer offset r).0)
            × ((later : ℕ)
                → 0 < later
                → (choose_cq peer later (choose_cq peer offset r).1).0
                  ≡ (choose_cq peer offset r).0))
unfolding choose_cq
choose_cq-Pointed peer offset r p = (
  ground (arith, p.queues, p.some_queue, p.inside, p.room),
  record {
    queues = ground (arith, p.queues);
    some_queue = ground (arith, p.some_queue);
    room = λ h. ground (arith, p.room, h);
    inside = ground (arith, p.some_queue, p.inside, p.room);
  },
  λ h a b. ground (arith, h, a, b),
  λ h a. (λ z. ground (arith, h, a, z), λ later l. ground (arith, h, a, l)),
)
