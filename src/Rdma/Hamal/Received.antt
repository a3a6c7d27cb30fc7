-- ===== src/Rdma/Hamal/Received.antt =====
-- The connection that a transfer goes over, and what a transfer leaves in memory.
use sponge_bob.Prelude.{
  ℕ, suc, ◌+◌, ◌*◌, ◌-◌, ◌≤◌, ◌<◌, ◌≡◌, refl, ap, sym, ◌∙◌, true, false, some, arith, length,
  get_elem?, ◌⊎◌, ltb, Bool-cases, inl, inr,
}
use sponge_bob.Containers.Table
use sponge_bob.Rdma.Types.{RdmaSocket, PeerSockData}
use sponge_bob.Rdma.Memory.{Memory}
use sponge_bob.Rdma.Hamal.{signalled, send_pool_addr, send_pool_size}

-- The peer that the transfers of task `task_id` go to, and its queue pair; the keys that the socket
-- holds and the pool of the task, which lies in the registered region; the totals of the task.
pub record Connected {F : Type 0} (memory : Memory F) (r : RdmaSocket)
    (task_id node_id qp registered : ℕ) : Type 0 where
  pub peer : PeerSockData
  pub known : Table.find node_id r.peers ≡ some peer
  pub pair : get_elem? peer.qp (task_id + 1) ≡ some qp
  pub queue : memory.cq_of qp ≡ peer.cq
  pub base : peer.registered_memory ≡ registered
  pub remote_start : memory.remote_start qp ≡ registered
  pub lkey : r.lkey ≡ memory.local_key
  pub rkey : peer.rkey ≡ memory.remote_key qp
  pub pool_from : memory.local_start ≤ send_pool_addr task_id r
  pub pool_to : send_pool_addr task_id r + send_pool_size ≤ memory.local_start + memory.local_size
  pub reads : task_id < length r.read_size
  pub read_costs : task_id < length r.read_time_cost
  pub writes : task_id < length r.write_size
  pub write_costs : task_id < length r.write_time_cost
  pub untested : r.write_test ≡ false

-- `len` bytes at `to` are those of the other node at `from` before; the rest of the local memory, but
-- for the pool, and the memory of the other nodes are as before; the queue pair is idle.
pub record Received {F : Type 0} (memory : Memory F) (qp pool from to len : ℕ) (f g : F)
    : Type 0 where
  pub inside : (j : ℕ) → j < len → memory.local (to + j) g ≡ memory.remote qp (from + j) f
  pub outside :
      (a : ℕ)
      → (a < pool) ⊎ (pool + send_pool_size ≤ a)
      → (a < to) ⊎ (to + len ≤ a)
      → memory.local a g ≡ memory.local a f
  pub others : (q a : ℕ) → memory.remote q a g ≡ memory.remote q a f
  pub ready : memory.idle qp g ≡ true

pub Received-empty :
    {F : Type 0} (memory : Memory F) (qp pool from to : ℕ) (f : F)
    → memory.idle qp f ≡ true
    → Received memory qp pool from to 0 f f
Received-empty memory qp pool from to f e = record {
  ready = e;
  inside = λ j h. absurd (omega arith);
  outside = λ a h k. refl;
  others = λ q a. refl;
}

-- Two pieces one behind the other, the first of which lies outside the pool.
pub Received-append :
    {F : Type 0} (memory : Memory F) (qp pool from to n m : ℕ) (f g h : F)
    → (to + n ≤ pool) ⊎ (pool + send_pool_size ≤ to)
    → Received memory qp pool from to n f g
    → Received memory qp pool (from + n) (to + n) m g h
    → Received memory qp pool from to (n + m) f h
Received-append memory qp pool from to n m f g h apart x y = record {
  ready = y.ready;
  inside = λ j below. elim (Bool-cases (ltb j n)) [
    | inl first ↦
        y.outside (to + j) (beside_pool j (ground (arith, first)) apart)
          (inl (ground (arith, first)))
        ∙ x.inside j (ground (arith, first))
    | inr second ↦
        let q : to + n + (j - n) ≡ to + j = ground (arith, second) in
        let q' : from + n + (j - n) ≡ from + j = ground (arith, second) in
        ap (λ t. memory.local t h) (sym q)
        ∙ y.inside (j - n) (ground (arith, second, below))
        ∙ ap (λ t. memory.remote qp t g) q'
        ∙ x.others qp (from + j)
  ];
  outside = λ a away beside.
      y.outside a away (rest_beside a beside) ∙ x.outside a away (first_beside a beside);
  others = λ q a. y.others q a ∙ x.others q a;
}
  where
    beside_pool :
        (j : ℕ)
        → j < n
        → (to + n ≤ pool) ⊎ (pool + send_pool_size ≤ to)
        → (to + j < pool) ⊎ (pool + send_pool_size ≤ to + j)
    beside_pool j b (inl l) = inl (omega (arith, l, b))
    beside_pool j b (inr l) = inr (omega (arith, l))

    rest_beside : (a : ℕ) → (a < to) ⊎ (to + (n + m) ≤ a) → (a < to + n) ⊎ (to + n + m ≤ a)
    rest_beside a (inl l) = inl (omega (arith, l))
    rest_beside a (inr l) = inr (omega (arith, l))

    first_beside : (a : ℕ) → (a < to) ⊎ (to + (n + m) ≤ a) → (a < to) ⊎ (to + n ≤ a)
    first_beside a (inl l) = inl l
    first_beside a (inr l) = inr (omega (arith, l))

-- The signal changes nothing that the connection is about.
pub signalled-Connected :
    {F : Type 0} (memory : Memory F) (r : RdmaSocket) (task_id node_id qp registered : ℕ)
    → Connected memory r task_id node_id qp registered
    → Connected memory (signalled r) task_id node_id qp registered
signalled-Connected memory r task_id node_id qp registered c = record {
  peer = c.peer;
  known = c.known;
  pair = c.pair;
  queue = c.queue;
  base = c.base;
  remote_start = c.remote_start;
  lkey = c.lkey;
  rkey = c.rkey;
  pool_from = c.pool_from;
  pool_to = c.pool_to;
  reads = c.reads;
  read_costs = c.read_costs;
  writes = c.writes;
  write_costs = c.write_costs;
  untested = c.untested;
}

pub shorter :
    (a pool n : ℕ)
    → (a < pool) ⊎ (pool + send_pool_size ≤ a)
    → n ≤ send_pool_size
    → (a < pool) ⊎ (pool + n ≤ a)
shorter a pool n (inl h) k = inl h
shorter a pool n (inr h) k = inr (omega (arith, h))

-- `len` bytes of the other node at `to` are those of this node at `from` before; the rest of the
-- memory of that node, and the local memory but for the pool, are as before; the queue pair is idle.
pub record Sent {F : Type 0} (memory : Memory F) (qp pool from to len : ℕ) (f g : F) : Type 0 where
  pub inside : (j : ℕ) → j < len → memory.remote qp (to + j) g ≡ memory.local (from + j) f
  pub outside : (a : ℕ) → (a < to) ⊎ (to + len ≤ a) → memory.remote qp a g ≡ memory.remote qp a f
  pub kept :
      (a : ℕ) → (a < pool) ⊎ (pool + send_pool_size ≤ a) → memory.local a g ≡ memory.local a f
  pub ready : memory.idle qp g ≡ true

pub Sent-empty :
    {F : Type 0} (memory : Memory F) (qp pool from to : ℕ) (f : F)
    → memory.idle qp f ≡ true
    → Sent memory qp pool from to 0 f f
Sent-empty memory qp pool from to f e = record {
  ready = e;
  inside = λ j h. absurd (omega arith);
  outside = λ a h. refl;
  kept = λ a h. refl;
}

-- Two pieces one behind the other, from outside the pool.
pub Sent-append :
    {F : Type 0} (memory : Memory F) (qp pool from to n m : ℕ) (f g h : F)
    → (from + (n + m) ≤ pool) ⊎ (pool + send_pool_size ≤ from)
    → Sent memory qp pool from to n f g
    → Sent memory qp pool (from + n) (to + n) m g h
    → Sent memory qp pool from to (n + m) f h
Sent-append memory qp pool from to n m f g h apart x y = record {
  ready = y.ready;
  inside = λ j below. elim (Bool-cases (ltb j n)) [
    | inl first ↦
        y.outside (to + j) (inl (ground (arith, first))) ∙ x.inside j (ground (arith, first))
    | inr second ↦
        let q : to + n + (j - n) ≡ to + j = ground (arith, second) in
        let q' : from + n + (j - n) ≡ from + j = ground (arith, second) in
        ap (λ t. memory.remote qp t h) (sym q)
        ∙ y.inside (j - n) (ground (arith, second, below))
        ∙ ap (λ t. memory.local t g) q'
        ∙ x.kept (from + j) (beside_pool j below apart)
  ];
  outside = λ a beside. y.outside a (rest_beside a beside) ∙ x.outside a (first_beside a beside);
  kept = λ a away. y.kept a away ∙ x.kept a away;
}
  where
    beside_pool :
        (j : ℕ)
        → j < n + m
        → (from + (n + m) ≤ pool) ⊎ (pool + send_pool_size ≤ from)
        → (from + j < pool) ⊎ (pool + send_pool_size ≤ from + j)
    beside_pool j b (inl l) = inl (omega (arith, l, b))
    beside_pool j b (inr l) = inr (omega (arith, l))

    rest_beside : (a : ℕ) → (a < to) ⊎ (to + (n + m) ≤ a) → (a < to + n) ⊎ (to + n + m ≤ a)
    rest_beside a (inl l) = inl (omega (arith, l))
    rest_beside a (inr l) = inr (omega (arith, l))

    first_beside : (a : ℕ) → (a < to) ⊎ (to + (n + m) ≤ a) → (a < to) ⊎ (to + n ≤ a)
    first_beside a (inl l) = inl l
    first_beside a (inr l) = inr (omega (arith, l))

pub last_piece : (rest : ℕ) → suc rest ≡ 0 * send_pool_size + suc rest
last_piece rest = omega arith

-- What is left of a transfer after a piece lies outside the pool too.
pub still_apart :
    (from total n rest pool : ℕ)
    → (from + total + (suc n * send_pool_size + rest) ≤ pool)
      ⊎ (pool + send_pool_size ≤ from + total)
    → (from + (total + send_pool_size) + (n * send_pool_size + rest) ≤ pool)
      ⊎ (pool + send_pool_size ≤ from + (total + send_pool_size))
still_apart from total n rest pool (inl l) = inl (omega (arith, l))
still_apart from total n rest pool (inr l) = inr (omega (arith, l))

-- A piece that lies outside the pool does not overlap what of the pool it is copied through.
pub apart_copy :
    (at n pool : ℕ)
    → n ≤ send_pool_size
    → (at + n ≤ pool) ⊎ (pool + send_pool_size ≤ at)
    → (at + n ≤ pool) ⊎ (pool + n ≤ at)
apart_copy at n pool h (inl l) = inl l
apart_copy at n pool h (inr l) = inr (omega (arith, h, l))

pub swap_apart : {a b : Type 0} → a ⊎ b → b ⊎ a
swap_apart (inl x) = inr x
swap_apart (inr x) = inl x

-- The first piece, and the last, of what lies outside the pool.
pub first_apart :
    (from n rest pool : ℕ)
    → (from + (suc n * send_pool_size + rest) ≤ pool) ⊎ (pool + send_pool_size ≤ from)
    → (from + send_pool_size ≤ pool) ⊎ (pool + send_pool_size ≤ from)
first_apart from n rest pool (inl l) = inl (omega (arith, l))
first_apart from n rest pool (inr l) = inr l

pub last_apart :
    (from rest pool : ℕ)
    → (from + (0 * send_pool_size + rest) ≤ pool) ⊎ (pool + send_pool_size ≤ from)
    → (from + rest ≤ pool) ⊎ (pool + send_pool_size ≤ from)
last_apart from rest pool (inl l) = inl (omega (arith, l))
last_apart from rest pool (inr l) = inr l
