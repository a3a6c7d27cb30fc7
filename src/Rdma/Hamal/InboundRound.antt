-- ===== src/Rdma/Hamal/InboundRound.antt =====
-- A round of `InboundHamal`.
use sponge_bob.Prelude.{
  ℕ, ◌+◌, ◌%◌, ◌^◌, ◌≤◌, ◌<◌, ◌≡◌, refl, subst, ap, sym, ◌∙◌, true, some, [], ◌∷◌, arith, get_elem?,
  get_elem?_total, set, length-set, u64_mod, add64, sub64, ◌⊎◌,
}
use sponge_bob.Result.{ok, ◌>>=◌, or_fault}
use sponge_bob.Containers.Table
use sponge_bob.Rdma.Types.{RdmaSocket, PeerSockData, Sge, Verbs, ℤ, rdma_read}
use sponge_bob.Rdma.Post.{rdma_read_from}
use sponge_bob.Rdma.Poll.{poll_completion}
use sponge_bob.Rdma.Poll.Ends.{Polls, poll_completion-Polls}
use sponge_bob.Rdma.Hamal.Received.{Connected, Received, shorter, apart_copy}
use sponge_bob.Rdma.Memory.{Memory, Allowed, Delivers, copied_in, copied_out}
use sponge_bob.Rdma.Hamal.{inbound_round, send_pool_addr, send_pool_size}

module _ {F : Type 0} (verbs : Verbs F) (memory : Memory F) (polls : ℕ) where
  round_eq :
      (task_id buffer_send node_id buffer_receive total n qp old old_cost : ℕ) (r : RdmaSocket)
      (f posted g : F) (peer : PeerSockData) (answer : ℤ)
      → Table.find node_id r.peers ≡ some peer
      → get_elem? peer.qp (task_id + 1) ≡ some qp
      → verbs.post_send qp
          (record {
            sge = record { addr = send_pool_addr task_id r; length = n % 2 ^ 32; lkey = r.lkey };
            opcode =
                rdma_read (add64 (add64 buffer_receive total) peer.registered_memory) peer.rkey;
            signaled = true;
          }
            ∷ [])
          (verbs.time_of_day f).1
        ≡ (true, posted)
      → poll_completion verbs polls node_id 1 r posted ≡ ok (answer, g)
      → get_elem? r.read_size task_id ≡ some old
      → get_elem? r.read_time_cost task_id ≡ some old_cost
      → (cost : ℕ) × (inbound_round verbs polls task_id buffer_send node_id buffer_receive total n r
            f
          ≡ ok (
            record r {
              read_size = set r.read_size task_id (add64 old n);
              read_time_cost = set r.read_time_cost task_id cost;
            },
            (verbs.time_of_day
                (verbs.memcpy (add64 buffer_send total) (send_pool_addr task_id r) n g)).1,
          ))
  unfolding inbound_round rdma_read_from
  round_eq task_id buffer_send node_id buffer_receive total n qp old old_cost r f posted g peer
        answer known pair post polled size cost =
      (
        add64 old_cost (
            sub64
              (verbs.time_of_day
                (verbs.memcpy (add64 buffer_send total) (send_pool_addr task_id r) n g)).0
              (verbs.time_of_day f).0),
        rw (known, or_fault)
            (rw (pair, or_fault)
              (rw post (rw (polled, ◌>>=◌) (rw (size, or_fault) (rw (cost, or_fault) refl))))),
      )

  -- A round receives its piece, and the socket stays connected.
  pub round_run :
      (d : Delivers verbs memory polls)
      (task_id buffer_send node_id buffer_receive total n qp registered : ℕ) (r : RdmaSocket)
      (f : F)
      → Connected memory r task_id node_id qp registered
      → n ≤ send_pool_size
      → buffer_send + total + n < u64_mod
      → buffer_receive + total + n + registered < u64_mod
      → buffer_receive + total + n ≤ memory.remote_size qp
      → (buffer_send + total + n ≤ send_pool_addr task_id r)
        ⊎ (send_pool_addr task_id r + send_pool_size ≤ buffer_send + total)
      → memory.idle qp f ≡ true
      → (r' : RdmaSocket) × (f' : F) × (inbound_round verbs polls task_id buffer_send node_id
            buffer_receive total n r f
          ≡ ok (r', f'))
        × Connected memory r' task_id node_id qp registered
        × (send_pool_addr task_id r' ≡ send_pool_addr task_id r)
        × Received memory qp
            (send_pool_addr task_id r)
            (buffer_receive + total + registered)
            (buffer_send + total)
            n
            f
            f'
  round_run d task_id buffer_send node_id buffer_receive total n qp registered r f c small sends
        receives far apart ready =
      let pool = send_pool_addr task_id r in
      let f1 = (verbs.time_of_day f).1 in
      let addr = add64 (add64 buffer_receive total) c.peer.registered_memory in
      let sge : Sge = record { addr = pool; length = n % 2 ^ 32; lkey = r.lkey } in
      let to : add64 buffer_send total ≡ buffer_send + total = omega (arith, sends) in
      let from : addr ≡ buffer_receive + total + registered = omega (arith, receives, c.base) in
      let len : n % 2 ^ 32 ≡ n = omega (arith, small) in
      let (started, started_kept, started_idle) = d.clock f in
      let allowed : Allowed memory qp sge addr c.peer.rkey f1 = record {
        ready = started_idle qp ∙ ready;
        lkey = c.lkey;
        rkey_right = c.rkey;
        local_from = c.pool_from;
        local_to = omega (arith, c.pool_to, len, small);
        remote_from = omega (arith, from, c.remote_start);
        remote_to = omega (arith, from, len, far, c.remote_start);
      } in
      let (g, idle, done, got, kept) = d.reads qp sge addr c.peer.rkey f1 allowed in
      let (old, size) = get_elem?_total r.read_size task_id c.reads in
      let (old_cost, time) = get_elem?_total r.read_time_cost task_id c.read_costs in
      let polled =
        poll_completion-Polls verbs node_id done.more done.waits polls true r done.posted g c.peer
          c.known done.soon
          (subst (λ q. Polls verbs q done.more true g done.waits done.posted) c.queue
            done.polled) in
      let (cost, run) =
        round_eq task_id buffer_send node_id buffer_receive total n qp old old_cost r f done.posted
          g c.peer _ c.known c.pair done.post polled size time in
      let f3 = verbs.memcpy (add64 buffer_send total) pool n g in
      let (put, put_kept, put_idle) = d.copies (add64 buffer_send total) pool n g (
        subst (λ t. (t + n ≤ pool) ⊎ (pool + n ≤ t)) (sym to)
          (apart_copy (buffer_send + total) n pool small apart)) in
      let (ticked, ticked_kept, ticked_idle) = d.clock f3 in
      (
        _,
        _,
        run,
        record {
          peer = c.peer;
          known = c.known;
          pair = c.pair;
          queue = c.queue;
          base = c.base;
          remote_start = c.remote_start;
          lkey = c.lkey;
          rkey = c.rkey;
          pool_from = c.pool_from;
          pool_to = c.pool_to;
          reads = omega (arith, c.reads, length-set r.read_size task_id (add64 old n));
          read_costs = omega (arith, c.read_costs, length-set r.read_time_cost task_id cost);
          writes = c.writes;
          write_costs = c.write_costs;
          untested = c.untested;
        },
        refl,
        record {
          ready = ticked_idle qp ∙ put_idle qp ∙ idle;
          inside = λ j h.
              ap (λ t. memory.local (t + j) (verbs.time_of_day f3).1) (sym to)
              ∙ ticked (add64 buffer_send total + j)
              ∙ put (add64 buffer_send total + j)
              ∙ copied_in (λ i. memory.local (pool + i) g) (add64 buffer_send total) n
                  (λ b. memory.local b g) j h
              ∙ got (pool + j)
              ∙ copied_in (λ i. memory.remote qp (addr + i) f1) pool (n % 2 ^ 32)
                  (λ b. memory.local b f1) j (omega (arith, len))
              ∙ started_kept qp (addr + j)
              ∙ ap (λ t. memory.remote qp (t + j) f) from;
          outside = λ a away beside.
              ticked a
              ∙ put a
              ∙ copied_out (λ i. memory.local (pool + i) g) (add64 buffer_send total) n
                  (λ b. memory.local b g) a (subst (λ t. (a < t) ⊎ (t + n ≤ a)) (sym to) beside)
              ∙ got a
              ∙ copied_out (λ i. memory.remote qp (addr + i) f1) pool (n % 2 ^ 32)
                  (λ b. memory.local b f1) a
                  (shorter a pool (n % 2 ^ 32) away (omega (arith, len, small)))
              ∙ started a;
          others = λ q a. ticked_kept q a ∙ put_kept q a ∙ kept q a ∙ started_kept q a;
        },
      )
