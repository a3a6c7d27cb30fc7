-- ===== src/Rdma/Hamal/OutboundRound.antt =====
-- A round of `OutboundHamal`.
use sponge_bob.Prelude.{
  ℕ, ◌+◌, ◌%◌, ◌^◌, ◌≤◌, ◌<◌, ◌≡◌, refl, subst, ap, sym, ◌∙◌, true, false, some, [], ◌∷◌, arith,
  get_elem?, get_elem?_total, set, length-set, u64_mod, add64, sub64, ◌⊎◌, inl, inr,
}
use sponge_bob.Result.{ok, ◌>>=◌, or_fault}
use sponge_bob.Containers.Table
use sponge_bob.Rdma.Types.{RdmaSocket, PeerSockData, Sge, Verbs, ℤ, rdma_write}
use sponge_bob.Rdma.Post.{rdma_write_to}
use sponge_bob.Rdma.Poll.{poll_completion}
use sponge_bob.Rdma.Poll.Ends.{Polls, poll_completion-Polls}
use sponge_bob.Rdma.Hamal.Received.{Connected, Sent, shorter, apart_copy, swap_apart}
use sponge_bob.Rdma.Memory.{Memory, Allowed, Delivers, copied_in, copied_out}
use sponge_bob.Rdma.Hamal.{outbound_round, write_test_once, send_pool_addr, send_pool_size}

module _ {F : Type 0} (verbs : Verbs F) (memory : Memory F) (polls : ℕ) where
  untested :
      (task_id node_id buffer_receive : ℕ) (r : RdmaSocket) (f : F)
      → r.write_test ≡ false
      → write_test_once verbs polls task_id node_id buffer_receive r f ≡ ok (r, f)
  unfolding write_test_once
  untested task_id node_id buffer_receive r f h = rw h refl

  round_eq :
      (task_id buffer_send node_id buffer_receive total n qp old old_cost : ℕ) (r : RdmaSocket)
      (f posted g : F) (peer : PeerSockData) (answer : ℤ)
      → Table.find node_id r.peers ≡ some peer
      → get_elem? peer.qp (task_id + 1) ≡ some qp
      → verbs.post_send qp
          (record {
            sge = record { addr = send_pool_addr task_id r; length = n % 2 ^ 32; lkey = r.lkey };
            opcode =
                rdma_write (add64 (add64 buffer_receive total) peer.registered_memory) peer.rkey;
            signaled = true;
          }
            ∷ [])
          (verbs.memcpy
            (send_pool_addr task_id r)
            (add64 buffer_send total)
            n
            (verbs.time_of_day f).1)
        ≡ (true, posted)
      → poll_completion verbs polls node_id 1 r posted ≡ ok (answer, g)
      → get_elem? r.write_size task_id ≡ some old
      → get_elem? r.write_time_cost task_id ≡ some old_cost
      → r.write_test ≡ false
      → (cost : ℕ) × (outbound_round verbs polls task_id buffer_send node_id buffer_receive total n
            r f
          ≡ ok (
            record r {
              write_size = set r.write_size task_id (add64 old n);
              write_time_cost = set r.write_time_cost task_id cost;
            },
            (verbs.time_of_day g).1,
          ))
  unfolding outbound_round rdma_write_to
  round_eq task_id buffer_send node_id buffer_receive total n qp old old_cost r f posted g peer
        answer known pair post polled size cost test =
      let end = verbs.time_of_day g in
      let new_cost = add64 old_cost (sub64 end.0 (verbs.time_of_day f).0) in
      let r' = record r {
        write_size = set r.write_size task_id (add64 old n);
        write_time_cost = set r.write_time_cost task_id new_cost;
      } in
      (
        new_cost,
        rw (known, or_fault)
            (rw (pair, or_fault)
              (rw post (
                rw (polled, ◌>>=◌)
                  (rw (size, or_fault)
                    (rw (cost, or_fault)
                      (untested task_id node_id buffer_receive r' end.1 test)))))),
      )

  -- A round sends its piece, and the socket stays connected.
  pub round_run :
      (d : Delivers verbs memory polls)
      (task_id buffer_send node_id buffer_receive total n qp registered : ℕ) (r : RdmaSocket)
      (f : F)
      → Connected memory r task_id node_id qp registered
      → n ≤ send_pool_size
      → buffer_send + total + n < u64_mod
      → buffer_receive + total + n + registered < u64_mod
      → buffer_receive + total + n ≤ memory.remote_size qp
      → (buffer_send + total + n ≤ send_pool_addr task_id r)
        ⊎ (send_pool_addr task_id r + send_pool_size ≤ buffer_send + total)
      → memory.idle qp f ≡ true
      → (r' : RdmaSocket) × (f' : F) × (outbound_round verbs polls task_id buffer_send node_id
            buffer_receive total n r f
          ≡ ok (r', f'))
        × Connected memory r' task_id node_id qp registered
        × (send_pool_addr task_id r' ≡ send_pool_addr task_id r)
        × Sent memory qp
            (send_pool_addr task_id r)
            (buffer_send + total)
            (buffer_receive + total + registered)
            n
            f
            f'
  round_run d task_id buffer_send node_id buffer_receive total n qp registered r f c small sends
        receives far apart ready =
      let pool = send_pool_addr task_id r in
      let f1 = (verbs.time_of_day f).1 in
      let f2 = verbs.memcpy pool (add64 buffer_send total) n f1 in
      let addr = add64 (add64 buffer_receive total) c.peer.registered_memory in
      let sge : Sge = record { addr = pool; length = n % 2 ^ 32; lkey = r.lkey } in
      let to : addr ≡ buffer_receive + total + registered = omega (arith, receives, c.base) in
      let from : add64 buffer_send total ≡ buffer_send + total = omega (arith, sends) in
      let len : n % 2 ^ 32 ≡ n = omega (arith, small) in
      let (started, started_kept, started_idle) = d.clock f in
      let (put, put_kept, put_idle) = d.copies pool (add64 buffer_send total) n f1 (
        subst (λ t. (pool + n ≤ t) ⊎ (t + n ≤ pool)) (sym from)
          (swap_apart (apart_copy (buffer_send + total) n pool small apart))) in
      let allowed : Allowed memory qp sge addr c.peer.rkey f2 = record {
        ready = put_idle qp ∙ started_idle qp ∙ ready;
        lkey = c.lkey;
        rkey_right = c.rkey;
        local_from = c.pool_from;
        local_to = omega (arith, c.pool_to, len, small);
        remote_from = omega (arith, to, c.remote_start);
        remote_to = omega (arith, to, len, far, c.remote_start);
      } in
      let (g, idle, done, got, kept) = d.writes qp sge addr c.peer.rkey f2 allowed in
      let (old, size) = get_elem?_total r.write_size task_id c.writes in
      let (old_cost, time) = get_elem?_total r.write_time_cost task_id c.write_costs in
      let polled =
        poll_completion-Polls verbs node_id done.more done.waits polls true r done.posted g c.peer
          c.known done.soon
          (subst (λ q. Polls verbs q done.more true g done.waits done.posted) c.queue
            done.polled) in
      let (cost, run) =
        round_eq task_id buffer_send node_id buffer_receive total n qp old old_cost r f done.posted
          g c.peer _ c.known c.pair done.post polled size time c.untested in
      let (ticked, ticked_kept, ticked_idle) = d.clock g in
      (
        _,
        _,
        run,
        record {
          peer = c.peer;
          known = c.known;
          pair = c.pair;
          queue = c.queue;
          base = c.base;
          remote_start = c.remote_start;
          lkey = c.lkey;
          rkey = c.rkey;
          pool_from = c.pool_from;
          pool_to = c.pool_to;
          reads = c.reads;
          read_costs = c.read_costs;
          writes = omega (arith, c.writes, length-set r.write_size task_id (add64 old n));
          write_costs = omega (arith, c.write_costs, length-set r.write_time_cost task_id cost);
          untested = c.untested;
        },
        refl,
        record {
          ready = ticked_idle qp ∙ idle;
          inside = λ j h.
              ap (λ t. memory.remote qp (t + j) (verbs.time_of_day g).1) (sym to)
              ∙ ticked_kept qp (addr + j)
              ∙ got (addr + j)
              ∙ copied_in (λ i. memory.local (pool + i) f2) addr (n % 2 ^ 32)
                  (λ b. memory.remote qp b f2) j (omega (arith, len))
              ∙ put (pool + j)
              ∙ copied_in (λ i. memory.local (add64 buffer_send total + i) f1) pool n
                  (λ b. memory.local b f1) j h
              ∙ started (add64 buffer_send total + j)
              ∙ ap (λ t. memory.local (t + j) f) from;
          outside = λ a beside.
              ticked_kept qp a
              ∙ got a
              ∙ copied_out (λ i. memory.local (pool + i) f2) addr (n % 2 ^ 32)
                  (λ b. memory.remote qp b f2) a (beside_addr addr a to len beside)
              ∙ put_kept qp a
              ∙ started_kept qp a;
          kept = λ a away.
              ticked a
              ∙ kept a
              ∙ put a
              ∙ copied_out (λ i. memory.local (add64 buffer_send total + i) f1) pool n
                  (λ b. memory.local b f1) a (shorter a pool n away small)
              ∙ started a;
        },
      )
    where
      beside_addr :
          (addr a : ℕ)
          → addr ≡ buffer_receive + total + registered
          → n % 2 ^ 32 ≡ n
          → (a < buffer_receive + total + registered)
            ⊎ (buffer_receive + total + registered + n ≤ a)
          → (a < addr) ⊎ (addr + n % 2 ^ 32 ≤ a)
      beside_addr addr a e e' (inl h) = inl (omega (arith, h))
      beside_addr addr a e e' (inr h) = inr (omega (arith, h))
