-- ===== src/Rdma/Hamal/RoundTrip.antt =====
-- What is written to the other node comes back from there.
use sponge_bob.Prelude.{ℕ, ◌+◌, ◌≤◌, ◌<◌, ◌≡◌, ◌∙◌, sym, subst, true, u64_mod, ◌⊎◌}
use sponge_bob.Result.{ok, ◌>>=◌}
use sponge_bob.Rdma.Types.{RdmaSocket, Verbs}
use sponge_bob.Rdma.Memory.{Memory, Delivers}
use sponge_bob.Rdma.Hamal.{inbound_hamal, outbound_hamal, send_pool_addr, send_pool_size}
use sponge_bob.Rdma.Hamal.Received.{Connected}
use sponge_bob.Rdma.Hamal.Inbound.{inbound_hamal_delivers}
use sponge_bob.Rdma.Hamal.Outbound.{outbound_hamal_delivers}

-- On a fabric that carries out the requests that the documentation allows, within the polls allowed:
-- `OutboundHamal` of the `size` bytes at `a`, and then `InboundHamal` of as many bytes from the same
-- place of the other node to `b`, both succeed and leave at `b` the bytes that `a` had. The task is
-- connected, with an idle queue pair, `WriteTest` is off, the place lies in the memory that the other
-- node registered, the ends of the buffers are below 2 ^ 64, and both local buffers lie outside the
-- pool of the task.
pub outbound_inbound_hamal :
    {F : Type 0} (verbs : Verbs F) (memory : Memory F) (polls : ℕ) (d : Delivers verbs memory polls)
    (task_id a b node_id buffer_receive size qp registered : ℕ) (r : RdmaSocket) (f : F)
    → Connected memory r task_id node_id qp registered
    → a + size < u64_mod
    → b + size < u64_mod
    → buffer_receive + size + registered < u64_mod
    → (a + size ≤ send_pool_addr task_id r) ⊎ (send_pool_addr task_id r + send_pool_size ≤ a)
    → (b + size ≤ send_pool_addr task_id r) ⊎ (send_pool_addr task_id r + send_pool_size ≤ b)
    → buffer_receive + size ≤ memory.remote_size qp
    → memory.idle qp f ≡ true
    → (r' : RdmaSocket) × (f' : F) × ((outbound_hamal verbs polls task_id a node_id buffer_receive
            size r f
          >>= λ p. inbound_hamal verbs polls task_id b node_id buffer_receive size p.0 p.1)
        ≡ ok (r', f'))
      × ((j : ℕ) → j < size → memory.local (b + j) f' ≡ memory.local (a + j) f)
outbound_inbound_hamal verbs memory polls d task_id a b node_id buffer_receive size qp registered r
      f c sends back receives apart apart' far ready =
    let (r1, f1, run, c1, same, sent) =
      outbound_hamal_delivers verbs memory polls d task_id a node_id buffer_receive size qp
        registered r f c sends receives apart far ready in
    let (r2, f2, run', _, _, got) =
      inbound_hamal_delivers verbs memory polls d task_id b node_id buffer_receive size qp
        registered r1 f1 c1 back receives
        (subst (λ t. (b + size ≤ t) ⊎ (t + send_pool_size ≤ b)) (sym same) apart') far sent.ready in
    (r2, f2, rw (run, ◌>>=◌) run', λ j h. got.inside j h ∙ sent.inside j h)
