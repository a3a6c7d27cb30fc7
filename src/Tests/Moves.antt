-- ===== src/Tests/Moves.antt =====
-- Transfers on a fabric with a memory at both ends.
use sponge_bob.Prelude.{
  ℕ, ◌+◌, ◌<◌, ◌≡◌, refl, true, [], List, ◌∷◌, arith, ◌==◌, if◌then◌else◌, ==_refl, inr, pos,
  negsuc,
}
use sponge_bob.Result.{ok, ◌>>=◌}
use sponge_bob.Rdma.Types.{
  RdmaSocket, Sge, SendWr, Opcode, rdma_read, rdma_write, Verbs, send_with_imm, rdma_write_with_imm,
  fetch_and_add, cmp_and_swp,
}
use sponge_bob.Containers.Table
use sponge_bob.Rdma.Poll.{poll_completion}
use sponge_bob.Rdma.Poll.Ends.{found, poll_completion-Polls}
use sponge_bob.Rdma.Memory.{Memory, Delivers, copied}
use sponge_bob.Rdma.Hamal.{inbound_hamal, outbound_hamal, send_pool_addr}
use sponge_bob.Rdma.Hamal.Received.{Connected, Received, Sent}
use sponge_bob.Rdma.Hamal.Inbound.{inbound_hamal_delivers}
use sponge_bob.Rdma.Hamal.Outbound.{outbound_hamal_delivers}
use sponge_bob.Rdma.Hamal.RoundTrip.{outbound_inbound_hamal}
use sponge_bob.Tests.Transfers.{socket}

-- The bytes of this node, and those of the nodes at the other ends of the queue pairs.
record Bytes : Type 0 where
  near : ℕ → ℕ
  far : ℕ → ℕ → ℕ

abbrev done : ℕ → Opcode → Sge → Bytes → Bytes
done qp (rdma_read addr rkey) sge f = record f {
  near = copied (λ j. f.far qp (addr + j)) sge.addr sge.length f.near;
}
done qp (rdma_write addr rkey) sge f = record f {
  far = λ q a.
      if qp == q
      then copied (λ j. f.near (sge.addr + j)) addr sge.length (f.far q) a
      else f.far q a;
}
done qp (send_with_imm imm) sge f = f
done qp (rdma_write_with_imm addr rkey imm) sge f = f
done qp (fetch_and_add addr rkey n) sge f = f
done qp (cmp_and_swp addr rkey n m) sge f = f

abbrev all_done : ℕ → List SendWr → Bytes → Bytes
all_done qp [] f = f
all_done qp (wr ∷ wrs) f = all_done qp wrs (done qp wr.opcode wr.sge f)

abbrev direct : Verbs Bytes
direct = record {
  post_send = λ qp wrs f. (true, all_done qp wrs f);
  post_recv = λ qp sges f. (true, f);
  poll_cq = λ cq n f. (pos 1, true, f);
  memcpy = λ to from n f. record f { near = copied (λ j. f.near (from + j)) to n f.near };
  time_of_day = λ f. (0, f);
}

abbrev memory : Memory Bytes
memory = record {
  local = λ a f. f.near a;
  remote = λ q a f. f.far q a;
  cq_of = λ qp. 0;
  local_key = 6;
  local_start = 4096;
  local_size = 4194304;
  remote_key = λ q. 5;
  remote_start = λ q. 1048576;
  remote_size = λ q. 4194304;
  idle = λ q f. true;
}

direct-Delivers : Delivers direct memory 1
direct-Delivers = record {
  reads = λ qp sge addr rkey f allowed. (
    done qp (rdma_read addr rkey) sge f,
    refl,
    record {
      posted = _;
      waits = 0;
      more = 0;
      post = refl;
      soon = omega arith;
      polled = found refl;
    },
    λ a. refl,
    λ q a. refl,
  );
  writes = λ qp sge addr rkey f allowed. (
    done qp (rdma_write addr rkey) sge f,
    refl,
    record {
      posted = _;
      waits = 0;
      more = 0;
      post = refl;
      soon = omega arith;
      polled = found refl;
    },
    λ a. rw (==_refl qp) refl,
    λ a. refl,
  );
  copies = λ to from n f apart. (λ a. refl, λ q a. refl, λ q. refl);
  clock = λ f. (λ a. refl, λ q a. refl, λ q. refl);
}

socket-Connected : Connected memory socket 1 1 12 1048576
unfolding Table.find
socket-Connected = record {
  peer = _;
  known = refl;
  pair = refl;
  queue = refl;
  base = refl;
  remote_start = refl;
  lkey = refl;
  rkey = refl;
  pool_from = omega arith;
  pool_to = omega arith;
  reads = omega arith;
  read_costs = omega arith;
  writes = omega arith;
  write_costs = omega arith;
  untested = refl;
}

-- Byte `a` of this node is `a`, and the other node has zeros.
abbrev before : Bytes
before = record { near = λ a. a; far = λ q a. 0 }

inbound_hamal_delivers_example :
    (r' : RdmaSocket) × (f' : Bytes) × (inbound_hamal direct 1 1 8000000 1 200 3000000 socket before
      ≡ ok (r', f'))
    × Connected memory r' 1 1 12 1048576
    × (send_pool_addr 1 r' ≡ send_pool_addr 1 socket)
    × Received memory 12 (send_pool_addr 1 socket) (200 + 1048576) 8000000 3000000 before f'
inbound_hamal_delivers_example =
    inbound_hamal_delivers direct memory 1 direct-Delivers 1 8000000 1 200 3000000 12 1048576 socket
      before socket-Connected (omega arith) (omega arith) (inr (omega arith)) (omega arith) refl

outbound_hamal_delivers_example :
    (r' : RdmaSocket) × (f' : Bytes) × (outbound_hamal direct 1 1 8000000 1 200 3000000 socket
        before
      ≡ ok (r', f'))
    × Connected memory r' 1 1 12 1048576
    × (send_pool_addr 1 r' ≡ send_pool_addr 1 socket)
    × Sent memory 12 (send_pool_addr 1 socket) 8000000 (200 + 1048576) 3000000 before f'
outbound_hamal_delivers_example =
    outbound_hamal_delivers direct memory 1 direct-Delivers 1 8000000 1 200 3000000 12 1048576
      socket before socket-Connected (omega arith) (omega arith) (inr (omega arith)) (omega arith)
      refl

outbound_inbound_hamal_example :
    (r' : RdmaSocket) × (f' : Bytes) × ((outbound_hamal direct 1 1 8000000 1 200 3000000 socket
          before
        >>= λ p. inbound_hamal direct 1 1 16000000 1 200 3000000 p.0 p.1)
      ≡ ok (r', f'))
    × ((j : ℕ) → j < 3000000 → memory.local (16000000 + j) f' ≡ memory.local (8000000 + j) before)
outbound_inbound_hamal_example =
    outbound_inbound_hamal direct memory 1 direct-Delivers 1 8000000 16000000 1 200 3000000 12
      1048576 socket before socket-Connected (omega arith) (omega arith) (omega arith)
      (inr (omega arith)) (inr (omega arith)) (omega arith) refl

poll_completion-Polls_example :
    poll_completion direct 1 1 1 socket before ≡ ok ((if true then pos 1 else negsuc 0), before)
poll_completion-Polls_example =
    poll_completion-Polls direct 1 0 0 1 true socket before before socket-Connected.peer
      socket-Connected.known (omega arith) (found refl)
