-- ===== src/Tests/Transfers.antt =====
-- Transfers: the pieces of a file's range, and the socket's rounds and shares.
use sponge_bob.Prelude.{ℕ, ◌+◌, ◌%◌, ◌≡◌, true, false, [], ◌∷◌, ◌++◌, arith}
use sponge_bob.Result.{ok}
use sponge_bob.Inode.{Inode}
use sponge_bob.MetaServer.Transfer.{write_blocks}
use sponge_bob.MetaServer.Transfer.Total.{InBlocks, Runs, runs_total}
use sponge_bob.MetaServer.Transfer.Rewritten.{Rewritten, write_blocks_run}
use sponge_bob.Queue.{new_queue}
use sponge_bob.Rdma.Types.{RdmaSocket, TransferTask, Verbs, pos, worker_number}
use sponge_bob.Rdma.Remote.{shares}
use sponge_bob.Rdma.Remote.Shares.{shares_covered}
use sponge_bob.Tests.Fixture.{file_a, file_a-Sound}

range_a : InBlocks file_a.block_info_list 2 10
range_a = record { bounded = omega arith; covered = omega arith }

runs_a : Runs file_a 2 10
runs_a = runs_total file_a 2 10 file_a-Sound.addresses range_a

write_blocks_run_example :
    (i' : Inode) × (write_blocks file_a 2 10
      ≡ ok (runs_a.first ++ (runs_a.full ++ runs_a.last), 0, i'))
    × Rewritten file_a i'
write_blocks_run_example = write_blocks_run file_a 2 10 runs_a

-- A fabric on which everything succeeds at once, with a counter of its calls.
abbrev pub calm : Verbs ℕ
calm = record {
  post_send = λ qp wrs n. (true, n + 1);
  post_recv = λ qp sges n. (true, n + 1);
  poll_cq = λ cq k n. (pos 1, true, n + 1);
  memcpy = λ to from len n. n + 1;
  time_of_day = λ n. (n, n);
}

abbrev pub socket : RdmaSocket
socket = record {
  peers =
      (
        1,
        record {
          qp = 10 ∷ 11 ∷ 12 ∷ [];
          cq = 0;
          qp_num = 20 ∷ 21 ∷ 22 ∷ [];
          registered_memory = 1048576;
          rkey = 5;
          lid = 0;
          gid = [];
          sock = 3;
          node_id = 1;
          counter = 0;
        },
      )
      ∷ [];
  is_server = false;
  cq = 0 ∷ [];
  cq_num = 1;
  cq_ptr = 0;
  mm = 4096;
  lkey = 6;
  rkey = 7;
  conf = record {
    id2ip = [];
    ip2id = [];
    server_count = 1;
    metaip = "";
    rdma_port = 1;
    rdma_tcp_port = 56789;
  };
  my_node_id = 2;
  max_node_id = 2;
  mode = 0;
  port = 1;
  gid_index = pos 0;
  lid = 0;
  server_port = 56789;
  server_count = 1;
  is_running = true;
  queue = new_queue ∷ new_queue ∷ [];
  transfer_signal = 0;
  write_size = 0 ∷ 0 ∷ [];
  read_size = 0 ∷ 0 ∷ [];
  write_time_cost = 0 ∷ 0 ∷ [];
  read_time_cost = 0 ∷ 0 ∷ [];
  write_test = false;
}

shares_covered_example :
    (first second : TransferTask) × (shares false 100 1 200 5000000 worker_number 0
      ≡ first ∷ second ∷ [])
    × (first.buffer_send ≡ 100)
    × (first.buffer_receive ≡ 200)
    × (second.buffer_send ≡ 100 + first.size)
    × (second.buffer_receive ≡ 200 + first.size)
    × (first.size + second.size + 5000000 % 8192 ≡ 5000000)
shares_covered_example =
    shares_covered false 100 1 200 5000000 (omega arith) (omega arith) (omega arith) (omega arith)
