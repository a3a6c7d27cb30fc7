-- ===== src/Tests/Joins.antt =====
-- Queue pairs, batches, and a client that joins server 1.
use sponge_bob.Prelude.{
  below, ℤ, ℕ, zero, suc, ◌+◌, ◌*◌, ◌/◌, ◌%◌, ◌++◌, not, ◌<◌, ◌≤◌, ◌≡◌, ◌≢◌, refl, true, false,
  none, some, List, [], ◌∷◌, arith, length, ◌==◌, ==_refl, if◌then◌else◌, pos, Bool-cases, inl, inr,
}
use sponge_bob.Result.{ok}
use sponge_bob.Containers.Table
use sponge_bob.Rdma.Types.{RdmaSocket, PeerSockData, SendWr}
use sponge_bob.Rdma.Batch.{rdma_batch_write}
use sponge_bob.Rdma.Batch.Requests.{Requests, page_of, rdma_batch_write_server}
use sponge_bob.Rdma.Post.{rdma_receive}
use sponge_bob.Rdma.Connect.Types.{ExchangeId, ExchangeMeta, Layout, bytes, Net, QpAttr}
use sponge_bob.Rdma.Connect.Pairs.{zero_attr, choose_cq, create_queue_pair, ready_pair}
use sponge_bob.Rdma.Connect.Pairs.Queues.{Pointed, choose_cq-Pointed}
use sponge_bob.Rdma.Connect.Pairs.Ready.{Device, changed}
use sponge_bob.Rdma.Connect.Sync.{data_sync, read_loop, overwrite, drop}
use sponge_bob.Rdma.Connect.Exchange.{Locals, connect_queue_pair}
use sponge_bob.Rdma.Connect.Accept.{rdma_accept}
use sponge_bob.Rdma.Connect.Accept.Numbered.{Numbered}
use sponge_bob.Rdma.Connect.Accept.Joins.{Honest}
use sponge_bob.Rdma.Connect.Accept.Served.{Answers, Serving, rdma_accept_total}
use sponge_bob.Tests.Transfers.{calm, socket}

abbrev blank : PeerSockData
blank = record {
  qp = 0 ∷ 0 ∷ 0 ∷ [];
  cq = 0;
  qp_num = 0 ∷ 0 ∷ 0 ∷ [];
  registered_memory = 0;
  rkey = 0;
  lid = 0;
  gid = [];
  sock = 0;
  node_id = 0;
  counter = 0;
}

-- Server 1 of two, before anybody joins.
abbrev server : RdmaSocket
server = record socket {
  peers = [];
  is_server = true;
  cq = 20 ∷ 21 ∷ [];
  cq_num = 2;
  cq_ptr = 0;
  conf = record {
    id2ip = [];
    ip2id = [];
    server_count = 2;
    metaip = "";
    rdma_port = 1;
    rdma_tcp_port = 56789;
  };
  my_node_id = 1;
  max_node_id = 3;
  server_count = 2;
}

server-Pointed : Pointed server
server-Pointed = record {
  queues = refl;
  some_queue = omega arith;
  room = λ e. omega arith;
  inside = omega arith;
}

abbrev no_offset : ℕ
no_offset = 0

abbrev client_peer : PeerSockData
client_peer = record blank { node_id = 3 }

choose_cq-Pointed_example :
    ((choose_cq client_peer no_offset server).0 < length server.cq)
    × Pointed (choose_cq client_peer no_offset server).1
    × (server.is_server ≡ true
        → 0 < client_peer.node_id
        → client_peer.node_id ≤ server.server_count
        → (choose_cq client_peer no_offset server).0 ≡ 0)
    × (server.is_server ≡ true
        → server.server_count < client_peer.node_id
        → (no_offset ≡ 0 → 0 < (choose_cq client_peer no_offset server).0)
          × ((later : ℕ)
              → 0 < later
              → (choose_cq client_peer later (choose_cq client_peer no_offset server).1).0
                ≡ (choose_cq client_peer no_offset server).0))
choose_cq-Pointed_example = choose_cq-Pointed client_peer no_offset server server-Pointed

-- A device whose queue pairs have the attributes that they were given.
record Pairs : Type 0 where
  attrs_of : ℕ → QpAttr

abbrev changes : Net Pairs
changes = record {
  create_qp = λ attr f. (some 0, f);
  qp_num = λ qp f. qp;
  modify_qp = λ qp attr masks f. (
    true,
    record { attrs_of = λ q. if qp == q then changed attr masks (f.attrs_of qp) else f.attrs_of q },
  );
  query_gid = λ port index f. (some [], f);
  write = λ sock bs f. (pos (length bs), f);
  read = λ sock n f. (bytes [], f);
  socket = λ f. (none, f);
  connect = λ sock ip port f. (false, f);
  accept = λ sock f. (none, f);
}

differs : (qp q : ℕ) → q ≢ qp → (qp == q) ≡ false
differs qp q h = elim (Bool-cases (qp == q)) [ inl e ↦ absurd (h (ground (arith, e))) | inr e ↦ e ]

changes-Device : Device changes 0
changes-Device = record {
  port = 1;
  pkeys = 1;
  rd_atomic = 16;
  attrs = λ qp f. f.attrs_of qp;
  modifies = λ qp attr masks f h n fits.
      (_, refl, rw (==_refl qp) refl, λ q ne. rw (differs qp q ne) refl);
}

abbrev all_reset : Pairs
all_reset = record { attrs_of = λ q. zero_attr }

-- A server that knows a client writes two pages to it.
abbrev writer : RdmaSocket
writer = record server {
  peers = (3, record client_peer { qp = 31 ∷ 32 ∷ 33 ∷ []; counter = 31 }) ∷ [];
}

abbrev writer_peer : PeerSockData
writer_peer = record client_peer { qp = 31 ∷ 32 ∷ 33 ∷ []; counter = 31 }

writer_known : Table.find 3 writer.peers ≡ some writer_peer
unfolding Table.find
writer_known = refl

rdma_batch_write_server_example :
    (wrs : List SendWr) × (rdma_batch_write calm 1 3 4096 0 4096 0 2 writer 0
      ≡ ok (
        (calm.post_send 31 wrs 0).0,
        record writer {
          peers = Table.assign 3 (record writer_peer { counter = 31 + 2 }) writer.peers;
        },
        (calm.post_send 31 wrs 0).1,
      ))
    × Requests (page_of calm 1 3 writer 4096 0 4096 0 writer_peer) 0 2 31 wrs
rdma_batch_write_server_example =
    rdma_batch_write_server calm 1 3 writer 4096 0 4096 0 2 31 writer_peer 0 refl writer_known refl
      (omega arith) (omega arith) (omega arith)

-- The `w` bytes of a number, the lowest first, and the number of some bytes.
abbrev little : ℕ → ℕ → List ℕ
little zero n = []
little (suc w) n = n % 256 ∷ little w (n / 256)

abbrev value : List ℕ → ℕ
value [] = 0
value (b ∷ bs) = b + 256 * value bs

abbrev first_bytes : ℕ → List ℕ → List ℕ
first_bytes zero bs = []
first_bytes (suc n) [] = []
first_bytes (suc n) (b ∷ bs) = b ∷ first_bytes n bs

abbrev member : ℕ → ℕ → List ℕ → ℕ
member from width bs = value (first_bytes width (drop from bs))

abbrev little_all : ℕ → List ℕ → List ℕ
little_all w [] = []
little_all w (n ∷ ns) = little w n ++ little_all w ns

-- The structs as a compiler for a 64-bit machine lays them out, the padding being zero.
abbrev ids : Layout ExchangeId
ids = record {
  size = 6;
  to_bytes = λ i. little 2 i.node_id ++ ((if i.is_server then 1 else 0) ∷ 0 ∷ little 2 i.given_id);
  of_bytes = λ bs. record {
    node_id = member 0 2 bs;
    is_server = not (member 2 1 bs == 0);
    given_id = member 4 2 bs;
  };
}

abbrev metas : Layout ExchangeMeta
metas = record {
  size = 56;
  to_bytes = λ m.
      little 4 m.rkey
      ++ (little_all 4 m.qp_num
          ++ (little 2 m.lid
              ++ (m.gid
                  ++ (little 6 0
                      ++ (little 8 m.registered_memory ++ (little 2 m.node_id ++ little 6 0))))));
  of_bytes = λ bs. record {
    rkey = member 0 4 bs;
    qp_num = member 4 4 bs ∷ member 8 4 bs ∷ member 12 4 bs ∷ [];
    lid = member 16 2 bs;
    gid = first_bytes 16 (drop 18 bs);
    registered_memory = member 40 8 bs;
    node_id = member 48 2 bs;
  };
}

-- What the client sends.
abbrev client_meta : ExchangeMeta
client_meta = record {
  rkey = 5;
  qp_num = 41 ∷ 42 ∷ 43 ∷ [];
  lid = 6;
  gid = little 16 0;
  registered_memory = 4096;
  node_id = 0;
}

-- One client comes, with the queue pairs 41, 42 and 43.
abbrev one_client : Net ℕ
one_client = record {
  create_qp = λ attr f. (some (f + 30), f + 1);
  qp_num = λ qp f. qp;
  modify_qp = λ qp attr masks f. (true, f + 1);
  query_gid = λ port index f. (some (little 16 0), f + 1);
  write = λ sock bs f. (pos (length bs), f + 1);
  read = λ sock n f.
      ((if n == 6 then bytes (little 6 0) else bytes (metas.to_bytes client_meta)), f + 1);
  socket = λ f. (none, f);
  connect = λ sock ip port f. (false, f);
  accept = λ sock f. ((if f == 0 then some 9 else none), f + 1);
}

abbrev no_locals : ℕ → Locals
no_locals f = record {
  remote_id = little 6 0;
  local_meta = record {
    rkey = 0;
    qp_num = 0 ∷ 0 ∷ 0 ∷ [];
    lid = 0;
    gid = little 16 0;
    registered_memory = 0;
    node_id = 0;
  };
  remote_meta = little 56 0;
}

abbrev joined : RdmaSocket
joined = record server {
  cq_ptr = 1;
  max_node_id = 4;
  peers =
      (
        3,
        record {
          qp = 33 ∷ 34 ∷ 35 ∷ [];
          cq = 21;
          qp_num = 41 ∷ 42 ∷ 43 ∷ [];
          registered_memory = 4096;
          rkey = 5;
          lid = 6;
          gid = little 16 0;
          sock = 9;
          node_id = 3;
          counter = 0;
        },
      )
      ∷ [];
}

server-Numbered : Numbered server
unfolding Table.find
server-Numbered = record {
  server = refl;
  first = refl;
  above = omega arith;
  below_next = λ k peer f. absurd (ground (arith, f));
}

-- A node that says that it is a client, whatever it is asked.
all_clients : Honest calm one_client ids metas 4 (λ f. blank) no_locals server.server_count
unfolding data_sync
all_clients = record {
  at = λ fd r f f' rc buffer e below_zero server. absurd (ground (arith, e, server));
}

-- Whatever it is sent, the client answers with its six bytes, and with the 56 of its memory.
known_loop :
    (n fd : ℕ) (held : List ℕ) (f : ℕ)
    → (rc : ℤ) × (buffer : List ℕ) × (f' : ℕ) × (read_loop one_client 4 fd 6 (pos n) 0 held f
        ≡ ok (rc, buffer, f'))
unfolding read_loop
known_loop zero fd held f = (pos 0, overwrite (little 6 0) held, f + 1, refl)
known_loop (suc n) fd held f = (pos (suc n), held, f, refl)

known_sync :
    (fd : ℕ) (sent held : List ℕ) (f : ℕ)
    → (rc : ℤ) × (buffer : List ℕ) × (f' : ℕ) × (data_sync one_client 4 fd 6 sent held f
        ≡ ok (rc, buffer, f'))
unfolding data_sync
known_sync fd sent held f = elim (Bool-cases (below (pos (length sent)) 6)) [
  | inl t ↦
      let (rc, buffer, f', run) = known_loop (length sent) fd held (f + 1) in
      (rc, buffer, f', rw t run)
  | inr t ↦ let (rc, buffer, f', run) = known_loop 0 fd held (f + 1) in (rc, buffer, f', rw t run)
]

synced_loop :
    (n fd : ℕ) (held : List ℕ) (f : ℕ)
    → (rc : ℤ) × (buffer : List ℕ) × (f' : ℕ) × (read_loop one_client 4 fd 56 (pos n) 0 held f
        ≡ ok (rc, buffer, f'))
unfolding read_loop
synced_loop zero fd held f = (pos 0, overwrite (metas.to_bytes client_meta) held, f + 1, refl)
synced_loop (suc n) fd held f = (pos (suc n), held, f, refl)

synced_sync :
    (fd : ℕ) (sent held : List ℕ) (f : ℕ)
    → (rc : ℤ) × (buffer : List ℕ) × (f' : ℕ) × (data_sync one_client 4 fd 56 sent held f
        ≡ ok (rc, buffer, f'))
unfolding data_sync
synced_sync fd sent held f = elim (Bool-cases (below (pos (length sent)) 56)) [
  | inl t ↦
      let (rc, buffer, f', run) = synced_loop (length sent) fd held (f + 1) in
      (rc, buffer, f', rw t run)
  | inr t ↦ let (rc, buffer, f', run) = synced_loop 0 fd held (f + 1) in (rc, buffer, f', rw t run)
]

answers : Answers calm one_client ids metas 4 (λ f. blank) no_locals
answers = record {
  created = λ attr f. (f + 30, refl);
  known = known_sync;
  synced = synced_sync;
  three = λ bs. refl;
  room = λ f. refl;
}

rdma_accept_total_example : Serving calm one_client ids metas 4 (λ f. blank) no_locals 2 3 server 0
rdma_accept_total_example =
    rdma_accept_total calm one_client ids metas 4 (λ f. blank) no_locals 2 3 server 0 answers
      server-Numbered server-Pointed (omega arith) all_clients

one_joins :
    rdma_accept calm one_client ids metas 4 (λ f. blank) no_locals 2 3 server 0 ≡ ok (joined, 147)
unfolding rdma_accept connect_queue_pair data_sync create_queue_pair ready_pair rdma_receive
    Table.find Table.assign
one_joins = refl
