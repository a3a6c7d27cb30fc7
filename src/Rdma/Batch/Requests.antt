-- ===== src/Rdma/Batch/Requests.antt =====
-- The list of requests that a batch posts.
use sponge_bob.Prelude.{
  ℕ, zero, suc, ◌+◌, ◌*◌, ◌≤◌, ◌<◌, ◌≡◌, refl, ap, ◌∙◌, true, false, some, List, [], ◌∷◌, arith,
  length, get_elem?, add64, ltb, if◌then◌else◌, u64_mod, ◌&&◌, not, ◌==◌,
}
use sponge_bob.Result.{ok, ◌>>=◌, or_fault}
use sponge_bob.Containers.Table
use sponge_bob.Rdma.Types.{
  RdmaSocket, PeerSockData, Sge, SendWr, Opcode, Verbs, rdma_write, rdma_write_with_imm,
}
use sponge_bob.Rdma.Post.{sge_of}
use sponge_bob.Rdma.Batch.{is_signal, batch_loop, rdma_batch_write}

-- The requests of the rounds from `w_i` on: the one for `counter` is signalled if `counter` says so.
pub record Requests (make : ℕ → Sge × Opcode) (w_i n counter : ℕ) (wrs : List SendWr) : Type 0 where
  pub many : length wrs ≡ n
  pub at :
      (i : ℕ)
      → i < n
      → get_elem? wrs i
        ≡ some (record {
          sge = (make (w_i + i)).0;
          opcode = (make (w_i + i)).1;
          signaled = is_signal (counter + i);
        })

more-Requests :
    (make : ℕ → Sge × Opcode) (w_i n counter : ℕ) (wrs : List SendWr)
    → Requests make (w_i + 1) n (counter + 1) wrs
    → Requests make w_i
        (suc n)
        counter
        (record { sge = (make w_i).0; opcode = (make w_i).1; signaled = is_signal counter } ∷ wrs)
more-Requests make w_i n counter wrs h = record { many = omega (arith, h.many); at = at }
  where
    at :
        (i : ℕ)
        → i < suc n
        → get_elem?
            (record { sge = (make w_i).0; opcode = (make w_i).1; signaled = is_signal counter }
              ∷ wrs)
            i
          ≡ some (record {
            sge = (make (w_i + i)).0;
            opcode = (make (w_i + i)).1;
            signaled = is_signal (counter + i);
          })
    at zero l =
        let e : w_i ≡ w_i + 0 = omega arith in
        let e' : counter ≡ counter + 0 = omega arith in
        ap
          (λ (p : ℕ × ℕ).
            some (record { sge = (make p.0).0; opcode = (make p.0).1; signaled = is_signal p.1 }))
          (λ j. (e j, e' j))
    at (suc i) l =
        let e : w_i + 1 + i ≡ w_i + suc i = omega arith in
        let e' : counter + 1 + i ≡ counter + suc i = omega arith in
        h.at i (omega arith)
        ∙ ap
            (λ (p : ℕ × ℕ).
              some (record { sge = (make p.0).0; opcode = (make p.0).1; signaled = is_signal p.1 }))
            (λ j. (e j, e' j))

module _ {F : Type 0} (verbs : Verbs F) (fuel node_id : ℕ) (r : RdmaSocket) where
  loop_more :
      (make : ℕ → Sge × Opcode) (n w_i counter next counter' : ℕ) (wrs : List SendWr) (f : F)
      → r.is_server ≡ true
      → w_i < 24
      → add64 counter 1 ≡ next
      → batch_loop verbs fuel node_id make n (w_i + 1) next r f ≡ ok (wrs, counter', f)
      → batch_loop verbs fuel node_id make (suc n) w_i counter r f
        ≡ ok (
          record { sge = (make w_i).0; opcode = (make w_i).1; signaled = is_signal counter } ∷ wrs,
          counter',
          f,
        )
  unfolding batch_loop
  loop_more make n w_i counter next counter' wrs f s h e rest =
      let quiet : (is_signal counter && ltb 0 counter && not r.is_server) ≡ false =
        ground (arith, s) in
      let room : ltb w_i 24 ≡ true = ground (arith, h) in
      rw (quiet, batch_loop) (rw e (rw rest (rw room refl)))

  server_loop :
      (make : ℕ → Sge × Opcode) (n w_i counter : ℕ) (f : F)
      → r.is_server ≡ true
      → w_i + n ≤ 24
      → counter + n < u64_mod
      → (wrs : List SendWr) × (batch_loop verbs fuel node_id make n w_i counter r f
          ≡ ok (wrs, counter + n, f))
        × Requests make w_i n counter wrs
  unfolding batch_loop
  server_loop make zero w_i counter f s h b =
      let same : counter ≡ counter + 0 = omega arith in
      ([], ap (λ t. ok ([], t, f)) same, record { many = refl; at = λ i l. absurd (omega arith) })
  server_loop make (suc n) w_i counter f s h b =
      let (wrs, run, requests) =
        server_loop make n (w_i + 1) (counter + 1) f s (omega (arith, h)) (omega (arith, b)) in
      let next : add64 counter 1 ≡ counter + 1 = omega (arith, b) in
      let last : counter + 1 + n ≡ counter + suc n = omega arith in
      (
        record { sge = (make w_i).0; opcode = (make w_i).1; signaled = is_signal counter } ∷ wrs,
        loop_more make n w_i counter (counter + 1) (counter + suc n) wrs f s (omega (arith, h)) next
            (run ∙ ap (λ t. ok (wrs, t, f)) last),
        more-Requests make w_i n counter wrs requests,
      )

  -- The request for one page.
  abbrev pub page_of : ℕ → ℕ → ℕ → ℕ → PeerSockData → ℕ → Sge × Opcode
  page_of source_buffer des_buffer buffer_size imm peer w_i = (
    sge_of r (add64 source_buffer (w_i * 4096)) buffer_size,
    (if imm == 0
        then rdma_write (add64 (add64 des_buffer peer.registered_memory) (w_i * 4096)) peer.rkey
        else rdma_write_with_imm (add64 (add64 des_buffer peer.registered_memory) (w_i * 4096))
            peer.rkey imm),
  )

  -- A server writes a batch of 1 to 24 pages to a node that it knows, while the counter is below 2 ^
  -- 64: the one call of `ibv_post_send` gets the requests in order, request `i` from page `i` of the
  -- source to page `i` of the destination, a plain write for the immediate value 0 and one with the
  -- immediate value for every other, signalled where the count of requests before it says so;
  -- the result is that of the call, and the counter of the node is greater by the number of requests.
  pub rdma_batch_write_server :
      (source_buffer des_buffer buffer_size imm batch_size qp : ℕ) (peer : PeerSockData) (f : F)
      → r.is_server ≡ true
      → Table.find node_id r.peers ≡ some peer
      → get_elem? peer.qp 0 ≡ some qp
      → 0 < batch_size
      → batch_size ≤ 24
      → peer.counter + batch_size < u64_mod
      → (wrs : List SendWr) × (rdma_batch_write verbs fuel node_id source_buffer des_buffer
            buffer_size imm batch_size r f
          ≡ ok (
            (verbs.post_send qp wrs f).0,
            record r {
              peers =
                  Table.assign node_id
                    (record peer { counter = peer.counter + batch_size })
                    r.peers;
            },
            (verbs.post_send qp wrs f).1,
          ))
        × Requests
            (page_of source_buffer des_buffer buffer_size imm peer)
            0
            batch_size
            peer.counter
            wrs
  unfolding rdma_batch_write
  rdma_batch_write_server source_buffer des_buffer buffer_size imm batch_size qp peer f s known pair
        some_ most fits =
      let (wrs, run, requests) =
        server_loop (page_of source_buffer des_buffer buffer_size imm peer) batch_size 0
          peer.counter f s (omega arith) fits in
      let t : (batch_size == 0) ≡ false = ground (arith, some_) in
      (wrs, rw (known, or_fault) (rw (run, ◌>>=◌) (rw t (rw (pair, or_fault) refl))), requests)
