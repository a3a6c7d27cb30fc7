-- ===== src/Rdma/Hamal/Inbound.antt =====
-- What `InboundHamal` leaves in memory.
use sponge_bob.Prelude.{
  ℕ, zero, suc, ◌+◌, ◌*◌, ◌/◌, ◌%◌, ◌≤◌, ◌<◌, ◌≡◌, refl, subst, sym, ◌∙◌, true, arith, u64_mod, ◌⊎◌,
}
use sponge_bob.Result.{ok, ◌>>=◌}
use sponge_bob.Rdma.Types.{RdmaSocket, Verbs}
use sponge_bob.Rdma.Hamal.Received.{
  Connected, Received, Received-empty, Received-append, signalled-Connected, last_piece,
  still_apart, first_apart, last_apart,
}
use sponge_bob.Rdma.Memory.{Memory, Delivers}
use sponge_bob.Rdma.Hamal.{inbound_round, inbound_hamal, send_pool_addr, signalled, send_pool_size}
use sponge_bob.Rdma.Hamal.Rounds.{pieces, pieces_last, run_pieces, hamal_rounds}
use sponge_bob.Rdma.Hamal.InboundRound.{round_run}

module _ {F : Type 0} (verbs : Verbs F) (memory : Memory F) (polls : ℕ) where
  pieces_run :
      (d : Delivers verbs memory polls)
      (task_id buffer_send node_id buffer_receive qp registered : ℕ) (n rest total : ℕ)
      (r : RdmaSocket) (f : F)
      → Connected memory r task_id node_id qp registered
      → rest < send_pool_size
      → buffer_send + total + (n * send_pool_size + rest) < u64_mod
      → buffer_receive + total + (n * send_pool_size + rest) + registered < u64_mod
      → (buffer_send + total + (n * send_pool_size + rest) ≤ send_pool_addr task_id r)
        ⊎ (send_pool_addr task_id r + send_pool_size ≤ buffer_send + total)
      → buffer_receive + total + (n * send_pool_size + rest) ≤ memory.remote_size qp
      → memory.idle qp f ≡ true
      → (r' : RdmaSocket) × (f' : F) × (run_pieces
            (inbound_round verbs polls task_id buffer_send node_id buffer_receive)
            (pieces n total rest)
            r
            f
          ≡ ok (r', f'))
        × Connected memory r' task_id node_id qp registered
        × (send_pool_addr task_id r' ≡ send_pool_addr task_id r)
        × Received memory qp
            (send_pool_addr task_id r)
            (buffer_receive + total + registered)
            (buffer_send + total)
            (n * send_pool_size + rest)
            f
            f'
  pieces_run d task_id buffer_send node_id buffer_receive qp registered zero zero total r f c small
        sends receives apart far ready =
      (
        signalled r,
        f,
        refl,
        signalled-Connected memory r task_id node_id qp registered c,
        refl,
        Received-empty memory qp (send_pool_addr task_id r) _ _ f ready,
      )
  pieces_run d task_id buffer_send node_id buffer_receive qp registered zero (suc rest) total r f c
        small sends receives apart far ready =
      let (r', f', run, c', same, got) =
        round_run verbs memory polls d task_id buffer_send node_id buffer_receive total (suc rest)
          qp registered r f c (omega (arith, small)) (omega (arith, sends))
          (omega (arith, receives)) (omega (arith, far))
          (last_apart (buffer_send + total) (suc rest) (send_pool_addr task_id r) apart) ready in
      (
        signalled r',
        f',
        rw (pieces_last total rest) (rw (run, ◌>>=◌) refl),
        signalled-Connected memory r' task_id node_id qp registered c',
        same,
        subst
            (λ t.
              Received memory qp (send_pool_addr task_id r) (buffer_receive + total + registered)
                (buffer_send + total) t f f')
            (last_piece rest) got,
      )
  pieces_run d task_id buffer_send node_id buffer_receive qp registered (suc n) rest total r f c
        small sends receives apart far ready =
      let pool = send_pool_addr task_id r in
      let left = n * send_pool_size + rest in
      let (r', f', run, c', same, got) =
        round_run verbs memory polls d task_id buffer_send node_id buffer_receive total
          send_pool_size qp registered r f c (omega arith) (omega (arith, sends))
          (omega (arith, receives)) (omega (arith, far))
          (first_apart (buffer_send + total) n rest (send_pool_addr task_id r) apart) ready in
      let (r'', f'', more, c'', same', got') =
        pieces_run d task_id buffer_send node_id buffer_receive qp registered n rest
          (total + send_pool_size) r' f' c' small (omega (arith, sends)) (omega (arith, receives))
          (subst
            (λ t.
              (buffer_send + (total + send_pool_size) + left ≤ t)
              ⊎ (t + send_pool_size ≤ buffer_send + (total + send_pool_size)))
            (sym same) (still_apart buffer_send total n rest (send_pool_addr task_id r) apart))
          (omega (arith, far)) got.ready in
      let to : buffer_send + (total + send_pool_size) ≡ buffer_send + total + send_pool_size =
        omega arith in
      let from : buffer_receive + (total + send_pool_size) + registered
          ≡ buffer_receive + total + registered + send_pool_size =
        omega arith in
      let all : send_pool_size + left ≡ suc n * send_pool_size + rest = omega arith in
      (
        r'',
        f'',
        rw (run, ◌>>=◌) more,
        c'',
        same' ∙ same,
        subst
            (λ t.
              Received memory qp pool (buffer_receive + total + registered) (buffer_send + total) t
                f f'')
            all
            (Received-append memory qp pool (buffer_receive + total + registered)
              (buffer_send + total) send_pool_size left f f' f''
              (first_apart (buffer_send + total) n rest (send_pool_addr task_id r) apart) got
              (subst
                (λ t.
                  Received memory qp pool (buffer_receive + total + registered + send_pool_size) t
                    left f' f'')
                to
                (subst
                  (λ t.
                    Received memory qp pool t (buffer_send + (total + send_pool_size)) left f' f'')
                  from
                  (subst
                    (λ t.
                      Received memory qp t (buffer_receive + (total + send_pool_size) + registered)
                        (buffer_send + (total + send_pool_size)) left f' f'')
                    same got')))),
      )

  -- On a fabric that carries out the requests that the documentation allows, within the polls allowed,
  -- `InboundHamal` of a connected task brings in `size` bytes: it succeeds, the bytes at `buffer_send`
  -- are those that the other node had at `buffer_receive` in its registered memory, no other byte of
  -- this node changes outside the pool of the task and none of the other nodes, and the task is still
  -- connected, with the same pool and an idle queue pair. The task's queue pair is idle, the bytes of
  -- the other node lie in the memory that it registered, the ends of both buffers are below 2 ^ 64, and
  -- the bytes at `buffer_send` lie outside the pool.
  pub inbound_hamal_delivers :
      (d : Delivers verbs memory polls)
      (task_id buffer_send node_id buffer_receive size qp registered : ℕ) (r : RdmaSocket) (f : F)
      → Connected memory r task_id node_id qp registered
      → buffer_send + size < u64_mod
      → buffer_receive + size + registered < u64_mod
      → (buffer_send + size ≤ send_pool_addr task_id r)
        ⊎ (send_pool_addr task_id r + send_pool_size ≤ buffer_send)
      → buffer_receive + size ≤ memory.remote_size qp
      → memory.idle qp f ≡ true
      → (r' : RdmaSocket) × (f' : F) × (inbound_hamal verbs polls task_id buffer_send node_id
            buffer_receive size r f
          ≡ ok (r', f'))
        × Connected memory r' task_id node_id qp registered
        × (send_pool_addr task_id r' ≡ send_pool_addr task_id r)
        × Received memory qp
            (send_pool_addr task_id r)
            (buffer_receive + registered)
            buffer_send
            size
            f
            f'
  inbound_hamal_delivers d task_id buffer_send node_id buffer_receive size qp registered r f c sends
        receives apart far ready =
      let n = size / send_pool_size in
      let rest = size % send_pool_size in
      let all : n * send_pool_size + rest ≡ size = omega arith in
      let to : buffer_send + 0 ≡ buffer_send = omega arith in
      let from : buffer_receive + 0 + registered ≡ buffer_receive + registered = omega arith in
      let whole : buffer_send + size ≡ buffer_send + 0 + (n * send_pool_size + rest) =
        omega arith in
      let (r', f', run, c', same, got) =
        pieces_run d task_id buffer_send node_id buffer_receive qp registered n rest 0 r f c
          (omega arith) (omega (arith, sends)) (omega (arith, receives))
          (subst
            (λ t.
              (t ≤ send_pool_addr task_id r)
              ⊎ (send_pool_addr task_id r + send_pool_size ≤ buffer_send + 0))
            whole
            (subst
              (λ t.
                (buffer_send + size ≤ send_pool_addr task_id r)
                ⊎ (send_pool_addr task_id r + send_pool_size ≤ t))
              (sym to) apart))
          (omega (arith, far)) ready in
      (
        r',
        f',
        (hamal_rounds verbs polls task_id buffer_send node_id buffer_receive size r f
              (omega (arith, sends))).0
            ∙ run,
        c',
        same,
        subst (λ t. Received memory qp (send_pool_addr task_id r) t buffer_send size f f') from
            (subst
              (λ t.
                Received memory qp (send_pool_addr task_id r) (buffer_receive + 0 + registered) t
                  size f f')
              to
              (subst
                (λ t.
                  Received memory qp (send_pool_addr task_id r) (buffer_receive + 0 + registered)
                    (buffer_send + 0) t f f')
                all got)),
      )
