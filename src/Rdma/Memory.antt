-- ===== src/Rdma/Memory.antt =====
-- What the fabric is documented to do with memory, for the transfers to rely on.
use sponge_bob.Prelude.{
  ℕ, ◌+◌, ◌-◌, ◌≤◌, ◌<◌, ◌≡◌, Bool, true, [], ◌∷◌, leb, ltb, ◌&&◌, if◌then◌else◌, arith, ap, ◌⊎◌,
  inl, inr,
}
use sponge_bob.Rdma.Types.{Sge, SendWr, rdma_read, rdma_write, Verbs}
use sponge_bob.Rdma.Poll.Ends.{Polls}

-- `n` bytes at `to` are those of `src`, the others as `old` has them.
abbrev pub copied : (ℕ → ℕ) → ℕ → ℕ → (ℕ → ℕ) → ℕ → ℕ
copied src to n old a = if leb to a && ltb a (to + n) then src (a - to) else old a

-- The bytes of this node, those of the node at the other end of a queue pair, and the completion
-- queue of a queue pair; the memory region that this node has registered, with its key, and the one of
-- the node at the other end. `idle` says that a queue pair is ready to send, with no request
-- outstanding and no completion waiting in its queue.
pub record Memory (F : Type 0) : Type 0 where
  pub local : ℕ → F → ℕ
  pub remote : ℕ → ℕ → F → ℕ
  pub cq_of : ℕ → ℕ
  pub local_key : ℕ
  pub local_start : ℕ
  pub local_size : ℕ
  pub remote_key : ℕ → ℕ
  pub remote_start : ℕ → ℕ
  pub remote_size : ℕ → ℕ
  pub idle : ℕ → F → Bool

-- A request that the documentation allows: on an idle queue pair, between the two regions, with the
-- key of each.
pub record Allowed {F : Type 0} (memory : Memory F) (qp : ℕ) (sge : Sge) (addr rkey : ℕ) (f : F)
    : Type 0 where
  pub ready : memory.idle qp f ≡ true
  pub lkey : sge.lkey ≡ memory.local_key
  pub rkey_right : rkey ≡ memory.remote_key qp
  pub local_from : memory.local_start ≤ sge.addr
  pub local_to : sge.addr + sge.length ≤ memory.local_start + memory.local_size
  pub remote_from : memory.remote_start qp ≤ addr
  pub remote_to : addr + sge.length ≤ memory.remote_start qp + memory.remote_size qp

module _ {F : Type 0} (verbs : Verbs F) (memory : Memory F) (polls : ℕ) where
  -- A signalled request that is posted to `qp` from `f` on completes with success within `polls`
  -- polls, and leaves the fabric `g`.
  pub record Completes (qp : ℕ) (wr : SendWr) (f g : F) : Type 0 where
    pub posted : F
    pub waits : ℕ
    pub more : ℕ
    pub post : verbs.post_send qp (wr ∷ []) f ≡ (true, posted)
    pub soon : waits < polls
    pub polled : Polls verbs (memory.cq_of qp) more true g waits posted

  -- An allowed read copies from the remote memory to the local one, an allowed write back; each leaves
  -- the other memory alone, and the queue pair idle. `memcpy` copies within the local memory between
  -- places that do not overlap, and the clock changes no memory; neither touches a queue pair.
  pub record Delivers : Type 0 where
    pub reads :
        (qp : ℕ) (sge : Sge) (addr rkey : ℕ) (f : F)
        → Allowed memory qp sge addr rkey f
        → (g : F) × (memory.idle qp g ≡ true)
          × Completes qp (record { sge = sge; opcode = rdma_read addr rkey; signaled = true }) f g
          × ((a : ℕ)
              → memory.local a g
                ≡ copied
                    (λ j. memory.remote qp (addr + j) f)
                    sge.addr
                    sge.length
                    (λ b. memory.local b f)
                    a)
          × ((q a : ℕ) → memory.remote q a g ≡ memory.remote q a f)
    pub writes :
        (qp : ℕ) (sge : Sge) (addr rkey : ℕ) (f : F)
        → Allowed memory qp sge addr rkey f
        → (g : F) × (memory.idle qp g ≡ true)
          × Completes qp (record { sge = sge; opcode = rdma_write addr rkey; signaled = true }) f g
          × ((a : ℕ)
              → memory.remote qp a g
                ≡ copied
                    (λ j. memory.local (sge.addr + j) f)
                    addr
                    sge.length
                    (λ b. memory.remote qp b f)
                    a)
          × ((a : ℕ) → memory.local a g ≡ memory.local a f)
    pub copies :
        (to from n : ℕ) (f : F)
        → (to + n ≤ from) ⊎ (from + n ≤ to)
        → ((a : ℕ)
            → memory.local a (verbs.memcpy to from n f)
              ≡ copied (λ j. memory.local (from + j) f) to n (λ b. memory.local b f) a)
          × ((q a : ℕ) → memory.remote q a (verbs.memcpy to from n f) ≡ memory.remote q a f)
          × ((q : ℕ) → memory.idle q (verbs.memcpy to from n f) ≡ memory.idle q f)
    pub clock :
        (f : F)
        → ((a : ℕ) → memory.local a (verbs.time_of_day f).1 ≡ memory.local a f)
          × ((q a : ℕ) → memory.remote q a (verbs.time_of_day f).1 ≡ memory.remote q a f)
          × ((q : ℕ) → memory.idle q (verbs.time_of_day f).1 ≡ memory.idle q f)

pub copied_in :
    (src : ℕ → ℕ) (to n : ℕ) (old : ℕ → ℕ) (j : ℕ) → j < n → copied src to n old (to + j) ≡ src j
copied_in src to n old j h = let e : to + j - to ≡ j = omega arith in ground (arith, ap src e)

pub copied_out :
    (src : ℕ → ℕ) (to n : ℕ) (old : ℕ → ℕ) (a : ℕ)
    → (a < to) ⊎ (to + n ≤ a)
    → copied src to n old a ≡ old a
copied_out src to n old a (inl h) = ground arith
copied_out src to n old a (inr h) = ground arith
