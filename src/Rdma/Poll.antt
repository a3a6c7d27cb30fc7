-- ===== src/Rdma/Poll.antt =====
-- Waiting for completions. The first parameter of a loop is its fuel: the number of calls of
-- `ibv_poll_cq` that it may make.
pub mod Ends
use sponge_bob.Prelude.{ℕ, zero, suc, Bool, if◌then◌else◌, get_elem?}
use sponge_bob.Result.{Result, ok, fault, out_of_fuel, out_of_range, or_fault, ◌>>=◌}
use sponge_bob.Rdma.Types.{RdmaSocket, Verbs, ℤ, pos, negsuc, ◌+ℤ◌, below}
use sponge_bob.Rdma.Post.{peer_of}

module _ {F : Type 0} (verbs : Verbs F) where
  -- `do { count += ibv_poll_cq(cq, 1, wc); } while (count < PollNumber);`
  unfoldable pub poll_loop : ℕ → ℕ → ℕ → ℤ → F → Result (ℤ × Bool × F)
  poll_loop zero cq poll_number count f = fault out_of_fuel
  poll_loop (suc fuel) cq poll_number count f =
      let (n, success, f') = verbs.poll_cq cq 1 f in
      let more = poll_loop fuel cq poll_number (count +ℤ n) f' in
      if below (count +ℤ n) poll_number then more else ok (count +ℤ n, success, f')

  -- The tests after the loop: the count, or -1.
  abbrev poll_answer : ℤ → Bool → ℤ
  poll_answer count success =
      if below count 0 then negsuc 0 else if success then count else negsuc 0

  -- `PollCompletion`
  unfoldable pub poll_completion : ℕ → ℕ → ℕ → RdmaSocket → F → Result (ℤ × F)
  unfolding poll_loop
  poll_completion fuel node_id poll_number r f = do
    peer ← peer_of node_id r
    (count, success, f') ← poll_loop fuel peer.cq poll_number (pos 0) f
    ok (poll_answer count success, f')

  -- `PollWithCQ`
  unfoldable pub poll_with_cq : ℕ → ℕ → ℕ → RdmaSocket → F → Result (ℤ × F)
  unfolding poll_loop
  poll_with_cq fuel cq_ptr poll_number r f = do
    cq ← or_fault (get_elem? r.cq cq_ptr) out_of_range
    (count, success, f') ← poll_loop fuel cq poll_number (pos 0) f
    ok (poll_answer count success, f')

  -- `PollOnce`
  unfoldable pub poll_once : ℕ → ℕ → RdmaSocket → F → Result (ℤ × F)
  poll_once cq_ptr poll_number r f = do
    cq ← or_fault (get_elem? r.cq cq_ptr) out_of_range
    let (count, success, f') = verbs.poll_cq cq poll_number f
    ok (if below count 1 then pos 0 else if success then count else negsuc 0, f')
