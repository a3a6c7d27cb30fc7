-- ===== src/Rdma/Poll/Ends.antt =====
-- When a wait for a completion ends, and when it does not.
use sponge_bob.Prelude.{ℕ, zero, suc, ◌<◌, ◌≡◌, refl, Bool, true, some, arith, if◌then◌else◌}
use sponge_bob.Result.{ok, fault, out_of_fuel, ◌>>=◌, or_fault}
use sponge_bob.Containers.Table
use sponge_bob.Rdma.Types.{RdmaSocket, PeerSockData, Verbs, ℤ, pos, negsuc, ◌+ℤ◌, below}
use sponge_bob.Rdma.Poll.{poll_loop, poll_completion}

module _ {F : Type 0} (verbs : Verbs F) (cq : ℕ) where
  -- The queue `cq` is empty for `k` polls from `f` on, and the next one finds `n + 1` completions, of
  -- the status `success`, and leaves the fabric `g`.
  pub data Polls (n : ℕ) (success : Bool) (g : F) : ℕ → F → Type 0 where
    found : {f : F} → verbs.poll_cq cq 1 f ≡ (pos (suc n), success, g) → Polls n success g 0 f
    wait :
        {f f' : F} (k : ℕ) (status : Bool)
        → verbs.poll_cq cq 1 f ≡ (pos 0, status, f')
        → Polls n success g k f'
        → Polls n success g (suc k) f

  -- The loop ends with the poll that finds a completion.
  pub poll_loop-Polls :
      (n k fuel : ℕ) (success : Bool) (f g : F)
      → k < fuel
      → Polls n success g k f
      → poll_loop verbs fuel cq 1 (pos 0) f ≡ ok (pos (suc n), success, g)
  unfolding poll_loop
  poll_loop-Polls n k zero success f g h p = absurd (omega arith)
  poll_loop-Polls n zero (suc fuel) success f g h (found e) = rw e (ground arith)
  poll_loop-Polls n (suc k) (suc fuel) success f g h (wait j status e p) =
      rw e (poll_loop-Polls n k fuel success _ g (omega arith) p)

-- The queue that the peer of `node_id` uses is empty for `k` polls and then finds a completion:
-- `PollCompletion` for one returns, after those polls, their number, or -1 if the completion is not a
-- success.
pub poll_completion-Polls :
    {F : Type 0} (verbs : Verbs F) (node_id n k fuel : ℕ) (success : Bool) (r : RdmaSocket)
    (f g : F) (peer : PeerSockData)
    → Table.find node_id r.peers ≡ some peer
    → k < fuel
    → Polls verbs peer.cq n success g k f
    → poll_completion verbs fuel node_id 1 r f ≡ ok ((if success then pos (suc n) else negsuc 0), g)
unfolding poll_completion
poll_completion-Polls verbs node_id n k fuel success r f g peer known h p =
    rw (known, or_fault)
      (rw (poll_loop-Polls verbs peer.cq n k fuel success f g h p, ◌>>=◌) (ground arith))

-- A queue that answers every poll with an error.
pub record Broken {F : Type 0} (verbs : Verbs F) (cq : ℕ) : Type 0 where
  pub at :
      (f : F)
      → (n : ℕ) × (status : Bool) × (f' : F) × (verbs.poll_cq cq 1 f ≡ (negsuc n, status, f'))

below-add : (count : ℤ) (n : ℕ) → below count 1 ≡ true → below (count +ℤ negsuc n) 1 ≡ true
below-add (pos a) n h = ground (arith, h)
below-add (negsuc a) n h = refl

poll_loop_endless :
    {F : Type 0} (verbs : Verbs F) (cq fuel : ℕ)
    → Broken verbs cq
    → (count : ℤ) (f : F) → below count 1 ≡ true
    → poll_loop verbs fuel cq 1 count f ≡ fault out_of_fuel
unfolding poll_loop
poll_loop_endless verbs cq zero b count f h = refl
poll_loop_endless verbs cq (suc fuel) b count f h =
    let (n, status, f', e) = b.at f in
    rw e (
      rw (below-add count n h)
        (poll_loop_endless verbs cq fuel b (count +ℤ negsuc n) f' (below-add count n h)))

-- When the queue of the peer answers every poll with an error, `PollCompletion` for one never returns:
-- its loop goes on with a negative count (whose bounds as an `int` are left aside), so that the test
-- for one behind the loop is never reached.
pub poll_completion_endless :
    {F : Type 0} (verbs : Verbs F) (node_id fuel : ℕ) (r : RdmaSocket) (f : F) (peer : PeerSockData)
    → Table.find node_id r.peers ≡ some peer
    → Broken verbs peer.cq
    → poll_completion verbs fuel node_id 1 r f ≡ fault out_of_fuel
unfolding poll_completion
poll_completion_endless verbs node_id fuel r f peer known b =
    rw (known, or_fault) (rw (poll_loop_endless verbs peer.cq fuel b (pos 0) f refl, ◌>>=◌) refl)
