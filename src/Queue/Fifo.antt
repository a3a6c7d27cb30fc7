-- ===== src/Queue/Fifo.antt =====
-- The polling queue: first in, first out, as long as fewer than 256 items wait.
use sponge_bob.Prelude.{◌+◌, ◌<◌, ◌%◌, ◌≡◌, refl, ap, List, [], ◌∷◌, ◌++◌, arith, length}
use sponge_bob.Result.{ok, fault, deadlock}
use sponge_bob.Queue.{Queue, pop_polling, push_polling}

-- The counter is the number of items, as far as eight bits hold it.
pub record IsCounted {T : Type 0} (q : Queue T) : Type 0 where
  pub at : q.offset ≡ length q.queue % 256

length-snoc : {T : Type 0} (x : T) (xs : List T) → length (xs ++ (x ∷ [])) ≡ length xs + 1
length-snoc x [] = refl
length-snoc x (y ∷ xs) = ground (arith, length-snoc x xs)

-- A push keeps the counter right.
push_polling-IsCounted :
    {T : Type 0} (item : T) (q : Queue T) → IsCounted q → IsCounted (push_polling item q)
unfolding push_polling
push_polling-IsCounted item q c = record { at = omega (arith, c.at, length-snoc item q.queue) }

-- With fewer than 256 items the pop of a queue with a right counter gives the item that was pushed
-- first, and leaves the rest, with a right counter.
pub pop_polling_first :
    {T : Type 0} (first : T) (rest : List T) (q : Queue T)
    → IsCounted q
    → q.queue ≡ first ∷ rest
    → length rest < 255
    → (q' : Queue T) × (pop_polling q ≡ ok (first, q')) × (q'.queue ≡ rest) × IsCounted q'
unfolding pop_polling
pop_polling_first first rest q c e h =
    let n : q.offset ≡ length rest + 1 = omega (arith, c.at, ap length e) in
    (
      record { queue = rest; offset = length rest },
      ground (arith, e, n),
      refl,
      record { at = omega arith },
    )

-- When the push makes 256 items, the next pop waits although the items are there; after one more push
-- it gives the item that was pushed first, and sets the counter to 0 although 256 items are left.
pub pop_polling_wrapped :
    {T : Type 0} (first item other : T) (rest : List T) (q : Queue T)
    → IsCounted q
    → q.queue ≡ first ∷ rest
    → length rest ≡ 254
    → (pop_polling (push_polling item q) ≡ fault deadlock)
      × (pop_polling (push_polling other (push_polling item q))
          ≡ ok (first, record { queue = rest ++ (item ∷ []) ++ (other ∷ []); offset = 0 }))
unfolding pop_polling push_polling
pop_polling_wrapped first item other rest q c e h =
    let n : q.offset ≡ 255 = omega (arith, c.at, ap length e, h) in
    (ground (arith, n, e), ground (arith, n, e))
