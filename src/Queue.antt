-- ===== src/Queue.antt =====
-- include/queue.h: `Queue<T>`. A wait for another thread's push is the fault `deadlock`; `offset` is
-- a `uint8_t`.
pub mod Fifo
use sponge_bob.Prelude.{ℕ, ◌+◌, ◌-◌, ◌%◌, List, [], ◌∷◌, ◌++◌, ◌==◌, if◌then◌else◌}
use sponge_bob.Result.{Result, ok, fault, deadlock, out_of_range}

pub record Queue (T : Type 0) : Type 0 where
  pub queue : List T
  pub offset : ℕ

abbrev pub new_queue : {T : Type 0} → Queue T
new_queue = record { queue = []; offset = 0 }

unfoldable pub pop : {T : Type 0} → Queue T → Result (T × Queue T)
pop q = elim q.queue [ [] ↦ fault deadlock | item ∷ rest ↦ ok (item, record q { queue = rest }) ]

unfoldable pub push : {T : Type 0} → T → Queue T → Queue T
push item q = record q { queue = q.queue ++ (item ∷ []) }

unfoldable pub pop_polling : {T : Type 0} → Queue T → Result (T × Queue T)
pop_polling q = if q.offset == 0 then fault deadlock else elim q.queue [
  | [] ↦ fault out_of_range
  | item ∷ rest ↦ ok (item, record { queue = rest; offset = (q.offset + 255) % 256 })
]

unfoldable pub push_polling : {T : Type 0} → T → Queue T → Queue T
push_polling item q = record { queue = q.queue ++ (item ∷ []); offset = (q.offset + 1) % 256 }
