-- ===== src/Rdma/Hamal/Rounds.antt =====
-- The rounds of a transfer.
use sponge_bob.Prelude.{
  ℕ, zero, suc, ◌+◌, ◌*◌, ◌/◌, ◌%◌, ◌<◌, ◌≡◌, refl, sym, ap, ◌∙◌, List, [], ◌∷◌, arith, u64_mod,
  ltb, ◌==◌, if◌then◌else◌, true, add64,
}
use sponge_bob.Result.{Result, ok, fault, ◌>>=◌}
use sponge_bob.Rdma.Types.{RdmaSocket, Verbs}
use sponge_bob.Rdma.Hamal.{
  hamal_loop, hamal_fuel, send_size, signalled, inbound_hamal, outbound_hamal, inbound_round,
  outbound_round,
}

-- A transfer cut into `n` pieces of a mebibyte from `total` on, and a last one of `rest` bytes.
abbrev pub pieces : ℕ → ℕ → ℕ → List (ℕ × ℕ)
pieces zero total rest = if rest == 0 then [] else (total, rest) ∷ []
pieces (suc n) total rest = (total, 1048576) ∷ pieces n (total + 1048576) rest

-- A round for each piece, and then the signal.
abbrev pub run_pieces :
    {F : Type 0}
    → (ℕ → ℕ → RdmaSocket → F → Result (RdmaSocket × F))
    → List (ℕ × ℕ)
    → RdmaSocket
    → F
    → Result (RdmaSocket × F)
run_pieces round [] r f = ok (signalled r, f)
run_pieces round ((total, n) ∷ ps) r f = do (r', f') ← round total n r f; run_pieces round ps r' f'

bind_cong :
    {A B : Type 0} (m : Result A) (k k' : A → Result B)
    → ((a : A) → k a ≡ k' a)
    → (m >>= k) ≡ (m >>= k')
bind_cong (ok a) k k' e = e a
bind_cong (fault x) k k' e = refl

size_last :
    (rest total size : ℕ)
    → size ≡ total + 0 * 1048576 + suc rest
    → suc rest < 1048576
    → send_size size total ≡ suc rest
size_last rest total size e h = ground (arith, e)

size_more :
    (n rest total size : ℕ) → size ≡ total + suc n * 1048576 + rest → send_size size total ≡ 1048576
size_more n rest total size e = ground (arith, e)

pub pieces_last : (total rest : ℕ) → pieces 0 total (suc rest) ≡ (total, suc rest) ∷ []
pieces_last total rest = ground arith

module _ {F : Type 0} (round : ℕ → ℕ → RdmaSocket → F → Result (RdmaSocket × F)) where
  hamal_loop_more :
      (fuel size total n total' : ℕ) (r : RdmaSocket) (f : F)
      → total < size
      → send_size size total ≡ n
      → add64 total n ≡ total'
      → hamal_loop round (suc fuel) size total r f
        ≡ (round total n r f >>= λ p. hamal_loop round fuel size total' p.0 p.1)
  unfolding hamal_loop
  hamal_loop_more fuel size total n total' r f h e e' =
      let t : ltb total size ≡ true = ground arith in rw (t, hamal_loop) (rw e (rw e' refl))

  hamal_loop_done :
      (fuel size total : ℕ) (r : RdmaSocket) (f : F)
      → size ≡ total
      → hamal_loop round fuel size total r f ≡ ok (signalled r, f)
  unfolding hamal_loop
  hamal_loop_done zero size total r f e = ground (arith, e)
  hamal_loop_done (suc fuel) size total r f e = ground (arith, e)

  hamal_loop-pieces :
      (n rest total fuel size : ℕ) (r : RdmaSocket) (f : F)
      → rest < 1048576
      → size ≡ total + n * 1048576 + rest
      → size < u64_mod
      → fuel ≡ n + (if rest == 0 then 0 else 1)
      → hamal_loop round fuel size total r f ≡ run_pieces round (pieces n total rest) r f
  hamal_loop-pieces zero zero total fuel size r f h e b g =
      hamal_loop_done fuel size total r f (omega (arith, e))
  hamal_loop-pieces zero (suc rest) total zero size r f h e b g = absurd (ground (arith, g))
  hamal_loop-pieces zero (suc rest) total (suc fuel) size r f h e b g =
      hamal_loop_more fuel size total (suc rest) size r f (omega (arith, e))
        (size_last rest total size e h) (omega (arith, e, b))
      ∙ bind_cong (round total (suc rest) r f) _ _
          (λ p. hamal_loop_done fuel size size p.0 p.1 refl)
      ∙ ap (λ ps. run_pieces round ps r f) (sym (pieces_last total rest))
  hamal_loop-pieces (suc n) rest total zero size r f h e b g = absurd (omega arith)
  hamal_loop-pieces (suc n) rest total (suc fuel) size r f h e b g =
      hamal_loop_more fuel size total 1048576 (total + 1048576) r f (omega (arith, e))
        (size_more n rest total size e) (omega (arith, e, b))
      ∙ bind_cong (round total 1048576 r f) _ _ (λ p.
        hamal_loop-pieces n rest (total + 1048576) fuel size p.0 p.1 h (omega (arith, e)) b
          (omega (arith, g)))

-- The pieces of a transfer of `size` bytes: whole mebibytes, and what is left.
abbrev pub pieces_of : ℕ → List (ℕ × ℕ)
pieces_of size = pieces (size / 1048576) 0 (size % 1048576)

module _ {F : Type 0} (verbs : Verbs F) (polls : ℕ) where
  -- For fewer than 2 ^ 64 bytes, whatever the library's calls answer, `InboundHamal` and
  -- `OutboundHamal` are a round for each mebibyte of the transfer in order, one for what is left, and
  -- then the signal: the fuel of their loop is enough.
  pub hamal_rounds :
      (task_id buffer_send node_id buffer_receive size : ℕ) (r : RdmaSocket) (f : F)
      → size < u64_mod
      → (inbound_hamal verbs polls task_id buffer_send node_id buffer_receive size r f
          ≡ run_pieces
              (inbound_round verbs polls task_id buffer_send node_id buffer_receive)
              (pieces_of size)
              r
              f)
        × (outbound_hamal verbs polls task_id buffer_send node_id buffer_receive size r f
            ≡ run_pieces
                (outbound_round verbs polls task_id buffer_send node_id buffer_receive)
                (pieces_of size)
                r
                f)
  unfolding inbound_hamal outbound_hamal
  hamal_rounds task_id buffer_send node_id buffer_receive size r f b =
      let fuel : hamal_fuel size ≡ size / 1048576 + (if size % 1048576 == 0 then 0 else 1) =
        ground arith in
      (
        hamal_loop-pieces (inbound_round verbs polls task_id buffer_send node_id buffer_receive)
            (size / 1048576) (size % 1048576) 0 (hamal_fuel size) size r f (omega arith)
            (omega arith) b fuel,
        hamal_loop-pieces (outbound_round verbs polls task_id buffer_send node_id buffer_receive)
            (size / 1048576) (size % 1048576) 0 (hamal_fuel size) size r f (omega arith)
            (omega arith) b fuel,
      )
