-- ===== src/Rdma/Connect/Sync.antt =====
-- `DataSyncwithSocket`: the first parameter is fuel, the number of calls of `read` that it may make.
pub mod Ends
use sponge_bob.Prelude.{
  ℕ, zero, suc, ◌+◌, ◌≡◌, Bool, true, false, Option, List, [], ◌∷◌, ◌++◌, ltb, ◌&&◌, length, ℤ, pos,
  negsuc, below, if◌then◌else◌,
}
use sponge_bob.Result.{Result, ok, fault, out_of_fuel}
use sponge_bob.Rdma.Connect.Types.{Answer, bytes, failed, Net}

abbrev pub drop : ℕ → List ℕ → List ℕ
drop zero xs = xs
drop (suc n) [] = []
drop (suc n) (x ∷ xs) = drop n xs

-- The bytes that `read` puts at the start of a buffer.
abbrev pub overwrite : List ℕ → List ℕ → List ℕ
overwrite bs buffer = bs ++ drop (length bs) buffer

-- `!rc`
abbrev pub is_zero : ℤ → Bool
is_zero (pos zero) = true
is_zero (pos (suc n)) = false
is_zero (negsuc n) = false

module _ {F : Type 0} (net : Net F) where
  -- `while (!rc && totalReadBytes < size)`
  unfoldable pub read_loop : ℕ → ℕ → ℕ → ℤ → ℕ → List ℕ → F → Result (ℤ × List ℕ × F)
  read_loop zero sock size rc total remote f =
      if is_zero rc && ltb total size then fault out_of_fuel else ok (rc, remote, f)
  read_loop (suc fuel) sock size rc total remote f = elim (is_zero rc && ltb total size) [
    | true ↦
        let (answer, f') = net.read sock size f in
        elim answer [
          | bytes bs ↦ elim bs [
            | [] ↦ read_loop fuel sock size (pos 0) total remote f'
            | b ∷ rest ↦
                read_loop fuel sock size rc (total + length (b ∷ rest))
                  (overwrite (b ∷ rest) remote) f'
          ]
          | failed n ↦ read_loop fuel sock size (negsuc n) total remote f'
        ]
    | false ↦ ok (rc, remote, f)
  ]

  -- `DataSyncwithSocket` of the bytes `local` and a buffer that holds `remote`, both of `size` bytes:
  -- `rc` and the buffer.
  unfoldable pub data_sync : ℕ → ℕ → ℕ → List ℕ → List ℕ → F → Result (ℤ × List ℕ × F)
  unfolding read_loop
  data_sync fuel sock size local remote f =
      let (rc, f') = net.write sock local f in
      read_loop fuel sock size (if below rc size then rc else pos 0) 0 remote f'
