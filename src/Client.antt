-- ===== src/Client.antt =====
-- src/client/Client.cpp: a transfer asks the metadata service for the blocks and moves each of them.
-- `local_offset` is counted up and not used, so that it is left out.
pub mod Start
pub mod Transfers
use sponge_bob.Prelude.{ℕ, ◌%◌, ◌^◌, String, Bool, true, false, List, [], ◌∷◌}
use sponge_bob.Result.{Result, ok, ◌>>=◌}
use sponge_bob.Rdma.Remote.{remote_transfer}
use sponge_bob.Rdma.Types.{RdmaSocket, Verbs, ℤ, pos, negsuc}
use sponge_bob.MetaServer.Messages.{FileBlockInfo}
use sponge_bob.MetaClient
use sponge_bob.MetaClient.{Stub, int_value}

-- `RemoteRead` and `RemoteWrite` of a socket of state `S`: the local buffer, the node, the remote
-- buffer and the size.
pub record Remote (S : Type 0) : Type 0 where
  pub remote_read : ℕ → ℕ → ℕ → ℕ → S → Result (Bool × S)
  pub remote_write : ℕ → ℕ → ℕ → ℕ → S → Result (Bool × S)

-- The operations of an `RdmaSocket`; `schedule` is what its workers do in each transfer.
abbrev pub socket_remote : {F : Type 0} → Verbs F → ℕ → List ℕ → Remote (RdmaSocket × F)
socket_remote verbs polls schedule = record {
  remote_read = λ buf node_id mem len s. do
    (ret, r, f) ← remote_transfer verbs polls false schedule buf node_id mem len s.0 s.1
    ok (ret, (r, f));
  remote_write = λ buf node_id mem len s. do
    (ret, r, f) ← remote_transfer verbs polls true schedule buf node_id mem len s.0 s.1
    ok (ret, (r, f));
}

abbrev pub answer : Bool → ℕ → ℤ
answer true n = int_value n
answer false n = negsuc 0

module _ {S : Type 0} (remote : Remote S) where
  -- The loop of `Client::read` over the blocks: false is the `return -1` in it. `RemoteRead` takes the
  -- number of the server, a `uint64_t`, as a `uint16_t`.
  unfoldable pub read_blocks : ℕ → List FileBlockInfo → S → Result (Bool × S)
  read_blocks user_buf [] s = ok (true, s)
  read_blocks user_buf (block ∷ blocks) s = do
    (ret, s') ←
        remote.remote_read user_buf (block.serverid % 2 ^ 16) block.mem_offset block.length s
    elim ret [ true ↦ read_blocks user_buf blocks s' | false ↦ ok (false, s') ]

  -- The loop of `Client::write`, with `RemoteWrite`.
  unfoldable pub write_blocks : ℕ → List FileBlockInfo → S → Result (Bool × S)
  write_blocks user_buf [] s = ok (true, s)
  write_blocks user_buf (block ∷ blocks) s = do
    (ret, s') ←
        remote.remote_write user_buf (block.serverid % 2 ^ 16) block.mem_offset block.length s
    elim ret [ true ↦ write_blocks user_buf blocks s' | false ↦ ok (false, s') ]

module _ {W S : Type 0} (stub : Stub W) (remote : Remote S) where
  -- `Client::read`
  unfoldable pub read : String → ℕ → ℕ → ℕ → W × S → Result (ℤ × (W × S))
  unfolding read_blocks
  read filename user_buf offset len (w, s) = do
    ((blocks, bytes_read), w') ← MetaClient.read_file stub filename offset len 0 w
    (done, s') ← read_blocks remote user_buf blocks s
    ok (answer done bytes_read, (w', s'))

  -- `Client::write`
  unfoldable pub write : String → ℕ → ℕ → ℕ → W × S → Result (ℤ × (W × S))
  unfolding write_blocks
  write filename user_buf offset len (w, s) = do
    ((blocks, bytes_write), w') ← MetaClient.write_file stub filename offset len 0 w
    (done, s') ← write_blocks remote user_buf blocks s
    ok (answer done bytes_write, (w', s'))

  -- `Client::create`
  unfoldable pub create : String → W × S → Result (ℤ × (W × S))
  create filename (w, s) = do
    (code, w') ← MetaClient.create_file stub filename w
    ok (code, (w', s))
