-- ===== src/MetaClient.antt =====
-- src/metadata/MetaClient.cpp. gRPC is a parameter: a `Stub` delivers a request to a service of state
-- `W`, and gives the status with the reply, or never returns. A reply that was not filled in has the
-- values that protocol buffers give it.
use sponge_bob.Prelude.{
  ℕ, ◌-◌, ◌%◌, ◌^◌, String, Bool, true, false, Option, none, some, List, [], ◌++◌, ltb,
  if◌then◌else◌,
}
use sponge_bob.Result.{Result, ok, ◌>>=◌}
use sponge_bob.Rdma.Types.{ℤ, pos, negsuc}
use sponge_bob.MetaServer.Messages.{
  FileBlockInfo, TransferRequest, TransferReply, DentryInfo, Response, success, cancelled,
}
use sponge_bob.MetaServer.State.{Service}
use sponge_bob.MetaServer.Handlers

-- `Metadata::Stub`
pub record Stub (W : Type 0) : Type 0 where
  pub read_file : TransferRequest → W → Result (Response TransferReply × W)
  pub write_file : TransferRequest → W → Result (Response TransferReply × W)
  pub create_file : String → Bool → W → Result (Response ℕ × W)
  pub open_file : String → W → Result (Response (Option ℕ) × W)
  pub close_file : ℕ → W → Result (Response Bool × W)
  pub remove_file : String → W → Result (Response Bool × W)
  pub read_directory : String → W → Result (Response (List DentryInfo) × W)
  pub register_memory_region : ℕ → ℕ → ℕ → W → Result (Response (Unit {0}) × W)

-- The stub of a channel that delivers every request to the service's handlers.
abbrev pub server_stub : (String → ℕ) → (ℕ → ℕ) → Stub Service
server_stub hash rand = record {
  read_file = Handlers.read_file hash;
  write_file = Handlers.write_file hash rand;
  create_file = Handlers.create_file hash;
  open_file = Handlers.open_file hash;
  close_file = Handlers.close_file;
  remove_file = Handlers.remove_file hash;
  read_directory = Handlers.read_directory;
  register_memory_region = Handlers.register_memory_region;
}

-- A `uint64_t` as an `int`.
abbrev pub int_value : ℕ → ℤ
int_value n = let w = n % 2 ^ 32 in if ltb w (2 ^ 31) then pos w else negsuc (2 ^ 32 - 1 - w)

-- An answer `{ ok, false }` of 0 or -1.
abbrev status_code : {A : Type 0} → Response A → ℤ
status_code (success a) = pos 0
status_code cancelled = negsuc 0

module _ {W : Type 0} (stub : Stub W) where
  -- `ReadFile`: the list, and what `byted_read` holds after the call.
  unfoldable pub read_file : String → ℕ → ℕ → ℕ → W → Result ((List FileBlockInfo × ℕ) × W)
  read_file filename offset len bytes_read w = do
    (response, w') ← stub.read_file (record { name = filename; offset = offset; length = len }) w
    ok (
      elim response [
        | success reply ↦ (reply.block_info, reply.bytes)
        | cancelled ↦ ([], bytes_read)
      ],
      w',
    )

  -- `WriteFile`
  unfoldable pub write_file : String → ℕ → ℕ → ℕ → W → Result ((List FileBlockInfo × ℕ) × W)
  write_file filename offset len bytes_write w = do
    (response, w') ← stub.write_file (record { name = filename; offset = offset; length = len }) w
    ok (
      elim response [
        | success reply ↦ (reply.block_info, reply.bytes)
        | cancelled ↦ ([], bytes_write)
      ],
      w',
    )

  -- `CreateFile`
  unfoldable pub create_file : String → W → Result (ℤ × W)
  create_file filename w = do (response, w') ← stub.create_file filename false w; ok (pos 0, w')

  -- `CreateDiretory`
  unfoldable pub create_diretory : String → W → Result (ℤ × W)
  create_diretory path w = do (response, w') ← stub.create_file path true w; ok (pos 0, w')

  -- `OpenFile`
  unfoldable pub open_file : String → W → Result (ℤ × W)
  open_file filename w = do
    (response, w') ← stub.open_file filename w
    ok (
      elim response [
        | success (some fd) ↦ int_value fd
        | success none ↦ negsuc 0
        | cancelled ↦ pos 0
      ],
      w',
    )

  -- `CloseFile`
  unfoldable pub close_file : ℕ → W → Result (Bool × W)
  close_file fd w = do
    (response, w') ← stub.close_file fd w
    ok (elim response [ success closed ↦ closed | cancelled ↦ false ], w')

  -- `RemoveFile`
  unfoldable pub remove_file : String → W → Result (Bool × W)
  remove_file filename w = do
    (response, w') ← stub.remove_file filename w
    ok (elim response [ success removed ↦ removed | cancelled ↦ false ], w')

  -- `ReadDirectory`: the result, and `dir_list` after the call.
  unfoldable pub read_directory : String → List DentryInfo → W → Result ((ℤ × List DentryInfo) × W)
  read_directory path dir_list w = do
    (response, w') ← stub.read_directory path w
    ok (
      elim response [
        | success entries ↦ (pos 0, dir_list ++ entries)
        | cancelled ↦ (negsuc 0, dir_list)
      ],
      w',
    )

  -- `RegisterMemoryRegion`
  unfoldable pub register_memory_region : ℕ → ℕ → ℕ → W → Result (ℤ × W)
  register_memory_region nodeid addr len w = do
    (response, w') ← stub.register_memory_region nodeid addr len w
    ok (status_code response, w')
