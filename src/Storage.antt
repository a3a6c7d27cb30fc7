-- ===== src/Storage.antt =====
-- src/storage/StorageServer.cpp: a storage server maps its device, starts its socket and tells the
-- metadata service where its memory is. The answer of `mmap` is a parameter, as is that of `getIP`.
pub mod Registers
use sponge_bob.Prelude.{ℕ, ◌-◌, ◌^◌, String, true, Option, none, some}
use sponge_bob.Result.{Result, ok, ◌>>=◌}
use sponge_bob.Configuration.{Settings, new_configuration}
use sponge_bob.Rdma.Types.{RdmaSocket}
use sponge_bob.Rdma.Start.{new_socket, get_node_id}
use sponge_bob.MetaClient
use sponge_bob.MetaClient.{Stub}

-- `Pool`: an error of `open` or `mmap` is printed, and `MAP_FAILED` is kept as the address.
pub record Pool : Type 0 where
  pub size : ℕ
  pub memory_base_address : ℕ

unfoldable pub new_pool : Option ℕ → ℕ → Pool
new_pool none size = record { size = size; memory_base_address = 2 ^ 64 - 1 }
new_pool (some address) size = record { size = size; memory_base_address = address }

-- `StorageServer`: `memory` is what the members of the socket hold before it is made. The thread that
-- `RdmaListen` starts is `RdmaAccept`; the result of the registration is not looked at.
unfoldable pub new_storage_server :
    {W : Type 0}
    → Stub W
    → RdmaSocket
    → Settings
    → String
    → Option ℕ
    → ℕ
    → W
    → Result ((Pool × RdmaSocket) × W)
unfolding new_pool new_socket get_node_id
new_storage_server stub memory settings ip mapped size w = do
  let config = new_configuration settings
  let pool = new_pool mapped size
  let socket = new_socket memory 2 pool.memory_base_address config true 0 ip
  (_, w') ←
      MetaClient.register_memory_region stub (get_node_id socket) pool.memory_base_address pool.size
        w
  ok ((pool, socket), w')
