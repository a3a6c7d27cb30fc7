-- ===== src/Storage/Registers.antt =====
-- What the start of a storage server does to the metadata service.
use Prim.Native.Nat.{bit_and}
use sponge_bob.Prelude.{
  ℕ, ◌+◌, ◌^◌, ◌<◌, ◌≡◌, refl, ap, ◌∙◌, String, true, some, arith, get_elem?, ℤ, pos, negsuc,
  u64_mod, sub64,
}
use sponge_bob.Result.{ok, ◌>>=◌}
use sponge_bob.Inode.{file_block_size}
use sponge_bob.Configuration.{Settings, Configuration, uint16, new_configuration, get_id_by_ip}
use sponge_bob.Configuration.Lookups.{Separate, get_ip_by_id-get_id_by_ip}
use sponge_bob.Rdma.Types.{RdmaSocket}
use sponge_bob.Rdma.Start.{new_socket, get_node_id}
use sponge_bob.MetaClient
use sponge_bob.MetaClient.{server_stub, Stub}
use sponge_bob.MetaServer.Handlers
use sponge_bob.MetaServer.State.{Service}
use sponge_bob.MetaServer.Consistent.{owned, Consistent}
use sponge_bob.MetaServer.Register.{Registered, register_memory_region_total}
use sponge_bob.Storage.{Pool, new_pool, new_storage_server}

uint16-lt : (id : ℤ) → uint16 id < 2 ^ 16
uint16-lt (pos n) = omega arith
uint16-lt (negsuc n) = omega arith

-- A storage server whose address has a node in a configuration file in which no two nodes have one
-- number or one address starts, in a consistent service in which no file holds blocks of it, on a
-- mapping that is not empty, begins at a multiple of the block size and ends below 2 ^ 64: it
-- succeeds, and the service, which stays consistent, has a space manager for the number of the node
-- with the whole blocks of the mapping, all of them free; the other managers and the files are as
-- before.
pub new_storage_server-Registered :
    (hash : String → ℕ) (rand : ℕ → ℕ) (memory : RdmaSocket) (settings : Settings) (k : ℕ) (id : ℤ)
    (ip : String) (base size : ℕ) {s : Service}
    → Consistent s
    → Separate settings.nodes
    → get_elem? settings.nodes k ≡ some (id, ip)
    → 0 < size
    → base + size < u64_mod
    → bit_and (sub64 file_block_size 1) base ≡ 0
    → ((b : ℕ) → owned (uint16 id) b s.inode_table.table ≡ 0)
    → (pool : Pool) × (r : RdmaSocket) × (s' : Service) × (new_storage_server
          (server_stub hash rand)
          memory
          settings
          ip
          (some base)
          size
          s
        ≡ ok ((pool, r), s'))
      × (get_node_id r ≡ uint16 id)
      × Registered (uint16 id) base size s s'
unfolding new_storage_server new_pool new_socket get_node_id MetaClient.register_memory_region
new_storage_server-Registered hash rand memory settings k id ip base size {s} c separate node
      some_bytes fits aligned unowned =
    let (_, found, _) = get_ip_by_id-get_id_by_ip settings k id ip separate node in
    let number : (get_id_by_ip ip (new_configuration settings)).0 ≡ uint16 id =
      ap (λ (p : ℕ × Configuration). p.0) found in
    let (s', run, done) =
      register_memory_region_total (uint16 id) base size c (omega (arith, uint16-lt id)) some_bytes
        fits aligned unowned in
    let run' = ap (λ t. Handlers.register_memory_region t base size s) number ∙ run in
    (
      new_pool (some base) size,
      new_socket memory 2 base (new_configuration settings) true 0 ip,
      s',
      rw (run', ◌>>=◌) refl,
      number,
      done,
    )
