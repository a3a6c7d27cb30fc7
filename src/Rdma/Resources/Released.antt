-- ===== src/Rdma/Resources/Released.antt =====
-- What an error of `CreateResources` leaves behind.
use sponge_bob.Prelude.{ℕ, ◌≡◌, Bool, true, false, Option, none, some, arith}
use sponge_bob.Rdma.Resources.{
  Handles, Device, create_on, create_resources, clean_up, destroy_peers, resources_destroy,
}
use sponge_bob.Containers.Table.{Table}
use sponge_bob.Rdma.Types.{PeerSockData}

-- Whether the handles are there, as the result says.
abbrev there : Option ℕ → Bool
there none = false
there (some x) = true

-- The handles that a result of `CreateResources` comes with.
pub record Answers (done : Bool) (h : Handles) : Type 0 where
  pub device : there h.ctx ≡ done
  pub domain : there h.pd ≡ done
  pub memory : done ≡ true → there h.mr ≡ true

module _ {F : Type 0} (device : Device F) where
  -- `CreateResources` either answers true, with a device, a protection domain and a registered memory,
  -- or answers false, with neither a device nor a protection domain left, whatever the library
  -- answers.
  pub create_resources-Answers :
      (port mm mm_size : ℕ) (h : Handles) (f : F)
      → Answers
          (create_resources device port mm mm_size h f).0
          (create_resources device port mm mm_size h f).1
  unfolding create_resources create_on clean_up
  create_resources-Answers port mm mm_size h f = record {
    device = ground arith;
    domain = ground arith;
    memory = λ e. ground (arith, e);
  }

  -- `ResourcesDestroy` of a socket that has all its handles answers true where the protection domain
  -- and the device are released, also if the memory is not: `b`, whether it was, does not matter.
  pub resources_destroy_memory :
      (server_count mr pd ctx : ℕ) (peers : Table PeerSockData) (h : Handles) (f f1 f2 f3 : F)
      (b : Bool)
      → h.mr ≡ some mr
      → h.pd ≡ some pd
      → h.ctx ≡ some ctx
      → device.dereg_mr mr (destroy_peers device server_count 1 peers f) ≡ (b, f1)
      → device.dealloc_pd pd f1 ≡ (true, f2)
      → device.close_device ctx f2 ≡ (true, f3)
      → resources_destroy device server_count peers h f ≡ (true, f3)
  unfolding resources_destroy
  resources_destroy_memory server_count mr pd ctx peers h f f1 f2 f3 b m p c dereg dealloc close =
      ground (arith, m, p, c, dereg, dealloc, close)
