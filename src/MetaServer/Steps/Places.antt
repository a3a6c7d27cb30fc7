-- ===== src/MetaServer/Steps/Places.antt =====
-- Where the bytes of files lie in the states that calls of the handlers lead to.
use sponge_bob.Prelude.{ℕ, ◌*◌, ◌<◌, ◌≡◌, String, some, List}
use sponge_bob.Containers.Table
use sponge_bob.Inode.{file_block_size}
use sponge_bob.SpaceManager.{SpaceManager}
use sponge_bob.MetaServer.State.{Service, new_service}
use sponge_bob.MetaServer.Register.{new_service-Consistent}
use sponge_bob.MetaServer.Abstract.{File, view, Call}
use sponge_bob.MetaServer.Disjoint.{places_differ, places_within}
use sponge_bob.MetaServer.Steps.{Reach}
use sponge_bob.MetaServer.Steps.Reached.{Reach-Consistent}

module _ (hash : String → ℕ) (rand : ℕ → ℕ) (n : ℕ) {t : Service} {calls : List Call}
    (run : Reach hash rand (new_service n) calls t) (k server : ℕ) (sm : SpaceManager)
    (registered : Table.find k t.space_manager ≡ some sm) (id : sm.server_id ≡ server) where
  -- Where calls that return have led from the new service, and byte `p` of the file of one name and
  -- byte `q` of the file of another lie at the same address of a registered server, the names have one
  -- hash and `p` is `q`: no block is given out twice. A write finds room and ends below 2 ^ 51, a new
  -- name finds a free inode, and the region that a server registers is aligned, not empty, ends below
  -- 2 ^ 64 and holds no file; the other calls are any.
  pub Reach-places_differ :
      (name other : String) (e e' : File) (p q a : ℕ)
      → view hash t name ≡ some e
      → view hash t other ≡ some e'
      → e.places p ≡ some (server, a)
      → e'.places q ≡ some (server, a)
      → (hash name ≡ hash other) × (p ≡ q)
  Reach-places_differ =
      places_differ (Reach-Consistent hash rand (new_service-Consistent n) run) k server sm
        registered id hash

  -- Where such calls have led from the new service, every byte of a file that lies on a registered
  -- server lies within the blocks of the region that the server registered: at an address, relative
  -- to the start of the region, below the number of its blocks times the size of a block.
  pub Reach-places_within :
      (name : String) (e : File) (p a : ℕ)
      → view hash t name ≡ some e
      → e.places p ≡ some (server, a)
      → a < sm.total_blocks * file_block_size
  Reach-places_within =
      places_within (Reach-Consistent hash rand (new_service-Consistent n) run) k server sm
        registered id hash
