-- ===== src/Client/Start.antt =====
-- The constructor of `Client`: it makes the buffer and the socket, and connects to every node.
use sponge_bob.Prelude.{ℕ, false}
use sponge_bob.Result.{Result}
use sponge_bob.Configuration.{Settings, new_configuration}
use sponge_bob.Rdma.Types.{RdmaSocket, PeerSockData, Verbs}
use sponge_bob.Rdma.Connect.Types.{ExchangeId, ExchangeMeta, Layout, Net}
use sponge_bob.Rdma.Connect.Exchange.{Locals}
use sponge_bob.Rdma.Connect.Client.{rdma_connect}
use sponge_bob.Rdma.Start.{new_socket}

module _ {F : Type 0} (net : Net F) (verbs : Verbs F) (ids : Layout ExchangeId)
    (metas : Layout ExchangeMeta) (reads : ℕ) (malloced : F → PeerSockData)
    (locals : F → Locals) where
  -- `Client`: `memory` is what the members of the socket hold before it is made, and `buffer` the address
  -- of the buffer. The channel of the metadata client is a parameter where it is used.
  unfoldable pub new_client : RdmaSocket → ℕ → Settings → F → Result (RdmaSocket × F)
  unfolding new_socket rdma_connect
  new_client memory buffer settings f =
      rdma_connect net verbs ids metas reads malloced locals
        (new_socket memory 1 buffer (new_configuration settings) false 0 "") f
