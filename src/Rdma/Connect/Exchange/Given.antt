-- ===== src/Rdma/Connect/Exchange/Given.antt =====
-- The node numbers that server 1 gives to the clients.
use sponge_bob.Prelude.{◌+◌, ◌^◌, ◌<◌, ◌≡◌, true, false, arith}
use sponge_bob.Rdma.Types.{RdmaSocket, PeerSockData}
use sponge_bob.Rdma.Connect.Exchange.{local_id, take_id}

-- Server 1 and a client exchange their identities while `MaxNodeID` is not 0 and below 2 ^ 16 - 1: the
-- client takes the number under which the server files it, which is `MaxNodeID`, and the next client
-- gets a number that is greater by one. Nothing else changes at either end.
pub take_id-local_id :
    (server client : RdmaSocket) (at_server at_client : PeerSockData)
    → server.is_server ≡ true
    → server.my_node_id ≡ 1
    → client.is_server ≡ false
    → 0 < server.max_node_id
    → server.max_node_id + 1 < 2 ^ 16
    → (take_id (local_id client) at_server server ≡ (
      record at_server { node_id = server.max_node_id },
      record server { max_node_id = server.max_node_id + 1 },
    ))
      × (take_id (local_id server) at_client client
          ≡ (at_client, record client { my_node_id = server.max_node_id }))
unfolding take_id local_id
take_id-local_id server client at_server at_client s one c low high =
    (ground (arith, s, one, c, low, high), ground (arith, s, one, c, low, high))
