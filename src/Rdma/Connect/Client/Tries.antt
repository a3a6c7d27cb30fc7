-- ===== src/Rdma/Connect/Client/Tries.antt =====
-- How often a connection is tried.
use sponge_bob.Prelude.{
  ℕ, zero, suc, ◌+◌, ◌<◌, ◌≡◌, ap, sym, ◌∙◌, ◌-◌, String, true, false, none, some, arith,
}
use sponge_bob.Containers.Table
use sponge_bob.Configuration.{get_ip_by_id}
use sponge_bob.Rdma.Types.{RdmaSocket}
use sponge_bob.Rdma.Connect.Types.{Net}
use sponge_bob.Rdma.Connect.Client.{connect_tries, socket_connect}

zero_add : (n : ℕ) → 0 + n ≡ n
zero_add n = omega arith

suc_add : (k n : ℕ) → suc k + n ≡ suc (k + n)
suc_add k n = omega arith

module _ {F : Type 0} (net : Net F) (sock : ℕ) (ip : String) (port : ℕ) where
  -- The next `k` calls of `connect` fail from `f` on, and leave `g`.
  pub data Fails (g : F) : ℕ → F → Type 0 where
    tried : Fails g 0 g
    fails :
        {f f' : F} {k : ℕ}
        → net.connect sock ip port f ≡ (false, f')
        → Fails g k f'
        → Fails g (suc k) f

  try_again :
      (n : ℕ) (f f' : F)
      → net.connect sock ip port f ≡ (false, f')
      → connect_tries net (suc n) sock ip port f ≡ connect_tries net n sock ip port f'
  unfolding connect_tries
  try_again n f f' e = ground (arith, e)

  last_try :
      (n : ℕ) (f f' : F)
      → net.connect sock ip port f ≡ (true, f')
      → connect_tries net (suc n) sock ip port f ≡ (true, f')
  unfolding connect_tries
  last_try n f f' e = ground (arith, e)

  tries_fail :
      (k n : ℕ) (f g : F)
      → Fails g k f
      → connect_tries net (k + n) sock ip port f ≡ connect_tries net n sock ip port g
  unfolding connect_tries
  tries_fail zero n f g tried = ap (λ t. connect_tries net t sock ip port g) (zero_add n)
  tries_fail (suc k) n f g (fails {f' = f'} e h) =
      ap (λ t. connect_tries net t sock ip port f) (suc_add k n)
      ∙ try_again (k + n) f f' e
      ∙ tries_fail k n f' g h

-- The configuration knows the address of the node: `SocketConnect` succeeds with the socket if
-- `connect` does after three failures at most, and gives up behind the fourth. It changes nothing of
-- the RDMA socket.
pub socket_connect_tries :
    {F : Type 0} (net : Net F) (node_id sock k : ℕ) (ip : String) (r : RdmaSocket) (f f1 g h : F)
    → Table.find node_id r.conf.id2ip ≡ some ip
    → net.socket f ≡ (some sock, f1)
    → Fails net sock ip r.server_port g k f1
    → ((k < 4)
        → net.connect sock ip r.server_port g ≡ (true, h)
        → socket_connect net node_id r f ≡ (some sock, r, h))
      × (k ≡ 4 → socket_connect net node_id r f ≡ (none, r, g))
unfolding socket_connect get_ip_by_id connect_tries
socket_connect_tries net node_id sock k ip r f f1 g h known created failed = (
  λ below last.
      let (n, q) : (n : ℕ) × (k + suc n ≡ 4) = (3 - k, omega (arith, below)) in
      let t : connect_tries net 4 sock ip r.server_port f1 ≡ (true, h) =
        ap (λ t. connect_tries net t sock ip r.server_port f1) (sym q)
        ∙ tries_fail net sock ip r.server_port k (suc n) f1 g failed
        ∙ last_try net sock ip r.server_port n g h last in
      ground (arith, known, created, t),
  λ all.
      let q : k + 0 ≡ 4 = omega (arith, all) in
      let t : connect_tries net 4 sock ip r.server_port f1 ≡ (false, g) =
        ap (λ t. connect_tries net t sock ip r.server_port f1) (sym q)
        ∙ tries_fail net sock ip r.server_port k 0 f1 g failed in
      ground (arith, known, created, t),
)
