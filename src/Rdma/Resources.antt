-- ===== src/Rdma/Resources.antt =====
-- `CreateResources` and `ResourcesDestroy`: the handles of the device, of its protection domain and of
-- the registered memory. libibverbs is a parameter, `Device`.
pub mod Released
use sponge_bob.Prelude.{
  ℕ, zero, suc, ◌+◌, ◌==◌, String, Bool, true, false, Option, none, some, List, [], ◌∷◌, ltb, not,
  if◌then◌else◌, get_elem?, set, length,
}
use sponge_bob.Result.{Result, ok, fault, out_of_range, or_fault, ◌>>=◌}
use sponge_bob.Containers.Table
use sponge_bob.Containers.Table.{Table}
use sponge_bob.Rdma.Types.{RdmaSocket, PeerSockData, qps_max_depth}

-- The members that the two functions set; nothing stands for a null pointer.
pub record Handles : Type 0 where
  pub device_name : Option String
  pub ctx : Option ℕ
  pub pd : Option ℕ
  pub mr : Option ℕ
  pub cq : List (Option ℕ)

-- The library's calls: nothing stands for a null pointer, and true for a call that returns 0.
-- `find_device` stands for the search in the list of devices: the device of the name, or the first if
-- there is no name, with its name. `reg_mr` registers with all rights.
pub record Device (F : Type 0) : Type 0 where
  pub get_device_list : F → Option ℕ × F
  pub find_device : ℕ → Option String → F → Option (ℕ × String)
  pub open_device : ℕ → F → Option ℕ × F
  pub free_device_list : F → F
  pub query_port : ℕ → ℕ → F → Bool × F
  pub create_cq : ℕ → ℕ → F → Option ℕ × F
  pub alloc_pd : ℕ → F → Option ℕ × F
  pub reg_mr : ℕ → ℕ → ℕ → F → Option ℕ × F
  pub destroy_cq : ℕ → F → F
  pub dealloc_pd : ℕ → F → Bool × F
  pub close_device : ℕ → F → Bool × F
  pub dereg_mr : ℕ → F → Bool × F
  pub destroy_qp : ℕ → F → F

module _ {F : Type 0} (device : Device F) where
  -- The loop that makes the completion queues: the rest of the list, and whether all were made.
  unfoldable pub create_cqs : ℕ → List (Option ℕ) → F → Bool × List (Option ℕ) × F
  create_cqs ctx [] f = (true, [], f)
  create_cqs ctx (old ∷ rest) f =
      let (made, f1) = device.create_cq ctx qps_max_depth f in
      elim made [
        | none ↦ (false, none ∷ rest, f1)
        | some cq ↦ let (all, rest', f2) = create_cqs ctx rest f1 in (all, some cq ∷ rest', f2)
      ]

  unfoldable pub destroy_cqs : List (Option ℕ) → F → F
  destroy_cqs [] f = f
  destroy_cqs (none ∷ rest) f = destroy_cqs rest f
  destroy_cqs (some cq ∷ rest) f = destroy_cqs rest (device.destroy_cq cq f)

  abbrev release_pd : Option ℕ → F → F
  release_pd none f = f
  release_pd (some pd) f = (device.dealloc_pd pd f).1

  abbrev release_ctx : Option ℕ → F → F
  release_ctx none f = f
  release_ctx (some ctx) f = (device.close_device ctx f).1

  abbrev release_list : Bool → F → F
  release_list listed f = if listed then device.free_device_list f else f

  -- `CreateResourcesExit` after an error; `listed` says whether there still is a device list.
  unfoldable pub clean_up : Bool → Handles → F → Bool × Handles × F
  unfolding destroy_cqs
  clean_up listed h f = (
    false,
    record h { pd = none; ctx = none },
    release_list listed (release_ctx h.ctx (release_pd h.pd (destroy_cqs h.cq f))),
  )

  -- The part with an open device.
  unfoldable pub create_on : ℕ → ℕ → ℕ → ℕ → Handles → F → Bool × Handles × F
  unfolding create_cqs clean_up
  create_on ctx port mm mm_size h f =
      let (queried, f1) = device.query_port ctx port f in
      elim queried [
        | false ↦ clean_up false h f1
        | true ↦
            let (all, cq, f2) = create_cqs ctx h.cq f1 in
            let h2 = record h { cq = cq } in
            elim all [
              | false ↦ clean_up false h2 f2
              | true ↦
                  let (allocated, f3) = device.alloc_pd ctx f2 in
                  let h3 = record h2 { pd = allocated } in
                  elim allocated [
                    | none ↦ clean_up false h3 f3
                    | some pd ↦
                        let (registered, f4) = device.reg_mr pd mm mm_size f3 in
                        let h4 = record h3 { mr = registered } in
                        elim registered [ none ↦ clean_up false h4 f4 | some mr ↦ (true, h4, f4) ]
                  ]
            ]
      ]

  -- `CreateResources`
  unfoldable pub create_resources : ℕ → ℕ → ℕ → Handles → F → Bool × Handles × F
  unfolding create_on clean_up
  create_resources port mm mm_size h f =
      let (listed, f1) = device.get_device_list f in
      elim listed [
        | none ↦ clean_up false h f1
        | some count ↦ elim (count == 0) [
          | true ↦ clean_up true h f1
          | false ↦ elim (device.find_device count h.device_name f1) [
            | none ↦ clean_up true h f1
            | some (dev, name) ↦
                let (opened, f2) = device.open_device dev f1 in
                let h2 = record h { device_name = some name; ctx = opened } in
                elim opened [
                  | none ↦ clean_up true h2 f2
                  | some ctx ↦ create_on ctx port mm mm_size h2 (device.free_device_list f2)
                ]
          ]
        ]
      ]

  -- `ibv_destroy_qp` of the pairs of a peer. That the peers' memory is freed is left out: nothing is
  -- read behind it.
  unfoldable pub destroy_pairs : List ℕ → F → F
  destroy_pairs [] f = f
  destroy_pairs (qp ∷ qps) f = destroy_pairs qps (device.destroy_qp qp f)

  -- The loop over the numbers of the servers, from `i` on.
  unfoldable pub destroy_peers : ℕ → ℕ → Table PeerSockData → F → F
  unfolding destroy_pairs
  destroy_peers zero i peers f = f
  destroy_peers (suc n) i peers f = elim (Table.find i peers) [
    | none ↦ destroy_peers n (i + 1) peers f
    | some peer ↦ destroy_peers n (i + 1) peers (destroy_pairs peer.qp f)
  ]

  -- `rc` of `ResourcesDestroy` behind one call: an error of `ibv_dereg_mr` sets it to 1, which is true.
  abbrev deregister : Option ℕ → F → Bool × F
  deregister none f = (true, f)
  deregister (some mr) f = (true, (device.dereg_mr mr f).1)

  abbrev deallocate : Option ℕ → Bool → F → Bool × F
  deallocate none rc f = (rc, f)
  deallocate (some pd) rc f =
      let (done, f') = device.dealloc_pd pd f in ((if done then rc else false), f')

  abbrev close : Option ℕ → Bool → F → Bool × F
  close none rc f = (rc, f)
  close (some ctx) rc f =
      let (done, f') = device.close_device ctx f in ((if done then rc else false), f')

  -- `ResourcesDestroy`
  unfoldable pub resources_destroy : ℕ → Table PeerSockData → Handles → F → Bool × F
  unfolding destroy_peers
  resources_destroy server_count peers h f =
      let (rc, f1) = deregister h.mr (destroy_peers server_count 1 peers f) in
      let (rc', f2) = deallocate h.pd rc f1 in close h.ctx rc' f2
