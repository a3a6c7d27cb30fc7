-- ===== src/Rdma/Connect/Pairs.antt =====
-- `CreateQueuePair` and the three `ModifyQPto…`: a queue pair, and its way to being ready.
pub mod Queues
pub mod Ready
use sponge_bob.Prelude.{
  ℕ, ◌+◌, ◌==◌, Bool, true, false, Option, none, some, List, [], ◌∷◌, ◌++◌, ltb, leb, ◌&&◌,
  if◌then◌else◌, get_elem?, set,
}
use sponge_bob.Result.{Result, ok, fault, out_of_range, null_pointer, or_fault, ◌>>=◌}
use sponge_bob.Rdma.Types.{RdmaSocket, PeerSockData, qps_max_depth}
use sponge_bob.Rdma.Connect.Types.{
  QpType, unset, rc, uc, QpInitAttr, QpAttr, QpState, reset, init, rtr, rts, Access, remote_read,
  remote_write, remote_atomic, Mask, state_mask, pkey_index_mask, port_mask, access_flags_mask,
  av_mask, path_mtu_mask, dest_qpn_mask, rq_psn_mask, max_dest_rd_atomic_mask, min_rnr_timer_mask,
  sq_psn_mask, timeout_mask, retry_cnt_mask, rnr_retry_mask, max_qp_rd_atomic_mask, Net,
}

-- `cqPtr` of a server behind a client's queue pair.
abbrev pub server_ptr : ℕ → RdmaSocket → ℕ
server_ptr offset r =
    if offset == 0 then if leb r.cq_num (r.cq_ptr + 1) then 1 else r.cq_ptr + 1 else r.cq_ptr

-- Which completion queue a queue pair gets, and `cqPtr` behind it: another server's the first; a
-- client's first pair the next one but the first, its others the same; at a client the current one.
unfoldable pub choose_cq : PeerSockData → ℕ → RdmaSocket → ℕ × RdmaSocket
choose_cq peer offset r =
    if r.is_server && (ltb 0 peer.node_id && leb peer.node_id r.server_count)
    then (0, r)
    else if r.is_server
    then (server_ptr offset r, record r { cq_ptr = server_ptr offset r })
    else (r.cq_ptr, record r { cq_ptr = if leb r.cq_num (r.cq_ptr + 1) then 0 else r.cq_ptr + 1 })

-- `attr` of `CreateQueuePair`.
abbrev pub init_attr : ℕ → RdmaSocket → QpInitAttr
init_attr cq r = record {
  qp_type = if r.mode == 0 then rc else if r.mode == 1 then uc else unset;
  sq_sig_all = 0;
  send_cq = cq;
  recv_cq = cq;
  max_send_wr = qps_max_depth;
  max_recv_wr = qps_max_depth;
  max_send_sge = 1;
  max_recv_sge = 1;
  max_inline_data = 0;
}

-- `memset(&attr, 0, sizeof(attr))`
abbrev pub zero_attr : QpAttr
zero_attr = record {
  qp_state = reset;
  port_num = 0;
  pkey_index = 0;
  qp_access_flags = [];
  path_mtu = 0;
  dest_qp_num = 0;
  rq_psn = 0;
  ah_is_global = 0;
  ah_dlid = 0;
  ah_sl = 0;
  ah_src_path_bits = 0;
  ah_port_num = 0;
  max_dest_rd_atomic = 0;
  min_rnr_timer = 0;
  sq_psn = 0;
  timeout = 0;
  retry_cnt = 0;
  rnr_retry = 0;
  max_rd_atomic = 0;
}

-- `IBV_MTU_4096`
abbrev mtu_4096 : ℕ
mtu_4096 = 5

-- `attr` and `flags` of `ModifyQPtoInit`.
abbrev pub to_init_attr : RdmaSocket → QpAttr
to_init_attr r = record zero_attr {
  qp_state = init;
  port_num = r.port;
  pkey_index = 0;
  qp_access_flags =
      if r.mode == 0
      then remote_read ∷ remote_write ∷ remote_atomic ∷ []
      else if r.mode == 1
      then remote_write ∷ []
      else [];
}

abbrev pub to_init_masks : List Mask
to_init_masks = state_mask ∷ pkey_index_mask ∷ port_mask ∷ access_flags_mask ∷ []

-- `attr` and `flags` of `ModifyQPtoRTR`.
abbrev pub to_rtr_attr : ℕ → ℕ → RdmaSocket → QpAttr
to_rtr_attr remote_qpn dlid r = record zero_attr {
  qp_state = rtr;
  path_mtu = mtu_4096;
  dest_qp_num = remote_qpn;
  rq_psn = 3185;
  ah_is_global = 0;
  ah_dlid = dlid;
  ah_sl = 0;
  ah_src_path_bits = 0;
  ah_port_num = r.port;
  max_dest_rd_atomic = if r.mode == 0 then 16 else 0;
  min_rnr_timer = if r.mode == 0 then 12 else 0;
}

abbrev pub to_rtr_masks : RdmaSocket → List Mask
to_rtr_masks r =
    state_mask
    ∷ av_mask
    ∷ path_mtu_mask
    ∷ dest_qpn_mask
    ∷ rq_psn_mask
    ∷ (if r.mode == 0 then max_dest_rd_atomic_mask ∷ min_rnr_timer_mask ∷ [] else [])

-- `attr` and `flags` of `ModifyQPtoRTS`.
abbrev pub to_rts_attr : RdmaSocket → QpAttr
to_rts_attr r = record zero_attr {
  qp_state = rts;
  sq_psn = 3185;
  timeout = if r.mode == 0 then 14 else 0;
  retry_cnt = if r.mode == 0 then 7 else 0;
  rnr_retry = if r.mode == 0 then 7 else 0;
  max_rd_atomic = if r.mode == 0 then 16 else 0;
  max_dest_rd_atomic = if r.mode == 0 then 16 else 0;
}

abbrev pub to_rts_masks : RdmaSocket → List Mask
to_rts_masks r =
    state_mask
    ∷ sq_psn_mask
    ∷ (if r.mode == 0
        then timeout_mask ∷ retry_cnt_mask ∷ rnr_retry_mask ∷ max_qp_rd_atomic_mask ∷ []
        else [])

module _ {F : Type 0} (net : Net F) where
  -- `CreateQueuePair`: the number of the pair is read for the log before it is tested for null, so that
  -- the call never returns false.
  unfoldable pub create_queue_pair :
      PeerSockData → ℕ → RdmaSocket → F → Result (PeerSockData × RdmaSocket × F)
  unfolding choose_cq
  create_queue_pair peer offset r f = do
    let (index, r') = choose_cq peer offset r
    cq ← or_fault (get_elem? r.cq index) out_of_range
    let (created, f') = net.create_qp (init_attr cq r) f
    qp ← or_fault created null_pointer
    ok (record peer { cq = cq; qp = set peer.qp offset qp }, r', f')

  -- `ModifyQPtoInit`
  unfoldable pub modify_qp_to_init : ℕ → RdmaSocket → F → Bool × F
  modify_qp_to_init qp r f = net.modify_qp qp (to_init_attr r) to_init_masks f

  -- `ModifyQPtoRTR`; the identifier of the other port is not used.
  unfoldable pub modify_qp_to_rtr : ℕ → ℕ → ℕ → RdmaSocket → F → Bool × F
  modify_qp_to_rtr qp remote_qpn dlid r f =
      net.modify_qp qp (to_rtr_attr remote_qpn dlid r) (to_rtr_masks r) f

  -- `ModifyQPtoRTS`
  unfoldable pub modify_qp_to_rts : ℕ → RdmaSocket → F → Bool × F
  modify_qp_to_rts qp r f = net.modify_qp qp (to_rts_attr r) (to_rts_masks r) f

  -- A round of the loop that makes the pairs of `ConnectQueuePair` ready.
  unfoldable pub ready_pair : ℕ → ℕ → ℕ → RdmaSocket → F → Bool × F
  unfolding modify_qp_to_init modify_qp_to_rtr modify_qp_to_rts
  ready_pair qp remote_qpn dlid r f =
      let (initialised, f1) = modify_qp_to_init qp r f in
      elim initialised [
        | true ↦
            let (receiving, f2) = modify_qp_to_rtr qp remote_qpn dlid r f1 in
            elim receiving [ true ↦ modify_qp_to_rts qp r f2 | false ↦ (false, f2) ]
        | false ↦ (false, f1)
      ]
