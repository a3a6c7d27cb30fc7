-- ===== src/Rdma/Connect/Types.antt =====
-- What the connections exchange, and the calls that they make.
use sponge_bob.Prelude.{ℕ, String, Bool, Option, List, ℤ}

-- `ExchangeID`
pub record ExchangeId : Type 0 where
  pub node_id : ℕ
  pub is_server : Bool
  pub given_id : ℕ

pub record ExchangeMeta : Type 0 where
  pub rkey : ℕ
  pub qp_num : List ℕ
  pub lid : ℕ
  pub gid : List ℕ
  pub registered_memory : ℕ
  pub node_id : ℕ

-- The bytes of the values of a struct, as the compiler lays them out, and the value that bytes stand
-- for.
pub record Layout (A : Type 0) : Type 0 where
  pub size : ℕ
  pub to_bytes : A → List ℕ
  pub of_bytes : List ℕ → A

-- `ibv_qp_type`; `unset` is the 0 that `memset` leaves.
pub data QpType : Type 0 where
  unset rc uc : QpType

-- `ibv_qp_init_attr`
pub record QpInitAttr : Type 0 where
  pub qp_type : QpType
  pub sq_sig_all : ℕ
  pub send_cq : ℕ
  pub recv_cq : ℕ
  pub max_send_wr : ℕ
  pub max_recv_wr : ℕ
  pub max_send_sge : ℕ
  pub max_recv_sge : ℕ
  pub max_inline_data : ℕ

-- `ibv_qp_state`, as far as the connections set it
pub data QpState : Type 0 where
  reset init rtr rts : QpState

-- `ibv_access_flags`
pub data Access : Type 0 where
  local_write remote_read remote_write remote_atomic : Access

-- `ibv_qp_attr_mask`
pub data Mask : Type 0 where
  state_mask pkey_index_mask port_mask access_flags_mask : Mask
  av_mask path_mtu_mask dest_qpn_mask rq_psn_mask max_dest_rd_atomic_mask min_rnr_timer_mask : Mask
  sq_psn_mask timeout_mask retry_cnt_mask rnr_retry_mask max_qp_rd_atomic_mask : Mask

-- `ibv_qp_attr`, as far as the connections set it; the fields of `ah_attr` begin with `ah`.
pub record QpAttr : Type 0 where
  pub qp_state : QpState
  pub port_num : ℕ
  pub pkey_index : ℕ
  pub qp_access_flags : List Access
  pub path_mtu : ℕ
  pub dest_qp_num : ℕ
  pub rq_psn : ℕ
  pub ah_is_global : ℕ
  pub ah_dlid : ℕ
  pub ah_sl : ℕ
  pub ah_src_path_bits : ℕ
  pub ah_port_num : ℕ
  pub max_dest_rd_atomic : ℕ
  pub min_rnr_timer : ℕ
  pub sq_psn : ℕ
  pub timeout : ℕ
  pub retry_cnt : ℕ
  pub rnr_retry : ℕ
  pub max_rd_atomic : ℕ

-- `read`: the bytes, none at the end of the stream, or a negative number.
pub data Answer : Type 0 where
  bytes : List ℕ → Answer
  failed : ℕ → Answer

-- The calls on a fabric `F`. `modify_qp` answers whether it returns 0; `query_gid` the identifier, or
-- nothing if it does not return 0; `write` its result; `socket` and `accept` a descriptor, or nothing
-- for a negative one; `connect` whether it succeeds.
pub record Net (F : Type 0) : Type 0 where
  pub create_qp : QpInitAttr → F → Option ℕ × F
  pub qp_num : ℕ → F → ℕ
  pub modify_qp : ℕ → QpAttr → List Mask → F → Bool × F
  pub query_gid : ℕ → ℤ → F → Option (List ℕ) × F
  pub write : ℕ → List ℕ → F → ℤ × F
  pub read : ℕ → ℕ → F → Answer × F
  pub socket : F → Option ℕ × F
  pub connect : ℕ → String → ℕ → F → Bool × F
  pub accept : ℕ → F → Option ℕ × F
