-- ===== src/Rdma/Connect/Pairs/Ready.antt =====
-- The way of a queue pair to being ready to send, on a device that follows the documentation of
-- `ibv_modify_qp`.
use sponge_bob.Prelude.{
  ℕ, ◌^◌, ◌≤◌, ◌<◌, ◌≡◌, ◌≢◌, Bool, true, false, List, [], ◌∷◌, ◌==◌, ◌&&◌, ◌||◌, if◌then◌else◌,
}
use sponge_bob.Rdma.Types.{RdmaSocket}
use sponge_bob.Rdma.Connect.Types.{
  QpAttr, remote_read, remote_write, remote_atomic, QpState, reset, init, rtr, rts, Mask,
  state_mask, pkey_index_mask, port_mask, access_flags_mask, av_mask, path_mtu_mask, dest_qpn_mask,
  rq_psn_mask, max_dest_rd_atomic_mask, min_rnr_timer_mask, sq_psn_mask, timeout_mask,
  retry_cnt_mask, rnr_retry_mask, max_qp_rd_atomic_mask, Net,
}

-- The bit of a flag.
abbrev bit : Mask → ℕ
bit state_mask = 0
bit access_flags_mask = 3
bit pkey_index_mask = 4
bit port_mask = 5
bit av_mask = 7
bit path_mtu_mask = 8
bit timeout_mask = 9
bit retry_cnt_mask = 10
bit rnr_retry_mask = 11
bit rq_psn_mask = 12
bit max_qp_rd_atomic_mask = 13
bit min_rnr_timer_mask = 15
bit sq_psn_mask = 16
bit max_dest_rd_atomic_mask = 17
bit dest_qpn_mask = 20

abbrev has : Mask → List Mask → Bool
has m [] = false
has m (x ∷ xs) = (bit m == bit x) || has m xs

abbrev pub has_all : List Mask → List Mask → Bool
has_all [] xs = true
has_all (m ∷ ms) xs = has m xs && has_all ms xs

-- The attributes that a change to a state needs: of a reliable connection for mode 0, else of an
-- unreliable one.
abbrev pub needs : ℕ → QpState → List Mask
needs mode reset = state_mask ∷ []
needs mode init = state_mask ∷ pkey_index_mask ∷ port_mask ∷ access_flags_mask ∷ []
needs mode rtr =
    state_mask
    ∷ av_mask
    ∷ path_mtu_mask
    ∷ dest_qpn_mask
    ∷ rq_psn_mask
    ∷ (if mode == 0 then max_dest_rd_atomic_mask ∷ min_rnr_timer_mask ∷ [] else [])
needs mode rts =
    state_mask
    ∷ sq_psn_mask
    ∷ (if mode == 0
        then max_qp_rd_atomic_mask ∷ retry_cnt_mask ∷ rnr_retry_mask ∷ timeout_mask ∷ []
        else [])

-- The state that a change starts from.
abbrev pub before : QpState → QpState
before reset = reset
before init = reset
before rtr = init
before rts = rtr

-- The attributes of a queue pair behind a change: those that the flags name are new.
abbrev pub changed : QpAttr → List Mask → QpAttr → QpAttr
changed attr masks old = record {
  qp_state = if has state_mask masks then attr.qp_state else old.qp_state;
  port_num = if has port_mask masks then attr.port_num else old.port_num;
  pkey_index = if has pkey_index_mask masks then attr.pkey_index else old.pkey_index;
  qp_access_flags =
      if has access_flags_mask masks then attr.qp_access_flags else old.qp_access_flags;
  path_mtu = if has path_mtu_mask masks then attr.path_mtu else old.path_mtu;
  dest_qp_num = if has dest_qpn_mask masks then attr.dest_qp_num else old.dest_qp_num;
  rq_psn = if has rq_psn_mask masks then attr.rq_psn else old.rq_psn;
  ah_is_global = if has av_mask masks then attr.ah_is_global else old.ah_is_global;
  ah_dlid = if has av_mask masks then attr.ah_dlid else old.ah_dlid;
  ah_sl = if has av_mask masks then attr.ah_sl else old.ah_sl;
  ah_src_path_bits = if has av_mask masks then attr.ah_src_path_bits else old.ah_src_path_bits;
  ah_port_num = if has av_mask masks then attr.ah_port_num else old.ah_port_num;
  max_dest_rd_atomic =
      if has max_dest_rd_atomic_mask masks then attr.max_dest_rd_atomic else old.max_dest_rd_atomic;
  min_rnr_timer = if has min_rnr_timer_mask masks then attr.min_rnr_timer else old.min_rnr_timer;
  sq_psn = if has sq_psn_mask masks then attr.sq_psn else old.sq_psn;
  timeout = if has timeout_mask masks then attr.timeout else old.timeout;
  retry_cnt = if has retry_cnt_mask masks then attr.retry_cnt else old.retry_cnt;
  rnr_retry = if has rnr_retry_mask masks then attr.rnr_retry else old.rnr_retry;
  max_rd_atomic = if has max_qp_rd_atomic_mask masks then attr.max_rd_atomic else old.max_rd_atomic;
}

-- The values that a change to a state may give, on port `port` of a device with `pkeys` partition keys
-- and `rd_atomic` atomic operations and reads at a time.
abbrev pub Fits : ℕ → ℕ → ℕ → QpAttr → QpState → Type 0
Fits port pkeys rd_atomic attr reset = Unit {0}
Fits port pkeys rd_atomic attr init = (attr.port_num ≡ port) × (attr.pkey_index < pkeys)
Fits port pkeys rd_atomic attr rtr =
    (attr.ah_port_num ≡ port)
    × (attr.ah_dlid < 2 ^ 16)
    × (attr.dest_qp_num < 2 ^ 24)
    × (attr.rq_psn < 2 ^ 24)
    × (1 ≤ attr.path_mtu)
    × (attr.path_mtu ≤ 5)
    × (attr.max_dest_rd_atomic ≤ rd_atomic)
    × (attr.min_rnr_timer < 32)
Fits port pkeys rd_atomic attr rts =
    (attr.sq_psn < 2 ^ 24)
    × (attr.timeout < 32)
    × (attr.retry_cnt < 8)
    × (attr.rnr_retry < 8)
    × (attr.max_rd_atomic ≤ rd_atomic)

-- The attributes behind the three changes.
pub record IsReady (r : RdmaSocket) (remote_qpn dlid : ℕ) (attr : QpAttr) : Type 0 where
  pub state : attr.qp_state ≡ rts
  pub port : attr.port_num ≡ r.port
  pub path_port : attr.ah_port_num ≡ r.port
  pub path_lid : attr.ah_dlid ≡ dlid
  pub other_end : attr.dest_qp_num ≡ remote_qpn
  -- the numbers that the packets start from are those that the other end waits for
  pub sends_from : attr.sq_psn ≡ 3185
  pub waits_for : attr.rq_psn ≡ 3185
  pub access : r.mode ≡ 0 → attr.qp_access_flags ≡ remote_read ∷ remote_write ∷ remote_atomic ∷ []
  pub write_access : r.mode ≡ 1 → attr.qp_access_flags ≡ remote_write ∷ []

module _ {F : Type 0} (net : Net F) where
  -- A device, of which the port `port` is used, and the attributes of its queue pairs. A change from
  -- the state before it, with the attributes that it needs and values that fit, succeeds and sets what
  -- the flags name; the other queue pairs are as before.
  pub record Device (mode : ℕ) : Type 0 where
    pub port : ℕ
    pub pkeys : ℕ
    pub rd_atomic : ℕ
    pub attrs : ℕ → F → QpAttr
    pub modifies :
        (qp : ℕ) (attr : QpAttr) (masks : List Mask) (f : F)
        → (attrs qp f).qp_state ≡ before attr.qp_state
        → has_all (needs mode attr.qp_state) masks ≡ true
        → Fits port pkeys rd_atomic attr attr.qp_state
        → (f' : F) × (net.modify_qp qp attr masks f ≡ (true, f'))
          × (attrs qp f' ≡ changed attr masks (attrs qp f))
          × ((q : ℕ) → q ≢ qp → attrs q f' ≡ attrs q f)
