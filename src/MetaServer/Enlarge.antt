-- ===== src/MetaServer/Enlarge.antt =====
-- One block for a file is taken from a space manager, and from no other file.
pub mod Rounds
use Prim.Native.Nat.{◌%◌}
use sponge_bob.Prelude.{
  ℕ, zero, suc, ◌+◌, ◌-◌, ◌*◌, ◌/◌, ◌^◌, ◌≤◌, ◌<◌, ◌≡◌, refl, ap, sym, subst, ◌∙◌, ◌≢◌, ◌⊎◌, String,
  Bool, true, false, Option, none, some, List, [], ◌∷◌, ◌++◌, arith, ltb, ◌==◌, ==_iff,
  if◌then◌else◌, length, count, indicator, get_elem?, u64_mod, u64_of_int, u64_of_int-injective,
  add64, sub64, mul64, Bool-cases, inl, inr, length-append, count-append,
}
use sponge_bob.Result.{ok, fault, or_fault, ◌>>=◌}
use sponge_bob.Containers.Table
use sponge_bob.Containers.Table.{Table, keys, find-assign_in_order}
use sponge_bob.Inode.{Inode, BlockInfo, file_block_size, append_file_block_info, get_block_num}
use sponge_bob.SpaceManager
use sponge_bob.SpaceManager.{SpaceManager}
use sponge_bob.SpaceManager.Partition.{Takes, allocate_one_block_room, blocks_on, blocks_on-append}
use sponge_bob.MetaServer.Transfer.Total.{Addressable}
use sponge_bob.MetaServer.State.{
  Service, nth_key, int_rounds, choose_server, append_block, append_blocks, enlarge,
}
use sponge_bob.MetaServer.Consistent.{Managed, Spaces, owned, owned-assign}

-- Every space manager has at least `n` blocks left, and there is one.
pub record Room (n : ℕ) (sms : Table SpaceManager) : Type 0 where
  pub some_server : 0 < length sms
  pub at :
      (k : ℕ) (sm : SpaceManager) → Table.find k sms ≡ some sm → sm.cur_blocks + n ≤ sm.total_blocks

-- The key at a place of the map is a key of the map.
pub find-nth_key :
    (r : ℕ) (m : Table SpaceManager)
    → r < length m
    → (sm : SpaceManager) × (Table.find (nth_key r m) m ≡ some sm)
unfolding nth_key Table.find
find-nth_key r [] h = elim h [ ]
find-nth_key zero ((k, sm) ∷ m) h = (sm, ground arith)
find-nth_key (suc r) ((k, sm) ∷ m) h = elim (Bool-cases (k == nth_key r m)) [
  | inl e ↦ (sm, rw e refl)
  | inr e ↦ let (sm', f) = find-nth_key r m (omega arith) in (sm', rw e f)
]

length-assign_in_order :
    (k : ℕ) (sm : SpaceManager) (m : Table SpaceManager)
    → 0 < length m
    → 0 < length (Table.assign_in_order k sm m)
unfolding Table.assign_in_order
length-assign_in_order k sm [] h = elim h [ ]
length-assign_in_order k sm ((j, w) ∷ m) h = ground arith

-- One block more in the inode that is stored under `inum`.
owned_appended :
    (t c inum : ℕ) (i i' old : Inode) (info : BlockInfo) (m : Table Inode)
    → Table.find inum m ≡ some old
    → i'.block_info_list ≡ i.block_info_list ++ info ∷ []
    → owned t c (Table.assign inum i' m)
      ≡ owned t c (Table.assign inum i m)
        + (if info.server_id == t then indicator (info.block_nr == c) else 0)
owned_appended t c inum i i' old info m found e = ground (
  arith,
  owned-assign t c inum i old m found,
  owned-assign t c inum i' old m found,
  ap (λ l. count c (blocks_on t l)) e,
  ap (count c) (blocks_on-append t i.block_info_list (info ∷ [])),
  count-append c (blocks_on t i.block_info_list) (blocks_on t (info ∷ [])),
)

module _ (m : Table Inode) (inum : ℕ) (i i' old : Inode) (found : Table.find inum m ≡ some old)
    (k b : ℕ) (sm sm' : SpaceManager) (sms : Table SpaceManager) (t : Takes sm b sm')
    (here : Table.find k sms ≡ some sm) (sp : Spaces (Table.assign inum i m) sms) (info : BlockInfo)
    (e : i'.block_info_list ≡ i.block_info_list ++ info ∷ []) (on : info.server_id ≡ u64_of_int k)
    (nr : info.block_nr ≡ b) where
  Managed-here : Managed (Table.assign inum i' m) k sm'
  Managed-here =
      let g = sp.at k sm here in
      record {
        key = g.key;
        id = t.same.server_id ∙ g.id;
        valid = t.valid;
        reach = omega (arith, g.reach, t.same.total_blocks);
        used = λ c.
            let same : sm'.server_id ≡ sm.server_id = t.same.server_id in
            let this : info.server_id ≡ sm.server_id = on ∙ sym g.id in
            rw same (
              ground (
                arith,
                ap (count c) t.inused_blocks,
                g.used c,
                owned_appended sm.server_id c inum i i' old info m found e,
                this,
                nr,
              ));
      }

  Managed-elsewhere :
      (j : ℕ) (w : SpaceManager)
      → (k == j) ≡ false
      → Table.find j sms ≡ some w
      → Managed (Table.assign inum i' m) j w
  Managed-elsewhere j w ne there =
      let g = sp.at j w there in
      let h = sp.at k sm here in
      let other : info.server_id ≢ w.server_id =
        λ q. cc (ne, (==_iff k j).1 (u64_of_int-injective k j h.key g.key (sym on ∙ q ∙ g.id))) in
      record {
        key = g.key;
        id = g.id;
        valid = g.valid;
        reach = g.reach;
        used = λ c.
            ground
              (arith, g.used c, owned_appended w.server_id c inum i i' old info m found e, other);
      }

  pub append-Spaces : Spaces (Table.assign inum i' m) (Table.assign_in_order k sm' sms)
  append-Spaces = record {
    at = λ j w p. elim (Bool-cases (k == j)) [
      | inl same ↦
          let q : sm' ≡ w = ground (arith, find-assign_in_order j k sm' sms, p, same) in
          let r : k ≡ j = (==_iff k j).0 same in
          subst (λ x. Managed (Table.assign inum i' m) x w) r
            (subst (λ x. Managed (Table.assign inum i' m) k x) q Managed-here)
      | inr ne ↦ Managed-elsewhere j w ne (ground (arith, find-assign_in_order j k sm' sms, p, ne))
    ];
  }

  pub append-Room : (n : ℕ) → Room (suc n) sms → Room n (Table.assign_in_order k sm' sms)
  append-Room n rm = record {
    some_server = length-assign_in_order k sm' sms rm.some_server;
    at = λ j w p. elim (Bool-cases (k == j)) [
      | inl same ↦
          let q : sm' ≡ w = ground (arith, find-assign_in_order j k sm' sms, p, same) in
          subst (λ (x : SpaceManager). x.cur_blocks + n ≤ x.total_blocks) q
            (omega (arith, rm.at k sm here, t.cur_blocks, t.same.total_blocks))
      | inr ne ↦
          let q : Table.find j sms ≡ some w =
            ground (arith, find-assign_in_order j k sm' sms, p, ne) in
          omega (arith, rm.at j w q)
    ];
  }
