-- ===== src/MetaServer/Transfer/Total.antt =====
-- The pieces of a range that lies inside the blocks of a file: that they are found, and where.
use sponge_bob.Prelude.{
  ℕ, zero, suc, ◌+◌, ◌-◌, ◌*◌, ◌/◌, ◌%◌, ◌≤◌, ◌<◌, ◌≡◌, refl, subst, true, false, some, List, [],
  ◌∷◌, ◌++◌, arith, leb, ◌==◌, get_elem?, length, u64_mod, add64, min, Bool-cases, inl, inr,
  get_elem?_total, leb→le,
}
use sponge_bob.Result.{Result, ok}
use sponge_bob.Inode.{Inode, BlockInfo, file_block_size, get_block_info}
use sponge_bob.MetaServer.Messages.{FileBlockInfo, init_block_info}
use sponge_bob.MetaServer.Transfer.{
  Cursor, advance, start_cursor, read_first, read_full, read_last, read_blocks, loop_fuel,
}
use sponge_bob.MetaServer.Transfer.Located.{Serves, Serves-nil, Serves-append, Serves-one}

-- No block reaches beyond the 64-bit addresses, and each stands where its number says.
pub record Addressable (bs : List BlockInfo) : Type 0 where
  pub at :
      (k : ℕ) (b : BlockInfo) → get_elem? bs k ≡ some b → b.start_addr + file_block_size ≤ u64_mod
  pub whole :
      (k : ℕ) (b : BlockInfo)
      → get_elem? bs k ≡ some b
      → b.start_addr ≡ b.block_nr * file_block_size

-- A range of `len` bytes from `offset` on, in 64 bits, inside the blocks of the file.
pub record InBlocks (bs : List BlockInfo) (offset len : ℕ) : Type 0 where
  pub bounded : offset + len + file_block_size ≤ u64_mod
  pub covered : offset + len ≤ length bs * file_block_size

-- The cursor stands `c.buff_offset` bytes into the range.
record Stands (offset len : ℕ) (c : Cursor) : Type 0 where
  total : c.buff_offset + c.left ≡ len

-- and at the start of a block, unless nothing is left.
record Aligned (offset : ℕ) (c : Cursor) : Type 0 where
  start : 0 < c.left → c.block * file_block_size ≡ offset + c.buff_offset

first_run :
    (offset : ℕ) (i : Inode) (c : Cursor) (b : BlockInfo)
    → (offset % file_block_size == 0) ≡ false
    → get_elem? i.block_info_list c.block ≡ some b
    → let n = min (file_block_size - offset % file_block_size) c.left in
      read_first offset i c
      ≡ ok (
        init_block_info c.block b.server_id
              (add64 b.start_addr (offset % file_block_size))
              n
              c.buff_offset
            ∷ [],
        advance n c,
      )
unfolding read_first get_block_info
first_run offset i c b u e = rw (u, e) refl

full_run :
    (fuel : ℕ) (i : Inode) (c : Cursor) (b : BlockInfo) (ms : List FileBlockInfo) (c' : Cursor)
    → leb file_block_size c.left ≡ true
    → get_elem? i.block_info_list c.block ≡ some b
    → read_full fuel i (advance file_block_size c) ≡ ok (ms, c')
    → read_full (suc fuel) i c
      ≡ ok (init_block_info c.block b.server_id b.start_addr file_block_size c.buff_offset ∷ ms, c')
unfolding read_full get_block_info
full_run fuel i c b ms c' m e r = ground (arith, m, e, r)

last_run :
    (i : Inode) (c : Cursor) (b : BlockInfo)
    → (c.left == 0) ≡ false
    → get_elem? i.block_info_list c.block ≡ some b
    → read_last i c
      ≡ ok (
        init_block_info c.block b.server_id b.start_addr c.left c.buff_offset ∷ [],
        record c { left = 0; buff_offset = add64 c.buff_offset file_block_size },
      )
unfolding read_last get_block_info
last_run i c b u e = ground (arith, u, e)

-- The three phases of a read, with what each adds to the reply.
pub record Runs (i : Inode) (offset len : ℕ) : Type 0 where
  pub first : List FileBlockInfo
  pub full : List FileBlockInfo
  pub last : List FileBlockInfo
  pub c1 : Cursor
  pub c2 : Cursor
  pub c3 : Cursor
  pub run_first : read_first offset i (start_cursor offset len) ≡ ok (first, c1)
  pub run_full : read_full (loop_fuel len) i c1 ≡ ok (full, c2)
  pub run_last : read_last i c2 ≡ ok (last, c3)
  pub finished : c3.left ≡ 0
  pub serves : Serves i.block_info_list offset 0 len (first ++ (full ++ last))

pub Runs-read_blocks :
    (i : Inode) (offset len : ℕ) (r : Runs i offset len)
    → read_blocks i offset len ≡ ok (r.first ++ (r.full ++ r.last), 0)
unfolding read_blocks
Runs-read_blocks i offset len r = ground (arith, r.run_first, r.run_full, r.run_last, r.finished)

abbrev Phase :
    Inode → ℕ → ℕ → (Cursor → Type 0) → Cursor → Result (List FileBlockInfo × Cursor) → Type 0
Phase i offset len Q c res =
    (ms : List FileBlockInfo) × (c' : Cursor) × (res ≡ ok (ms, c'))
    × Serves i.block_info_list offset c.buff_offset c'.buff_offset ms
    × Stands offset len c'
    × Q c'
    × (c.buff_offset ≤ c'.buff_offset)

module _ (i : Inode) (offset len : ℕ) (a : Addressable i.block_info_list)
    (r : InBlocks i.block_info_list offset len) where
  first-Phase :
      Phase i offset len
        (Aligned offset)
        (start_cursor offset len)
        (read_first offset i (start_cursor offset len))
  unfolding start_cursor read_first
  first-Phase = elim (Bool-cases (offset % file_block_size == 0)) [
    | inl aligned ↦ (
      [],
      start_cursor offset len,
      rw aligned refl,
      Serves-nil _ _ _,
      record { total = omega arith },
      record { start = λ h. ground arith },
      omega arith,
    )
    | inr unaligned ↦
        let inner = offset % file_block_size in
        let n = min (file_block_size - inner) len in
        let k = offset / file_block_size in
        let (b, e) = get_elem?_total i.block_info_list k (ground (arith, r.covered)) in
        let fits : b.start_addr + file_block_size ≤ u64_mod = a.at k b e in
        let m = init_block_info k b.server_id (add64 b.start_addr inner) n 0 in
        (
          m ∷ [],
          advance n (start_cursor offset len),
          first_run offset i (start_cursor offset len) b unaligned e,
          Serves-one i.block_info_list offset 0 n (add64 0 n) k b m (omega (arith, r.bounded)) e
              (omega arith) (omega arith) refl (omega (arith, fits)) refl refl,
          record { total = omega (arith, r.bounded) },
          record { start = λ h. omega (arith, r.bounded) },
          omega arith,
        )
  ]

  full-Phase :
      (fuel : ℕ) (c : Cursor)
      → Stands offset len c
      → Aligned offset c
      → c.left < fuel * file_block_size
      → Phase i offset len
          (λ c'. Aligned offset c' × (c'.left < file_block_size))
          c
          (read_full fuel i c)
  unfolding read_full
  full-Phase zero c s al enough = absurd (omega arith)
  full-Phase (suc fuel) c s al enough = elim (Bool-cases (leb file_block_size c.left)) [
    | inr done ↦
        ([], c, ground (arith, done), Serves-nil _ _ _, s, (al, ground (arith, done)), omega arith)
    | inl more ↦
        let room : file_block_size ≤ c.left = leb→le _ _ more in
        let here : c.block * file_block_size ≡ offset + c.buff_offset = al.start (omega arith) in
        let (b, e) =
          get_elem?_total i.block_info_list c.block (omega (arith, r.covered, s.total)) in
        let m = init_block_info c.block b.server_id b.start_addr file_block_size c.buff_offset in
        let next = advance file_block_size c in
        let (ms, c', run, serves, s', q, mono) =
          full-Phase fuel next (record { total = omega (arith, r.bounded, s.total) })
            (record { start = λ h. omega (arith, r.bounded, s.total, here) })
            (omega (arith, r.bounded, s.total)) in
        (
          m ∷ ms,
          c',
          full_run fuel i c b ms c' more e run,
          Serves-append i.block_info_list offset c.buff_offset next.buff_offset c'.buff_offset
              (m ∷ []) ms (omega (arith, r.bounded, s.total)) mono
              (Serves-one i.block_info_list offset c.buff_offset file_block_size next.buff_offset
                c.block b m (omega (arith, r.bounded, s.total)) e (omega (arith, here))
                (omega (arith, here)) refl (omega (arith, here)) refl refl)
              serves,
          s',
          q,
          omega (arith, mono, r.bounded, s.total),
        )
  ]

  last_phase :
      (c : Cursor)
      → Stands offset len c
      → Aligned offset c
      → c.left < file_block_size
      → (ms : List FileBlockInfo) × (c' : Cursor) × (read_last i c ≡ ok (ms, c'))
        × (c'.left ≡ 0)
        × Serves i.block_info_list offset c.buff_offset len ms
  unfolding read_last
  last_phase c s al short = elim (Bool-cases (c.left == 0)) [
    | inl done ↦
        let all : c.left ≡ 0 = ground (arith, done) in
        let whole : c.buff_offset ≡ len = omega (arith, all, s.total) in
        (
          [],
          c,
          ground (arith, done),
          all,
          subst (λ h. Serves i.block_info_list offset c.buff_offset h []) whole (Serves-nil _ _ _),
        )
    | inr more ↦
        let some_left : 0 < c.left = ground (arith, more) in
        let here : c.block * file_block_size ≡ offset + c.buff_offset = al.start some_left in
        let (b, e) =
          get_elem?_total i.block_info_list c.block (omega (arith, r.covered, s.total)) in
        (
          _,
          _,
          last_run i c b more e,
          refl,
          Serves-one i.block_info_list offset c.buff_offset c.left len c.block b _
              (omega (arith, s.total)) e (omega (arith, here)) (omega (arith, here)) refl
              (omega (arith, here)) refl refl,
        )
  ]

  -- A range inside the blocks is cut into pieces that serve each of its bytes by the byte's place,
  -- and nothing is left.
  pub runs_total : Runs i offset len
  runs_total =
      let (ms1, c1, run1, sv1, s1, al1, mono1) = first-Phase in
      let (ms2, c2, run2, sv2, s2, al2, mono2) =
        full-Phase (loop_fuel len) c1 s1 al1 (omega (arith, s1.total)) in
      let (ms3, c3, run3, done, sv3) = last_phase c2 s2 al2.0 al2.1 in
      record {
        first = ms1;
        full = ms2;
        last = ms3;
        c1 = c1;
        c2 = c2;
        c3 = c3;
        run_first = run1;
        run_full = run2;
        run_last = run3;
        finished = done;
        serves =
            Serves-append i.block_info_list offset 0 c1.buff_offset len ms1 (ms2 ++ ms3)
              (omega arith) (omega (arith, s1.total)) (unfold start_cursor in sv1)
              (Serves-append i.block_info_list offset c1.buff_offset c2.buff_offset len ms2 ms3
                mono2 (omega (arith, s2.total)) sv2 sv3);
      }
