-- ===== src/MetaServer/Transfer/Rewritten.antt =====
-- `WriteFile` cuts a range as `ReadFile` does; of the file it changes the lengths of blocks alone.
use sponge_bob.Prelude.{
  ℕ, zero, suc, ◌-◌, ◌%◌, ◌≡◌, refl, ap, sym, ◌∙◌, true, false, none, some, List, [], ◌∷◌, ◌++◌,
  arith, leb, ◌==◌, get_elem?, set, add64, min, Bool-cases, Option-cases, inl, inr,
}
use sponge_bob.Result.{Result, ok, fault, out_of_range, ◌>>=◌, or_fault}
use sponge_bob.Inode.{
  Inode, BlockInfo, file_block_size, get_block_info, change_file_block_info_length,
}
use sponge_bob.MetaServer.Messages.{FileBlockInfo, init_block_info}
use sponge_bob.MetaServer.Transfer.Total.{Runs}
use sponge_bob.MetaServer.Transfer.{
  Cursor, advance, start_cursor, read_first, read_full, read_last, read_blocks, loop_fuel,
  write_first, write_full, write_last, write_blocks,
}

-- A block without its length, and so the blocks of a list; an inode with such blocks; and one with
-- such blocks and no size.
abbrev pub strip : BlockInfo → BlockInfo
strip b = record b { length = 0 }

abbrev pub strip_all : List BlockInfo → List BlockInfo
strip_all [] = []
strip_all (b ∷ bs) = strip b ∷ strip_all bs

abbrev pub strip_inode : Inode → Inode
strip_inode i = record i { block_info_list = strip_all i.block_info_list }

abbrev pub strip_shape : Inode → Inode
strip_shape i = record i { size = 0; block_info_list = strip_all i.block_info_list }

pub get_elem?-strip_all :
    (bs : List BlockInfo) (k : ℕ)
    → get_elem? (strip_all bs) k ≡ elim (get_elem? bs k) [ none ↦ none | some b ↦ some (strip b) ]
get_elem?-strip_all [] k = refl
get_elem?-strip_all (b ∷ bs) zero = refl
get_elem?-strip_all (b ∷ bs) (suc k) = get_elem?-strip_all bs k

strip_all-set :
    (bs : List BlockInfo) (k len : ℕ) (b : BlockInfo)
    → get_elem? bs k ≡ some b
    → strip_all (set bs k (record b { length = len })) ≡ strip_all bs
strip_all-set [] k len b e = ground (arith, e)
strip_all-set (x ∷ bs) zero len b e = ground (arith, e)
strip_all-set (x ∷ bs) (suc k) len b e = ap (λ r. strip x ∷ r) (strip_all-set bs k len b e)

-- The pieces of a range do not depend on the lengths of the blocks.
read_first-strip :
    (offset : ℕ) (i : Inode) (c : Cursor)
    → read_first offset (strip_shape i) c ≡ read_first offset i c
unfolding read_first get_block_info
read_first-strip offset i c = ground (arith, get_elem?-strip_all i.block_info_list c.block)

full_done :
    (fuel : ℕ) (i : Inode) (c : Cursor)
    → leb file_block_size c.left ≡ false
    → read_full (suc fuel) i c ≡ ok ([], c)
unfolding read_full
full_done fuel i c e = rw (e, read_full) refl

full_missing :
    (fuel : ℕ) (i : Inode) (c : Cursor)
    → leb file_block_size c.left ≡ true
    → get_elem? i.block_info_list c.block ≡ none
    → read_full (suc fuel) i c ≡ fault out_of_range
unfolding read_full get_block_info
full_missing fuel i c e n = rw (e, read_full) (rw (n, or_fault) refl)

-- What a round of the loop makes of the rounds after it.
abbrev with_piece :
    Cursor → BlockInfo → Result (List FileBlockInfo × Cursor) → Result (List FileBlockInfo × Cursor)
with_piece c b r = do
  (rest, c') ← r
  ok (init_block_info c.block b.server_id b.start_addr file_block_size c.buff_offset ∷ rest, c')

full_step :
    (fuel : ℕ) (i : Inode) (c : Cursor) (b : BlockInfo)
    → leb file_block_size c.left ≡ true
    → get_elem? i.block_info_list c.block ≡ some b
    → read_full (suc fuel) i c ≡ with_piece c b (read_full fuel i (advance file_block_size c))
unfolding read_full get_block_info
full_step fuel i c b e n = rw (e, read_full) (rw (n, or_fault) refl)

read_full-strip :
    (fuel : ℕ) (i : Inode) (c : Cursor) → read_full fuel (strip_shape i) c ≡ read_full fuel i c
unfolding read_full
read_full-strip zero i c = refl
read_full-strip (suc fuel) i c = elim (Bool-cases (leb file_block_size c.left)) [
  | inr e ↦ full_done fuel (strip_shape i) c e ∙ sym (full_done fuel i c e)
  | inl e ↦ elim (Option-cases (get_elem? i.block_info_list c.block)) [
    | inl n ↦
        full_missing fuel (strip_shape i) c e
          (ground (arith, get_elem?-strip_all i.block_info_list c.block, n))
        ∙ sym (full_missing fuel i c e n)
    | inr (b, n) ↦
        full_step fuel (strip_shape i) c (strip b) e
          (ground (arith, get_elem?-strip_all i.block_info_list c.block, n))
        ∙ ap (with_piece c b) (read_full-strip fuel i (advance file_block_size c))
        ∙ sym (full_step fuel i c b e n)
  ]
]

read_last-strip : (i : Inode) (c : Cursor) → read_last (strip_shape i) c ≡ read_last i c
unfolding read_last get_block_info
read_last-strip i c = ground (arith, get_elem?-strip_all i.block_info_list c.block)

pub read_blocks-strip :
    (i : Inode) (offset len : ℕ) → read_blocks (strip_shape i) offset len ≡ read_blocks i offset len
unfolding read_blocks
read_blocks-strip i offset len = simp (read_first-strip, read_full-strip, read_last-strip)

-- Two inodes that differ in the lengths of the blocks at most, and two that differ in the size too.
abbrev pub Rewritten : Inode → Inode → Type 0
Rewritten i i' = strip_inode i' ≡ strip_inode i

abbrev pub Reshaped : Inode → Inode → Type 0
Reshaped i i' = strip_shape i' ≡ strip_shape i

-- Also after a new size.
pub Rewritten-Reshaped :
    (i i' : Inode) (n : ℕ) → Rewritten i i' → Reshaped i (record i' { size = n })
Rewritten-Reshaped i i' n h = ap (λ (x : Inode). record x { size = 0 }) h

shaped : (i i' : Inode) → Rewritten i i' → Reshaped i i'
shaped i i' h = ap (λ (x : Inode). record x { size = 0 }) h

same_full :
    (fuel : ℕ) (i i' : Inode) (c : Cursor)
    → Reshaped i i'
    → read_full fuel i' c ≡ read_full fuel i c
same_full fuel i i' c h =
    sym (read_full-strip fuel i' c) ∙ ap (λ x. read_full fuel x c) h ∙ read_full-strip fuel i c

same_last : (i i' : Inode) (c : Cursor) → Reshaped i i' → read_last i' c ≡ read_last i c
same_last i i' c h = sym (read_last-strip i' c) ∙ ap (λ x. read_last x c) h ∙ read_last-strip i c

pub same_blocks :
    (i i' : Inode) (offset len : ℕ)
    → Reshaped i i'
    → read_blocks i' offset len ≡ read_blocks i offset len
same_blocks i i' offset len h =
    sym (read_blocks-strip i' offset len)
    ∙ ap (λ x. read_blocks x offset len) h
    ∙ read_blocks-strip i offset len

-- An inode with a new length of block `k`.
abbrev with_length : Inode → ℕ → BlockInfo → ℕ → Inode
with_length i k b len = record i {
  block_info_list = set i.block_info_list k (record b { length = len });
}

with_length-Rewritten :
    (i : Inode) (k len : ℕ) (b : BlockInfo)
    → get_elem? i.block_info_list k ≡ some b
    → Rewritten i (with_length i k b len)
with_length-Rewritten i k len b e =
    ap (λ bs. record i { block_info_list = bs }) (strip_all-set i.block_info_list k len b e)

change_run :
    (i : Inode) (k len : ℕ) (b : BlockInfo)
    → get_elem? i.block_info_list k ≡ some b
    → change_file_block_info_length i k len ≡ ok (with_length i k b len)
unfolding change_file_block_info_length
change_run i k len b e = rw (e, change_file_block_info_length) refl

write_first_run :
    (offset : ℕ) (i : Inode) (c : Cursor) (ms : List FileBlockInfo) (c' : Cursor)
    → read_first offset i c ≡ ok (ms, c')
    → (i' : Inode) × (write_first offset i c ≡ ok (ms, c', i')) × Rewritten i i'
unfolding read_first write_first get_block_info
write_first_run offset i c ms c' r = elim (Bool-cases (offset % file_block_size == 0)) [
  | inl z ↦ (i, ground (arith, z, r), refl)
  | inr z ↦ elim (Option-cases (get_elem? i.block_info_list c.block)) [
    | inl n ↦ absurd (ground (arith, z, r, n))
    | inr (b, e) ↦
        let n = min (file_block_size - offset % file_block_size) c.left in
        let w = change_run i c.block (add64 b.length n) b e in
        (
          with_length i c.block b (add64 b.length n),
          ground (arith, z, r, e, w),
          with_length-Rewritten i c.block (add64 b.length n) b e,
        )
  ]
]

write_last_run :
    (i : Inode) (c : Cursor) (ms : List FileBlockInfo) (c' : Cursor)
    → read_last i c ≡ ok (ms, c')
    → c'.left ≡ 0
    → (i' : Inode) × (c'' : Cursor) × (write_last i c ≡ ok (ms, c'', i'))
      × (c''.left ≡ 0)
      × Rewritten i i'
unfolding read_last write_last get_block_info
write_last_run i c ms c' r d = elim (Bool-cases (c.left == 0)) [
  | inl z ↦ (i, c, ground (arith, z, r), ground (arith, z), refl)
  | inr z ↦ elim (Option-cases (get_elem? i.block_info_list c.block)) [
    | inl n ↦ absurd (ground (arith, z, r, n))
    | inr (b, e) ↦
        let w = change_run i c.block c.left b e in
        (
          with_length i c.block b c.left,
          record c { left = 0 },
          ground (arith, z, r, e, w),
          refl,
          with_length-Rewritten i c.block c.left b e,
        )
  ]
]

with_piece-ok :
    (c : Cursor) (b : BlockInfo) (r : Result (List FileBlockInfo × Cursor))
    (ms : List FileBlockInfo) (c' : Cursor)
    → with_piece c b r ≡ ok (ms, c')
    → (rest : List FileBlockInfo) × (r ≡ ok (rest, c'))
      × (ms ≡ init_block_info c.block b.server_id b.start_addr file_block_size c.buff_offset ∷ rest)
with_piece-ok c b (ok (rest, c'')) ms c' h = (rest, ground arith, ground arith)
with_piece-ok c b (fault f) ms c' h = absurd (ground arith)

write_full_done :
    (fuel : ℕ) (i : Inode) (c : Cursor)
    → leb file_block_size c.left ≡ false
    → write_full (suc fuel) i c ≡ ok ([], c, i)
unfolding write_full
write_full_done fuel i c e = rw (e, write_full) refl

write_full_step :
    (fuel : ℕ) (i i' : Inode) (c c' : Cursor) (b : BlockInfo) (rest : List FileBlockInfo)
    → leb file_block_size c.left ≡ true
    → get_elem? i.block_info_list c.block ≡ some b
    → write_full fuel (with_length i c.block b file_block_size) (advance file_block_size c)
      ≡ ok (rest, c', i')
    → write_full (suc fuel) i c
      ≡ ok (
        init_block_info c.block b.server_id b.start_addr file_block_size c.buff_offset ∷ rest,
        c',
        i',
      )
unfolding write_full get_block_info
write_full_step fuel i i' c c' b rest e n r =
    rw (e, write_full)
      (rw (n, or_fault) (rw (change_run i c.block file_block_size b n) (rw r refl)))

write_full_run :
    (fuel : ℕ) (i : Inode) (c : Cursor) (ms : List FileBlockInfo) (c' : Cursor)
    → read_full fuel i c ≡ ok (ms, c')
    → (i' : Inode) × (write_full fuel i c ≡ ok (ms, c', i')) × Rewritten i i'
unfolding read_full
write_full_run zero i c ms c' r = absurd (ground arith)
write_full_run (suc fuel) i c ms c' r = elim (Bool-cases (leb file_block_size c.left)) [
  | inr e ↦ (i, cc (write_full_done fuel i c e, full_done fuel i c e, r), refl)
  | inl e ↦ elim (Option-cases (get_elem? i.block_info_list c.block)) [
    | inl n ↦ absurd (cc (full_missing fuel i c e n, r))
    | inr (b, n) ↦
        let next = advance file_block_size c in
        let i1 = with_length i c.block b file_block_size in
        let kept = with_length-Rewritten i c.block file_block_size b n in
        let (rest, run, shape) =
          with_piece-ok c b (read_full fuel i next) ms c' (sym (full_step fuel i c b e n) ∙ r) in
        let (i2, w, kept') =
          write_full_run fuel i1 next rest c' (same_full fuel i i1 next (shaped i i1 kept) ∙ run) in
        (
          i2,
          write_full_step fuel i i2 c c' b rest e n w ∙ ap (λ l. ok (l, c', i2)) (sym shape),
          kept' ∙ kept,
        )
  ]
]

-- A range that `ReadFile` cuts into pieces with nothing left is cut by `WriteFile` into the same
-- pieces, with nothing left; the inode changes in the lengths of its blocks at most, and keeps its size.
pub write_blocks_run :
    (i : Inode) (offset len : ℕ) (r : Runs i offset len)
    → (i' : Inode) × (write_blocks i offset len ≡ ok (r.first ++ (r.full ++ r.last), 0, i'))
      × Rewritten i i'
unfolding write_blocks
write_blocks_run i offset len r =
    let (i1, w1, k1) =
      write_first_run offset i (start_cursor offset len) r.first r.c1 r.run_first in
    let (i2, w2, k2) =
      write_full_run (loop_fuel len) i1 r.c1 r.full r.c2
        (same_full (loop_fuel len) i i1 r.c1 (shaped i i1 k1) ∙ r.run_full) in
    let (i3, c, w3, d, k3) =
      write_last_run i2 r.c2 r.last r.c3 (same_last i i2 r.c2 (shaped i i2 (k2 ∙ k1)) ∙ r.run_last)
        r.finished in
    (i3, combine w1 w2 w3 d, k3 ∙ k2 ∙ k1)
  where
    combine :
        {i1 i2 i3 : Inode} {c : Cursor}
        → write_first offset i (start_cursor offset len) ≡ ok (r.first, r.c1, i1)
        → write_full (loop_fuel len) i1 r.c1 ≡ ok (r.full, r.c2, i2)
        → write_last i2 r.c2 ≡ ok (r.last, c, i3)
        → c.left ≡ 0
        → write_blocks i offset len ≡ ok (r.first ++ (r.full ++ r.last), 0, i3)
    combine w1 w2 w3 d = ground (arith, w1, w2, w3, d)
