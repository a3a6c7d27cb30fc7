-- ===== src/MetaServer/Transfer.antt =====
-- The parts of `ReadFile` and `WriteFile` that cut a range of a file into pieces, one for each block
-- that the range meets. A phase answers the `FileBlockInfo` messages that it adds to the reply.
pub mod Located
pub mod Total
pub mod Rewritten
use sponge_bob.Prelude.{
  ℕ, zero, suc, ◌+◌, ◌-◌, ◌/◌, ◌%◌, ◌≡◌, Bool, true, false, List, [], ◌∷◌, ◌++◌, leb, ◌==◌,
  if◌then◌else◌, min, add64, sub64,
}
use sponge_bob.Result.{Result, ok, fault, out_of_fuel, ◌>>=◌}
use sponge_bob.Inode.{Inode, file_block_size, get_block_info, change_file_block_info_length}
use sponge_bob.MetaServer.Messages.{FileBlockInfo, init_block_info}

-- The local variables `to_read_length` (`to_write_length`), `buff_offset` and `start_block`.
pub record Cursor : Type 0 where
  pub left : ℕ
  pub buff_offset : ℕ
  pub block : ℕ

-- The cursor behind a piece of `n` bytes.
unfoldable pub advance : ℕ → Cursor → Cursor
advance n c = record {
  left = sub64 c.left n;
  buff_offset = add64 c.buff_offset n;
  block = add64 c.block 1;
}

unfoldable pub start_cursor : ℕ → ℕ → Cursor
start_cursor offset len = record { left = len; buff_offset = 0; block = offset / file_block_size }

-- The first, unaligned block.
unfoldable pub read_first : ℕ → Inode → Cursor → Result (List FileBlockInfo × Cursor)
unfolding advance init_block_info
read_first start_offset i c =
    let inner_offset = start_offset % file_block_size in
    let bytes_read = min (file_block_size - inner_offset) c.left in
    if inner_offset == 0 then ok ([], c) else do
      b ← get_block_info i c.block
      ok (
        init_block_info c.block b.server_id (add64 b.start_addr inner_offset) bytes_read
              c.buff_offset
            ∷ [],
        advance bytes_read c,
      )

-- `while (to_read_length >= FILE_BLOCK_SIZE)`
unfoldable pub read_full : ℕ → Inode → Cursor → Result (List FileBlockInfo × Cursor)
unfolding advance init_block_info
read_full zero i c = fault out_of_fuel
read_full (suc fuel) i c = elim (leb file_block_size c.left) [
  | false ↦ ok ([], c)
  | true ↦ do
    b ← get_block_info i c.block
    (rest, c') ← read_full fuel i (advance file_block_size c)
    ok (init_block_info c.block b.server_id b.start_addr file_block_size c.buff_offset ∷ rest, c')
]

-- What is left for the last block.
unfoldable pub read_last : Inode → Cursor → Result (List FileBlockInfo × Cursor)
unfolding init_block_info
read_last i c = if c.left == 0 then ok ([], c) else do
  b ← get_block_info i c.block
  ok (
    init_block_info c.block b.server_id b.start_addr c.left c.buff_offset ∷ [],
    record c { left = 0; buff_offset = add64 c.buff_offset file_block_size },
  )

-- The rounds of the loop are bounded by the full blocks of the length.
abbrev pub loop_fuel : ℕ → ℕ
loop_fuel len = suc (len / file_block_size)

-- The three phases of `ReadFile`: the messages, and what is left of the length.
unfoldable pub read_blocks : Inode → ℕ → ℕ → Result (List FileBlockInfo × ℕ)
unfolding start_cursor
read_blocks i start_offset read_length = do
  (first, c1) ← read_first start_offset i (start_cursor start_offset read_length)
  (full, c2) ← read_full (loop_fuel read_length) i c1
  (last, c3) ← read_last i c2
  ok (first ++ (full ++ last), c3.left)

unfoldable pub write_first : ℕ → Inode → Cursor → Result (List FileBlockInfo × Cursor × Inode)
unfolding advance init_block_info
write_first start_offset i c =
    let inner_offset = start_offset % file_block_size in
    let bytes_write = min (file_block_size - inner_offset) c.left in
    if inner_offset == 0 then ok ([], c, i) else do
      b ← get_block_info i c.block
      i' ← change_file_block_info_length i c.block (add64 b.length bytes_write)
      ok (
        init_block_info c.block b.server_id (add64 b.start_addr inner_offset) bytes_write
              c.buff_offset
            ∷ [],
        advance bytes_write c,
        i',
      )

-- `while (to_write_length >= FILE_BLOCK_SIZE)`
unfoldable pub write_full : ℕ → Inode → Cursor → Result (List FileBlockInfo × Cursor × Inode)
unfolding advance init_block_info
write_full zero i c = fault out_of_fuel
write_full (suc fuel) i c = elim (leb file_block_size c.left) [
  | false ↦ ok ([], c, i)
  | true ↦ do
    b ← get_block_info i c.block
    i' ← change_file_block_info_length i c.block file_block_size
    (rest, c', i'') ← write_full fuel i' (advance file_block_size c)
    ok (
      init_block_info c.block b.server_id b.start_addr file_block_size c.buff_offset ∷ rest,
      c',
      i'',
    )
]

unfoldable pub write_last : Inode → Cursor → Result (List FileBlockInfo × Cursor × Inode)
unfolding init_block_info
write_last i c = if c.left == 0 then ok ([], c, i) else do
  b ← get_block_info i c.block
  i' ← change_file_block_info_length i c.block c.left
  ok (
    init_block_info c.block b.server_id b.start_addr c.left c.buff_offset ∷ [],
    record c { left = 0 },
    i',
  )

-- The three phases of `WriteFile`: the messages, what is left of the length, and the inode with the
-- new lengths of its blocks.
unfoldable pub write_blocks : Inode → ℕ → ℕ → Result (List FileBlockInfo × ℕ × Inode)
unfolding start_cursor
write_blocks i start_offset write_length = do
  (first, c1, i1) ← write_first start_offset i (start_cursor start_offset write_length)
  (full, c2, i2) ← write_full (loop_fuel write_length) i1 c1
  (last, c3, i3) ← write_last i2 c2
  ok (first ++ (full ++ last), c3.left, i3)
