-- ===== src/MetaServer/Transfer/Located.antt =====
-- Where the bytes of a file are, and where a reply says that they are.
use sponge_bob.Prelude.{
  ℕ, ◌+◌, ◌-◌, ◌*◌, ◌/◌, ◌%◌, ◌≤◌, ◌<◌, ◌≡◌, refl, ap, ◌∙◌, Option, none, some, List, [], ◌∷◌, ◌++◌,
  arith, leb, ltb, ◌&&◌, if◌then◌else◌, get_elem?, Bool-cases, inl, inr,
}
use sponge_bob.Inode.{BlockInfo, file_block_size}
use sponge_bob.MetaServer.Messages.{FileBlockInfo}

-- The server and the address of byte `p` of a file, from its blocks.
abbrev pub locate : List BlockInfo → ℕ → Option (ℕ × ℕ)
locate bs p = elim (get_elem? bs (p / file_block_size)) [
  | none ↦ none
  | some b ↦ some (b.server_id, b.start_addr + p % file_block_size)
]

-- The server and the address that a reply gives for byte `j` of the caller's buffer: those of the
-- first message whose range of the buffer holds `j`.
abbrev pub serve : List FileBlockInfo → ℕ → Option (ℕ × ℕ)
serve [] j = none
serve (m ∷ ms) j =
    if leb m.buff_offset j && ltb j (m.buff_offset + m.length)
    then some (m.serverid, m.mem_offset + (j - m.buff_offset))
    else serve ms j

-- The messages serve the bytes from `lo` to `hi` of the buffer, and no other, each by the place of
-- the byte of the file that stands `offset` further on.
pub record Serves (bs : List BlockInfo) (offset lo hi : ℕ) (ms : List FileBlockInfo) : Type 0 where
  pub at : (j : ℕ) → serve ms j ≡ (if leb lo j && ltb j hi then locate bs (offset + j) else none)

pub Serves-same :
    (xs bs : List BlockInfo) (offset lo hi : ℕ) (ms : List FileBlockInfo)
    → ((p : ℕ) → locate bs p ≡ locate xs p)
    → Serves xs offset lo hi ms
    → Serves bs offset lo hi ms
Serves-same xs bs offset lo hi ms same s = record {
  at = λ j. ground (arith, s.at j, same (offset + j));
}

pub Serves-nil : (bs : List BlockInfo) (offset lo : ℕ) → Serves bs offset lo lo []
Serves-nil bs offset lo = record { at = λ j. ground arith }

serve-append :
    (ms ns : List FileBlockInfo) (j : ℕ)
    → serve (ms ++ ns) j ≡ elim (serve ms j) [ none ↦ serve ns j | some r ↦ some r ]
serve-append [] ns j = refl
serve-append (m ∷ ms) ns j = ground (arith, serve-append ms ns j)

pub Serves-append :
    (bs : List BlockInfo) (offset lo mid hi : ℕ) (ms ns : List FileBlockInfo)
    → lo ≤ mid
    → mid ≤ hi
    → Serves bs offset lo mid ms
    → Serves bs offset mid hi ns
    → Serves bs offset lo hi (ms ++ ns)
Serves-append bs offset lo mid hi ms ns h k x y = record {
  at = λ j. ground (arith, serve-append ms ns j, x.at j, y.at j);
}

-- The place of a byte of block `k`.
locate_in_block :
    (bs : List BlockInfo) (p k : ℕ) (b : BlockInfo)
    → get_elem? bs k ≡ some b
    → k * file_block_size ≤ p
    → p < k * file_block_size + file_block_size
    → locate bs p ≡ some (b.server_id, b.start_addr + (p - k * file_block_size))
locate_in_block bs p k b e h h' =
    let q : p / file_block_size ≡ k = omega arith in
    let r : p % file_block_size ≡ p - k * file_block_size = omega arith in
    let g : get_elem? bs (p / file_block_size) ≡ some b = ap (get_elem? bs) q ∙ e in
    ground (arith, g, r)

-- One message, for a part of block `k`.
pub Serves-one :
    (bs : List BlockInfo) (offset lo n hi k : ℕ) (b : BlockInfo) (m : FileBlockInfo)
    → hi ≡ lo + n
    → get_elem? bs k ≡ some b
    → k * file_block_size ≤ offset + lo
    → offset + lo + n ≤ k * file_block_size + file_block_size
    → m.serverid ≡ b.server_id
    → m.mem_offset + k * file_block_size ≡ b.start_addr + offset + lo
    → m.buff_offset ≡ lo
    → m.length ≡ n
    → Serves bs offset lo hi (m ∷ [])
Serves-one bs offset lo n hi k b m z e h h' s a f l = record {
  at = λ j. elim (Bool-cases (leb lo j && ltb j hi)) [
    | inl inside ↦
        let p = locate_in_block bs (offset + j) k b e (ground arith) (ground arith) in
        ground (arith, p)
    | inr outside ↦ ground arith
  ];
}
