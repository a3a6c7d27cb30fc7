-- ===== src/Rdma/Connect/Sync/Ends.antt =====
-- What an exchange over a socket leaves in the buffer, and when it does not end.
use sponge_bob.Prelude.{
  ℕ, zero, suc, ◌+◌, ◌≤◌, ◌<◌, ◌≡◌, refl, ap, ◌∙◌, true, false, List, [], ◌∷◌, ltb, length, ℤ, pos,
  below, arith,
}
use sponge_bob.Result.{ok, fault, out_of_fuel}
use sponge_bob.Rdma.Connect.Types.{Answer, bytes, Net}
use sponge_bob.Rdma.Connect.Sync.{is_zero, overwrite, read_loop, data_sync}

-- An answer that covers the buffer fills it.
overwrite_whole : (bs remote : List ℕ) → length remote ≡ length bs → overwrite bs remote ≡ bs
overwrite_whole [] [] h = refl
overwrite_whole [] (x ∷ xs) h = absurd (omega (arith, h))
overwrite_whole (b ∷ bs) [] h = absurd (omega (arith, h))
overwrite_whole (b ∷ bs) (x ∷ xs) h = ap (λ t. b ∷ t) (overwrite_whole bs xs (omega (arith, h)))

module _ {F : Type 0} (net : Net F) where
  -- A loop that has all it reads for.
  loop_done :
      (fuel sock size total : ℕ) (remote : List ℕ) (f : F)
      → size ≤ total
      → read_loop net fuel sock size (pos 0) total remote f ≡ ok (pos 0, remote, f)
  unfolding read_loop
  loop_done zero sock size total remote f h = ground arith
  loop_done (suc fuel) sock size total remote f h = ground arith

  -- A round that reads some bytes.
  loop_bytes :
      (fuel sock size total b : ℕ) (bs remote : List ℕ) (f f' : F)
      → total < size
      → net.read sock size f ≡ (bytes (b ∷ bs), f')
      → read_loop net (suc fuel) sock size (pos 0) total remote f
        ≡ read_loop net fuel sock size
            (pos 0)
            (total + length (b ∷ bs))
            (overwrite (b ∷ bs) remote)
            f'
  unfolding read_loop
  loop_bytes fuel sock size total b bs remote f f' h e =
      let t : ltb total size ≡ true = ground arith in
      rw (t, read_loop)
        (rw (ap (λ (p : Answer × F). p.0) e) (rw (ap (λ (p : Answer × F). p.1) e) refl))

  -- `read` on `sock` gives the pieces `chunks`, none of them empty, from `f` on, and leaves `g`; the
  -- last one brings the bytes read, `total` before, up to `size`.
  pub data Reads (sock size : ℕ) (g : F) : ℕ → List (List ℕ) → F → Type 0 where
    enough : {total : ℕ} → size ≤ total → Reads sock size g total [] g
    more :
        {total b : ℕ} {bs : List ℕ} {chunks : List (List ℕ)} {f f' : F}
        → total < size
        → net.read sock size f ≡ (bytes (b ∷ bs), f')
        → Reads sock size g (total + length (b ∷ bs)) chunks f'
        → Reads sock size g total ((b ∷ bs) ∷ chunks) f

  -- Each piece in turn at the start of the buffer.
  abbrev pub overwrite_all : List (List ℕ) → List ℕ → List ℕ
  overwrite_all [] remote = remote
  overwrite_all (bs ∷ chunks) remote = overwrite_all chunks (overwrite bs remote)

  loop-Reads :
      (fuel sock size total : ℕ) (chunks : List (List ℕ)) (remote : List ℕ) (f g : F)
      → length chunks ≤ fuel
      → Reads sock size g total chunks f
      → read_loop net fuel sock size (pos 0) total remote f
        ≡ ok (pos 0, overwrite_all chunks remote, g)
  loop-Reads fuel sock size total [] remote f g h (enough e) =
      loop_done fuel sock size total remote g e
  loop-Reads zero sock size total (c ∷ chunks) remote f g h r = absurd (omega (arith, h))
  loop-Reads (suc fuel) sock size total ([] ∷ chunks) remote f g h r = elim r [ ]
  loop-Reads (suc fuel) sock size total ((b ∷ bs) ∷ chunks) remote f g h (more l e r) =
      loop_bytes fuel sock size total b bs remote f _ l e
      ∙ loop-Reads fuel sock size (total + length (b ∷ bs)) chunks (overwrite (b ∷ bs) remote) _ g
          (omega (arith, h)) r

  -- Where `write` takes all `size` bytes and `read` then gives `size` bytes or more in non-empty
  -- pieces: `DataSyncwithSocket` returns 0 after one `read` for each piece, and leaves each piece at
  -- the START of the buffer, over those before it; so the buffer holds the bytes that were sent if
  -- they come as one piece of `size` bytes.
  pub data_sync-Reads :
      (fuel sock size : ℕ) (local remote : List ℕ) (chunks : List (List ℕ)) (f f' g : F)
      → net.write sock local f ≡ (pos size, f')
      → length chunks ≤ fuel
      → Reads sock size g 0 chunks f'
      → (data_sync net fuel sock size local remote f ≡ ok (pos 0, overwrite_all chunks remote, g))
        × ((bs : List ℕ)
            → chunks ≡ bs ∷ []
            → length remote ≡ length bs
            → overwrite_all chunks remote ≡ bs)
  unfolding data_sync
  data_sync-Reads fuel sock size local remote chunks f f' g w h r =
      let e : ltb size size ≡ false = ground arith in
      (
        rw w (rw e (loop-Reads fuel sock size 0 chunks remote f' g h r)),
        λ bs e l. ap (λ cs. overwrite_all cs remote) e ∙ overwrite_whole bs remote l,
      )

  -- The end of the stream: `read` gives no byte.
  pub record Closed (sock : ℕ) : Type 0 where
    pub at : (size : ℕ) (f : F) → (f' : F) × (net.read sock size f ≡ (bytes [], f'))

  loop_endless :
      (fuel sock size : ℕ) (remote : List ℕ) (f : F)
      → Closed sock
      → 0 < size
      → read_loop net fuel sock size (pos 0) 0 remote f ≡ fault out_of_fuel
  unfolding read_loop
  loop_endless zero sock size remote f c h = ground arith
  loop_endless (suc fuel) sock size remote f c h =
      let t : ltb 0 size ≡ true = ground arith in
      let (f', e) = c.at size f in
      rw (t, read_loop)
        (rw (ap (λ (p : Answer × F). p.0) e)
          (rw (ap (λ (p : Answer × F). p.1) e) (loop_endless fuel sock size remote f' c h)))

  -- When the other node closes the connection before it sends anything, `DataSyncwithSocket` of some
  -- bytes, all of which `write` takes, never returns: at the end of the stream its loop goes on.
  pub data_sync_endless :
      (fuel sock size : ℕ) (local remote : List ℕ) (f f' : F)
      → Closed sock
      → 0 < size
      → net.write sock local f ≡ (pos size, f')
      → data_sync net fuel sock size local remote f ≡ fault out_of_fuel
  unfolding data_sync
  data_sync_endless fuel sock size local remote f f' c h w =
      let e : ltb size size ≡ false = ground arith in
      rw w (rw e (loop_endless fuel sock size remote f' c h))

  -- A `write` of fewer bytes, but of some: `DataSyncwithSocket` returns their number, which no caller
  -- takes for an error, without reading anything. A `write` that fails: it returns the negative
  -- result.
  pub data_sync_short :
      (fuel sock size : ℕ) (rc : ℤ) (local remote : List ℕ) (f f' : F)
      → net.write sock local f ≡ (rc, f')
      → below rc size ≡ true
      → is_zero rc ≡ false
      → data_sync net fuel sock size local remote f ≡ ok (rc, remote, f')
  unfolding data_sync read_loop
  data_sync_short zero sock size rc local remote f f' w h n = rw w (rw h (rw n refl))
  data_sync_short (suc fuel) sock size rc local remote f f' w h n =
      rw w (rw h (rw (n, read_loop) refl))
