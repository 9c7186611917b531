-- ===== src/Transfer/Streams.antt =====
-- The loops `ReadData` and `WriteData` of cd2n-lib/lib.go over a `bufio.Reader`. What a reader still
-- delivers is a list of chunks, one for each read of what lies below it, and then an error. A read
-- into a buffer of `n` bytes takes at most `n` bytes, and never from two chunks. A chunk that is longer
-- than the 4096 bytes that bufio buffers is read in the same pieces, since 4096 is a multiple of 1024.
use cess_dcdn_components.Base.{
  Action, Bytes, List, Outcome, [], crash, drop, err, fail, if◌then◌else◌, length, ltb, ok, panic,
  pure, suc, take, zero, ℕ, ◌++◌, ◌+◌, ◌>>◌, ◌∷◌,
}

abbrev pub buffer_size : ℕ
buffer_size = 1024

-- The chunks after a read.
abbrev pub remaining : ℕ → Bytes → List Bytes → List Bytes
remaining n c cs = if ltb n (length c) then drop n c ∷ cs else cs

-- A bound on the number of reads.
abbrev pub reads : List Bytes → ℕ
reads [] = 1
reads (c ∷ cs) = suc (length c + reads cs)

-- The loop of `ReadData`, on fuel; `res` is what it has read.
unfoldable pub read_data_from : ℕ → ℕ → Bytes → Bytes → List Bytes → Outcome Bytes
read_data_from n zero res e cs = panic
read_data_from n (suc fuel) res e [] = err e
read_data_from n (suc fuel) res e (c ∷ cs) =
    let rest = read_data_from n fuel (res ++ take n c) e (remaining n c cs) in
    if ltb (length (take n c)) n then ok (res ++ take n c) else rest

-- `ReadData`
unfoldable pub read_data : Bytes → List Bytes → Outcome Bytes
unfolding read_data_from
read_data e cs = read_data_from buffer_size (reads cs) [] e cs

module _ {W : Type 0} (write : Bytes → Action W (Unit {0})) where
  -- The loop of `WriteData`, on fuel.
  unfoldable pub write_data_from : ℕ → ℕ → Bytes → List Bytes → Action W (Unit {0})
  write_data_from n zero e cs = crash
  write_data_from n (suc fuel) e [] = fail e
  write_data_from n (suc fuel) e (c ∷ cs) =
      let rest = write_data_from n fuel e (remaining n c cs) in
      write (take n c) >> (if ltb (length (take n c)) n then pure tt else rest)

  -- `WriteData`
  unfoldable pub write_data : Bytes → List Bytes → Action W (Unit {0})
  unfolding write_data_from
  write_data e cs = write_data_from buffer_size (reads cs) e cs
