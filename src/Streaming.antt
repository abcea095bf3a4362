-- ===== src/Streaming.antt =====
-- tg_testcase/streaming.py: `read_exact`. A stream is a state with a function that reads from it.
pub mod Exact
use my_ops.Prelude.{
  ℕ, zero, suc, ◌-◌, ◌++◌, Bool, not, ◌&&◌, Option, none, some, List, [], Result, ok, err, length,
  ltb, leb, if◌then◌else◌,
}
use my_ops.Task.{Error, value_error}

-- `CHUNK_SIZE`
abbrev pub chunk_size : ℕ
chunk_size = 65536

module _ {S : Type 0} (read : S → ℕ → List ℕ × S) where
  -- `min(CHUNK_SIZE, size - len(result))`
  abbrev pub wanted : ℕ → List ℕ → ℕ
  wanted size result =
      if ltb chunk_size (size - length result) then chunk_size else size - length result

  -- `0 < len(chunk) <= wanted`
  abbrev pub is_chunk : ℕ → List ℕ → Bool
  is_chunk n chunk = ltb 0 (length chunk) && leb (length chunk) n

  -- The loop; `none` says that the fuel ran out.
  unfoldable pub read_from : ℕ → S → ℕ → List ℕ → Option (Result Error (List ℕ × S))
  read_from zero s size result = if ltb (length result) size then none else some (ok (result, s))
  read_from (suc fuel) s size result =
      let (chunk, s') = read s (wanted size result) in
      let rest = read_from fuel s' size (result ++ chunk) in
      if not (ltb (length result) size)
      then some (ok (result, s))
      else if is_chunk (wanted size result) chunk
      then rest
      else some (err (value_error "Truncated/invalid stream"))

  -- `read_exact`: each step reads a byte at least, so `size` steps are enough.
  unfoldable pub read_exact : S → ℕ → Option (Result Error (List ℕ × S))
  unfolding read_from
  read_exact s size = read_from size s size []
