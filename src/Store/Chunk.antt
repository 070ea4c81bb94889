-- ===== src/Store/Chunk.antt =====
-- internal/store/chunk.go: size estimates, and the packing of rows into chunks.
pub mod Packing
use trino_log_sink.Base.{
  ℕ, ◌+◌, Bool, true, false, ◌&&◌, not, List, [], ◌∷◌, ◌++◌, ltb, if◌then◌else◌, length, Bytes,
  count_byte,
}
use trino_log_sink.Store.Row.{Arg, null, text, time, int64}

abbrev pub string_arg_overhead : ℕ
string_arg_overhead = 4

abbrev pub null_arg_bytes : ℕ
null_arg_bytes = 6

abbrev pub numeric_arg_bytes : ℕ
numeric_arg_bytes = 24

abbrev pub timestamp_arg_bytes : ℕ
timestamp_arg_bytes = 64

unfoldable pub estimate_arg_bytes : Arg → ℕ
estimate_arg_bytes (text v) = length v + count_byte b'\'' v + string_arg_overhead
estimate_arg_bytes null = null_arg_bytes
estimate_arg_bytes (time t) = timestamp_arg_bytes
estimate_arg_bytes (int64 n) = numeric_arg_bytes

-- The packing does not look into a row but through `estimate`, so it is generic in the row.
module _ {A : Type 0} where
  is_nil : List A → Bool
  is_nil [] = true
  is_nil (r ∷ rs) = false

  -- After the loop: the last chunk is appended if it holds a row.
  finish : List (List A) → List A → List (List A)
  finish chunks [] = chunks
  finish chunks (r ∷ cur) = chunks ++ (r ∷ cur) ∷ []

  -- The loop over `rows`, with its variables `chunks`, `cur` and `size`.
  pack : List A → ℕ → (A → ℕ) → List (List A) → List A → ℕ → List (List A)
  unfolding is_nil finish
  pack [] budget estimate chunks cur size = finish chunks cur
  pack (r ∷ rows) budget estimate chunks cur size =
      let n = estimate r in
      elim (not (is_nil cur) && ltb budget (size + n)) [
        | true ↦ pack rows budget estimate (chunks ++ cur ∷ []) (r ∷ []) n
        | false ↦ pack rows budget estimate chunks (cur ++ r ∷ []) (size + n)
      ]

  unfoldable pub chunk_rows : List A → ℕ → (A → ℕ) → List (List A)
  unfolding pack
  chunk_rows rows budget estimate = pack rows budget estimate [] [] 0
