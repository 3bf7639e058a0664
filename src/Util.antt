-- ===== src/Util.antt =====
-- memdup and memdupm of cbfuse/util.h, and what the C library gives on the heap.
pub mod Codes
pub mod Shared
use cbfuse.Prelude.{ℕ, ◌+◌, Option, none, some, List, length, CString}
use cbfuse.Io.{Io, pure, perform, ◌>>=◌, read_bytes, copy_into}
use cbfuse.Platform.{Platform}

module _ (P : Platform) where
  open P use {State, malloc}

  fill : Option (List ℕ) → Option (List ℕ) → ℕ → Io State (Option (List ℕ))
  fill none src n = pure none
  fill (some dest) src n = do
    bytes ← read_bytes src n
    copied ← copy_into (some dest) 0 bytes
    pure (some copied)

  -- n bytes of `src` at the start of a new block of m bytes
  unfoldable pub memdupm : Option (List ℕ) → ℕ → ℕ → Io State (Option (List ℕ))
  unfolding fill
  memdupm src n m = do dest ← perform (malloc m); fill dest src n

  unfoldable pub memdup : Option (List ℕ) → ℕ → Io State (Option (List ℕ))
  unfolding memdupm
  memdup src n = memdupm src n n

  copied_string : Option (List ℕ) → CString → Option CString
  copied_string none text = none
  copied_string (some b) text = some text

  -- strdup, of the C library
  unfoldable pub strdup : CString → Io State (Option CString)
  unfolding copied_string
  strdup text = do b ← perform (malloc (length text + 1)); pure (copied_string b text)
