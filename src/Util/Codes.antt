-- ===== src/Util/Codes.antt =====
-- The copies end with no error code, on any platform.
use cbfuse.Prelude.{ℕ, Option, some, none, List, CString, length, ◌+◌, leb}
use cbfuse.Io.{read_bytes, copy_into}
use cbfuse.Io.Codes.{
  Ensures, Ensures-pure, Ensures-perform, Ensures-then, Ensures-crash, Ensures-if,
}
use cbfuse.Platform.{Platform}
use cbfuse.Util.{strdup, memdupm, fill}

module _ {S : Type 0} where
  pub read_bytes-Ensures :
      (b : Option (List ℕ)) (n : ℕ) → Ensures {S = S} (read_bytes b n) (λ a. Unit {0})
  read_bytes-Ensures none n = Ensures-crash
  read_bytes-Ensures (some b) n =
      Ensures-if (leb n (length b)) _ _ (Ensures-pure _ tt) Ensures-crash

  pub copy_into-Ensures :
      (dest : Option (List ℕ)) (offset : ℕ) (src : List ℕ)
      → Ensures {S = S} (copy_into dest offset src) (λ a. Unit {0})
  copy_into-Ensures none offset src = Ensures-crash
  copy_into-Ensures (some dest) offset src =
      Ensures-if (leb (offset + length src) (length dest)) _ _ (Ensures-pure _ tt) Ensures-crash

module _ (P : Platform) where
  pub strdup-Ensures : (text : CString) → Ensures (strdup P text) (λ a. Unit {0})
  unfolding strdup
  strdup-Ensures text = Ensures-then (Ensures-perform _) λ b. Ensures-pure _ tt

  fill-Ensures : (dest src : Option (List ℕ)) (n : ℕ) → Ensures (fill P dest src n) (λ a. Unit {0})
  unfolding fill
  fill-Ensures none src n = Ensures-pure none tt
  fill-Ensures (some dest) src n =
      Ensures-then (read_bytes-Ensures src n)
        λ bytes. Ensures-then (copy_into-Ensures (some dest) 0 bytes) λ c. Ensures-pure _ tt

  pub memdupm-Ensures :
      (src : Option (List ℕ)) (n m : ℕ) → Ensures (memdupm P src n m) (λ a. Unit {0})
  unfolding memdupm
  memdupm-Ensures src n m = Ensures-then (Ensures-perform _) λ dest. fill-Ensures dest src n
