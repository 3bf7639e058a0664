-- ===== src/Io.antt =====
-- A C function body as state passing over the outside world, with the macros of cbfuse/util.h.
-- Each of them sets `fresult` and jumps forward to the label `done`, which ends the function.
pub mod Rules
pub mod Leaves
pub mod Guards
pub mod Codes
use cbfuse.Prelude.{
  ℕ, ◌+◌, ℤ, pos, is_zero, Bool, true, false, Option, none, some, List, ◌++◌, length, take, drop,
  leb, if◌then◌else◌,
}

-- How a body ends: it goes on with a value, it has jumped to `done` with that `fresult`, or its
-- behaviour is undefined (a NULL pointer is followed, or a buffer is left).
pub data Outcome (A : Type 0) : Type 0 where
  value : A → Outcome A
  goto_done : ℤ → Outcome A
  fault : Outcome A

abbrev pub Io : Type 0 → Type 0 → Type 0
Io S A = S → Outcome A × S

-- What a function gives to its caller: out-parameters, or an `fresult` that is not 0.
pub data Reply (A : Type 0) : Type 0 where
  ok : A → Reply A
  err : ℤ → Reply A

module _ {S A : Type 0} where
  abbrev pub pure : A → Io S A
  pure a s = (value a, s)

  abbrev pub jump : ℤ → Io S A
  jump fr s = (goto_done fr, s)

  abbrev pub crash : Io S A
  crash s = (fault, s)

  -- A call of the outside world.
  abbrev pub perform : (S → A × S) → Io S A
  perform f s = (value (f s).0, (f s).1)

module _ {S A B : Type 0} where
  abbrev pub continue : Outcome A → (A → Io S B) → Io S B
  continue (value a) f s = f a s
  continue (goto_done fr) f s = (goto_done fr, s)
  continue fault f s = (fault, s)

  infixl 5 ◌>>=◌ ◌>>◌
  unfoldable pub ◌>>=◌ : Io S A → (A → Io S B) → Io S B
  ◌>>=◌ m f s = continue (m s).0 f (m s).1

  abbrev pub ◌>>◌ : Io S A → Io S B → Io S B
  m >> k = m >>= λ _. k

abbrev pub label_done : {A : Type 0} → Outcome A → Outcome (Reply A)
label_done (value a) = value (ok a)
label_done (goto_done fr) = value (err fr)
label_done fault = fault

-- `done: return fresult;` of a function with out-parameters.
unfoldable pub returning : {S A : Type 0} → Io S A → Io S (Reply A)
returning m s = (label_done (m s).0, (m s).1)

abbrev pub land : Outcome ℤ → Outcome ℤ
land (value fr) = value fr
land (goto_done fr) = value fr
land fault = fault

-- `done: return fresult;` of any other function: an `fresult` set at a jump is returned too.
unfoldable pub finish : {S : Type 0} → Io S ℤ → Io S ℤ
finish m s = (land (m s).0, (m s).1)

module _ {S : Type 0} where
  -- IfTrueGotoDoneWithRef
  abbrev pub if_true : Bool → ℤ → Io S (Unit {0})
  if_true true fr = jump fr
  if_true false fr = pure tt

  -- IfFalseGotoDoneWithRef
  abbrev pub if_false : Bool → ℤ → Io S (Unit {0})
  if_false true fr = pure tt
  if_false false fr = jump fr

  -- IfFRErrorGotoDoneWithRef and IfFRFailGotoDoneWithRef
  abbrev pub if_fr_error : ℤ → Io S (Unit {0})
  if_fr_error fr = if is_zero fr then pure tt else jump fr

module _ {S A : Type 0} where
  -- IfNULLGotoDoneWithRef, with the value that is there if the pointer is not NULL
  abbrev pub if_null : Option A → ℤ → Io S A
  if_null (some a) fr = pure a
  if_null none fr = jump fr

  -- `p->...`
  abbrev pub deref : Option A → Io S A
  deref (some a) = pure a
  deref none = crash

  -- `fresult = f(...); IfFRErrorGotoDoneWithRef(...)` for a function with out-parameters, whose
  -- errors are never 0.
  abbrev pub or_done : Reply A → Io S A
  or_done (ok a) = pure a
  or_done (err fr) = jump fr

-- `dest` with `src` written over it from `offset` on.
abbrev pub overwrite : ℕ → List ℕ → List ℕ → List ℕ
overwrite offset src dest = take offset dest ++ (src ++ drop (offset + length src) dest)

module _ {S : Type 0} where
  -- Reading n bytes behind a pointer.
  abbrev pub read_bytes : Option (List ℕ) → ℕ → Io S (List ℕ)
  read_bytes none n = crash
  read_bytes (some b) n = if leb n (length b) then pure (take n b) else crash

  -- memcpy(dest + offset, src, n), with the n bytes at `src`
  abbrev pub copy_into : Option (List ℕ) → ℕ → List ℕ → Io S (List ℕ)
  copy_into none offset src = crash
  copy_into (some dest) offset src =
      if leb (offset + length src) (length dest) then pure (overwrite offset src dest) else crash

abbrev pub land_with : {O : Type 0} → O → Outcome (ℤ × O) → Outcome (ℤ × O)
land_with out (value r) = value r
land_with out (goto_done fr) = value (fr, out)
land_with out fault = fault

-- `done: return fresult;` of a function that has written `out` for its caller by then.
unfoldable pub done_with : {S O : Type 0} → O → Io S (ℤ × O) → Io S (ℤ × O)
done_with out m s = (land_with out (m s).0, (m s).1)

module _ {S : Type 0} where
  -- `*p = n;` for an out-parameter that may be NULL
  abbrev pub assign : Option ℕ → ℕ → Io S (Option ℕ)
  assign none n = crash
  assign (some old) n = pure (some n)

  -- memcpy(dest, src + offset, n)
  abbrev pub read_from : Option (List ℕ) → ℕ → ℕ → Io S (List ℕ)
  read_from none offset n = crash
  read_from (some b) offset n =
      if leb (offset + n) (length b) then pure (take n (drop offset b)) else crash
