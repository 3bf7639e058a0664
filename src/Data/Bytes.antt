-- ===== src/Data/Bytes.antt =====
-- What a write makes of the bytes of a file, and that overwriting a long enough buffer does it.
use Prim.Native.Nat.{max}
use cbfuse.Prelude.{
  ℕ, zero, suc, ◌+◌, ◌≤◌, ◌<◌, ◌≡◌, refl, sym, ap, ◌∙◌, ◌⊎◌, inl, inr, List, [], ◌∷◌, ◌++◌, length,
  take, drop, length-append, length-take, length-drop, take_all, drop_all, take-append_at,
  drop-append_at, arith, ltb, ltb→lt, Bool-cases, true, false,
}
use cbfuse.Io.{overwrite}

-- `new` is `old` with `data` at `offset`: it is as long as needed, holds the data there, and is
-- otherwise `old`, before the data and behind them.
pub record IsWritten (old : List ℕ) (offset : ℕ) (bytes new : List ℕ) : Type 0 where
  pub size : length new ≡ max (length old) (offset + length bytes)
  pub holds : take (length bytes) (drop offset new) ≡ bytes
  pub before : (n : ℕ) → n ≤ offset → n ≤ length old → take n new ≡ take n old
  pub behind : drop (offset + length bytes) new ≡ drop (offset + length bytes) old

pub take-take : (n m : ℕ) (xs : List ℕ) → n ≤ m → take n (take m xs) ≡ take n xs
take-take zero m xs h = refl
take-take (suc n) zero xs h = absurd (omega arith)
take-take (suc n) (suc m) [] h = refl
take-take (suc n) (suc m) (x ∷ xs) h = ap (λ l. x ∷ l) (take-take n m xs (omega arith))

drop-suc : (n m : ℕ) (xs : List ℕ) → drop (suc n + m) xs ≡ drop (suc (n + m)) xs
drop-suc n m xs = let e : suc n + m ≡ suc (n + m) = omega arith in ap (λ k. drop k xs) e

pub drop-add : (n m : ℕ) (xs : List ℕ) → drop (n + m) xs ≡ drop m (drop n xs)
drop-add zero m xs = let e : 0 + m ≡ m = omega arith in ap (λ k. drop k xs) e
drop-add (suc n) zero [] = drop-suc n 0 []
drop-add (suc n) (suc m) [] = drop-suc n (suc m) []
drop-add (suc n) m (x ∷ xs) = drop-suc n m (x ∷ xs) ∙ drop-add n m xs

take-append_le : (n : ℕ) (xs ys : List ℕ) → n ≤ length xs → take n (xs ++ ys) ≡ take n xs
take-append_le zero xs ys h = refl
take-append_le (suc n) [] ys h = absurd (omega arith)
take-append_le (suc n) (x ∷ xs) ys h = ap (λ l. x ∷ l) (take-append_le n xs ys (omega arith))

module _ (offset : ℕ) (src dest : List ℕ) (room : offset + length src ≤ length dest) where
  abbrev kept : List ℕ
  kept = take offset dest

  length-kept : length kept ≡ offset
  length-kept = length-take offset dest (omega arith)

  pub length-overwrite : length (overwrite offset src dest) ≡ length dest
  length-overwrite =
      length-append kept (src ++ drop (offset + length src) dest)
      ∙ omega (
        arith,
        length-kept,
        length-append src (drop (offset + length src) dest),
        length-drop (offset + length src) dest,
      )

  drop-overwrite : drop offset (overwrite offset src dest) ≡ src ++ drop (offset + length src) dest
  drop-overwrite = drop-append_at offset kept _ length-kept

  pub overwrite_holds : take (length src) (drop offset (overwrite offset src dest)) ≡ src
  overwrite_holds = ap (take (length src)) drop-overwrite ∙ take-append_at (length src) src _ refl

  pub overwrite_behind :
      drop (offset + length src) (overwrite offset src dest) ≡ drop (offset + length src) dest
  overwrite_behind =
      drop-add offset (length src) (overwrite offset src dest)
      ∙ ap (drop (length src)) drop-overwrite
      ∙ drop-append_at (length src) src _ refl

  pub overwrite_before : (n : ℕ) → n ≤ offset → take n (overwrite offset src dest) ≡ take n dest
  overwrite_before n h =
      take-append_le n kept _ (omega (arith, length-kept)) ∙ take-take n offset dest h

-- A buffer that is long enough, and starts with the old bytes, is overwritten as a write asks.
pub overwrite-IsWritten :
    (old : List ℕ) (offset : ℕ) (src dest : List ℕ)
    → length dest ≡ max (length old) (offset + length src)
    → take (length old) dest ≡ old
    → IsWritten old offset src (overwrite offset src dest)
overwrite-IsWritten old offset src dest size start =
    let room : offset + length src ≤ length dest = omega arith in
    record {
      size = length-overwrite offset src dest room ∙ size;
      holds = overwrite_holds offset src dest room;
      before = λ n h k.
          overwrite_before offset src dest room n h
          ∙ sym (take-take n (length old) dest k)
          ∙ ap (take n) start;
      behind =
          overwrite_behind offset src dest room
          ∙ rest (Bool-cases (ltb (length old) (offset + length src)));
    }
  where
    same_length : length old ≡ length dest → dest ≡ old
    same_length e = sym (take_all dest) ∙ ap (λ n. take n dest) (sym e) ∙ start

    rest :
        (ltb (length old) (offset + length src) ≡ true)
          ⊎ (ltb (length old) (offset + length src) ≡ false)
        → drop (offset + length src) dest ≡ drop (offset + length src) old
    rest (inl grows) =
        let h : length old < offset + length src = ltb→lt _ _ grows in
        drop_all _ dest (omega arith) ∙ sym (drop_all _ old (omega arith))
    rest (inr fits) =
        let h : offset + length src ≤ length old = ground arith in
        ap (drop (offset + length src)) (same_length (omega arith))
