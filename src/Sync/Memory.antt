-- ===== src/Sync/Memory.antt =====
-- memdupm, memdup and strdup where memory does not run out.
use cbfuse.Prelude.{
  ℕ, ◌+◌, ◌≤◌, ◌≡◌, refl, ap, ◌∙◌, some, List, [], ◌++◌, CString, length, take, drop, length-take,
  take_all, drop_all, le→leb, arith,
}
use mathlib.Core.List.{append-nil}
use cbfuse.Io.{value, overwrite, copy_into, read_bytes}
use cbfuse.Io.Rules.{Ends, Ends-call, Ends-pure, Yields, Yields-call, Yields-then, Yields-pure}
use cbfuse.Platform.{Platform}
use cbfuse.Platform.Reliable.{IsReliable}
use cbfuse.Util.{memdupm, memdup, strdup}
use cbfuse.Sync.Rules.{Same}

pub read_bytes-Ends :
    {S : Type 0} (b : List ℕ) (n : ℕ) (s : S) (Q : S → Type 0)
    → n ≤ length b
    → Q s
    → Ends (read_bytes (some b) n) s (value (take n b)) Q
read_bytes-Ends b n s Q h q = rw (le→leb n (length b) h) (Ends-pure (take n b) s q)

pub copy_into-Ends :
    {S : Type 0} (dest : List ℕ) (offset : ℕ) (src : List ℕ) (s : S) (Q : S → Type 0)
    → offset + length src ≤ length dest
    → Q s
    → Ends (copy_into (some dest) offset src) s (value (overwrite offset src dest)) Q
copy_into-Ends dest offset src s Q h q =
    rw (le→leb (offset + length src) (length dest) h) (Ends-pure (overwrite offset src dest) s q)

pub overwrite_whole :
    (src b : List ℕ) → length b ≡ length src → overwrite 0 (take (length src) src) b ≡ src
overwrite_whole src b h =
    let none_left : drop (0 + length src) b ≡ [] = drop_all (0 + length src) b (omega arith) in
    rw take_all (ap (λ l. src ++ l) none_left ∙ append-nil src)

module _ (P : Platform) (rel : IsReliable P) where
  open P use {State}

  -- The first n bytes of the source, and m - n bytes that happened to be in the new block.
  pub memdupm-Yields :
      (src : List ℕ) (n m : ℕ) (s : State)
      → n ≤ length src
      → n ≤ m
      → Yields (memdupm P (some src) n m) s (λ r t.
        (b : List ℕ) × (length b ≡ m) × (r ≡ some (overwrite 0 (take n src) b)) × Same P rel s t)
  unfolding memdupm
  memdupm-Yields src n m s h k =
      let (b, e, l) = rel.malloc_succeeds m s in
      Yields-call _ _ e (
        Yields-then _ (read_bytes-Ends src n (P.malloc m s).1 (λ t. t ≡ (P.malloc m s).1) h refl)
          λ t q.
            Yields-then _
              (copy_into-Ends b 0 (take n src) t (λ u. u ≡ (P.malloc m s).1)
                (omega (arith, length-take n src h)) q)
              λ u q'. Yields-pure _ u (
                b,
                l,
                refl,
                rw q' (record { docs = rel.malloc_contents m s; versions = rel.malloc_cas m s }),
              ))

  pub memdup-Ends :
      (src : List ℕ) (s : State)
      → Ends (memdup P (some src) (length src)) s (value (some src)) (Same P rel s)
  unfolding memdup
  memdup-Ends src s =
      let y = memdupm-Yields src (length src) (length src) s (omega arith) (omega arith) in
      let (b, l, e, same) = y.holds in
      record {
        after = y.after;
        runs = y.runs ∙ ap (λ r. (value r, y.after)) (e ∙ ap some (overwrite_whole src b l));
        holds = same;
      }

  pub strdup-Ends :
      (text : CString) (s : State) → Ends (strdup P text) s (value (some text)) (Same P rel s)
  unfolding strdup
  strdup-Ends text s =
      let (b, e, l) = rel.malloc_succeeds (length text + 1) s in
      Ends-call _ _ e (
        Ends-pure _ _ (record {
          docs = rel.malloc_contents (length text + 1) s;
          versions = rel.malloc_cas (length text + 1) s;
        }))
