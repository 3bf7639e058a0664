-- ===== src/Io/Guards.antt =====
-- The checks of a body, where their test is known.
use cbfuse.Prelude.{ℤ, pos, ap, ◌∙◌, ◌≡◌, Bool, true, false, is_zero}
use cbfuse.Io.{
  Io, Outcome, value, goto_done, fault, if_true, if_fr_error, ◌>>=◌, done_with, land_with, continue,
}
use cbfuse.Io.Rules.{Ends, Yields, Ends-next, Ends-jump, Ends-jump_at, Yields-next}

module _ {S A : Type 0} where
  -- The same end, with its outcome written in another way.
  pub Ends-eq :
      {m : Io S A} {s : S} {o o' : Outcome A} {Q : S → Type 0}
      → o ≡ o'
      → Ends m s o Q
      → Ends m s o' Q
  Ends-eq p e = rw (← p) e

module _ {S B : Type 0} {s : S} where
  pub if_true-pass :
      (b : Bool) (fr : ℤ) (f : Unit {0} → Io S B) {o : Outcome B} {R : S → Type 0}
      → b ≡ false
      → Ends (f tt) s o R
      → Ends (if_true b fr >>= f) s o R
  if_true-pass b fr f h e = rw h (Ends-next f e)

  pub if_true-jump :
      (b : Bool) (fr : ℤ) (f : Unit {0} → Io S B) {R : S → Type 0}
      → b ≡ true
      → R s
      → Ends (if_true b fr >>= f) s (goto_done fr) R
  if_true-jump b fr f h q = rw h (Ends-jump f (Ends-jump_at fr s q))

  pub if_true-Yields :
      (b : Bool) (fr : ℤ) (f : Unit {0} → Io S B) {R : B → S → Type 0}
      → b ≡ false
      → Yields (f tt) s R
      → Yields (if_true b fr >>= f) s R
  if_true-Yields b fr f h e = rw h (Yields-next f e)

  -- An fresult of 0 goes on, any other is returned.
  pub if_fr_error-pass :
      (f : Unit {0} → Io S B) {o : Outcome B} {R : S → Type 0}
      → Ends (f tt) s o R
      → Ends (if_fr_error (pos 0) >>= f) s o R
  if_fr_error-pass f e = Ends-next f e

  pub if_fr_error-jump :
      (fr : ℤ) (f : Unit {0} → Io S B) {R : S → Type 0}
      → is_zero fr ≡ false
      → R s
      → Ends (if_fr_error fr >>= f) s (goto_done fr) R
  if_fr_error-jump fr f h q = rw h (Ends-jump f (Ends-jump_at fr s q))

module _ {S O : Type 0} {m : Io S (ℤ × O)} (out : O) {s : S} where
  pub Yields-done_with : {R : ℤ × O → S → Type 0} → Yields m s R → Yields (done_with out m) s R
  unfolding done_with
  Yields-done_with y = record {
    result = y.result;
    after = y.after;
    runs = ap (λ r. (land_with out r.0, r.1)) y.runs;
    holds = y.holds;
  }

  pub Ends-done_with :
      {r : ℤ × O} {R : S → Type 0} → Ends m s (value r) R → Ends (done_with out m) s (value r) R
  unfolding done_with
  Ends-done_with e = record {
    after = e.after;
    runs = ap (λ r. (land_with out r.0, r.1)) e.runs;
    holds = e.holds;
  }

  pub Ends-done_with_jump :
      {fr : ℤ} {R : S → Type 0}
      → Ends m s (goto_done fr) R
      → Ends (done_with out m) s (value (fr, out)) R
  unfolding done_with
  Ends-done_with_jump e = record {
    after = e.after;
    runs = ap (λ r. (land_with out r.0, r.1)) e.runs;
    holds = e.holds;
  }

  pub Ends-done_with_fault : {R : S → Type 0} → Ends m s fault R → Ends (done_with out m) s fault R
  unfolding done_with
  Ends-done_with_fault e = record {
    after = e.after;
    runs = ap (λ r. (land_with out r.0, r.1)) e.runs;
    holds = e.holds;
  }

module _ {S A O : Type 0} (out : O) {m : Io S A} (f : A → Io S (ℤ × O)) {s : S} where
  -- A body that goes on for a while: what is left runs with the same label.
  pub Yields-done_with_bind :
      {Q : A → S → Type 0} {R : ℤ × O → S → Type 0}
      → Yields m s Q
      → ((a : A) (t : S) → Q a t → Yields (done_with out (f a)) t R)
      → Yields (done_with out (m >>= f)) s R
  unfolding done_with ◌>>=◌
  Yields-done_with_bind y k =
      let rest = k y.result y.after y.holds in
      record {
        result = rest.result;
        after = rest.after;
        runs = ap (λ r. let x = continue r.0 f r.1 in (land_with out x.0, x.1)) y.runs ∙ rest.runs;
        holds = rest.holds;
      }

  pub Yields-done_with_then :
      {a : A} {Q : S → Type 0} {R : ℤ × O → S → Type 0}
      → Ends m s (value a) Q
      → ((t : S) → Q t → Yields (done_with out (f a)) t R)
      → Yields (done_with out (m >>= f)) s R
  unfolding done_with ◌>>=◌
  Yields-done_with_then e k =
      let rest = k e.after e.holds in
      record {
        result = rest.result;
        after = rest.after;
        runs = ap (λ r. let x = continue r.0 f r.1 in (land_with out x.0, x.1)) e.runs ∙ rest.runs;
        holds = rest.holds;
      }
