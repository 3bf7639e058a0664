-- ===== src/Io/Rules.antt =====
-- Running a body: what it ends with and where, and the rule for each way to build a body.
use cbfuse.Prelude.{ℤ, ◌≡◌, refl, sym, ap, ◌∙◌, subst}
use cbfuse.Io.{
  Io, pure, jump, crash, perform, Outcome, value, goto_done, fault, ok, err, continue, ◌>>=◌,
  label_done, returning, land, finish,
}

-- From `s`, `m` ends with `o` in a state that meets `Q`.
pub record Ends {S A : Type 0} (m : Io S A) (s : S) (o : Outcome A) (Q : S → Type 0) : Type 0 where
  pub after : S
  pub runs : m s ≡ (o, after)
  pub holds : Q after

-- From `s`, `m` goes on with some value, and the two meet `Q`.
pub record Yields {S A : Type 0} (m : Io S A) (s : S) (Q : A → S → Type 0) : Type 0 where
  pub result : A
  pub after : S
  pub runs : m s ≡ (value result, after)
  pub holds : Q result after

module _ {S A : Type 0} where
  pub Yields-map :
      {m : Io S A} {s : S} {Q R : A → S → Type 0}
      → Yields m s Q
      → ((a : A) (t : S) → Q a t → R a t)
      → Yields m s R
  Yields-map y f = record {
    result = y.result;
    after = y.after;
    runs = y.runs;
    holds = f y.result y.after y.holds;
  }

  pub Ends-map :
      {m : Io S A} {s : S} {o : Outcome A} {Q R : S → Type 0}
      → Ends m s o Q
      → ((t : S) → Q t → R t)
      → Ends m s o R
  Ends-map e f = record { after = e.after; runs = e.runs; holds = f e.after e.holds }

  pub Ends→Yields :
      {m : Io S A} {s : S} {Q : S → Type 0} (a : A)
      → Ends m s (value a) Q
      → Yields m s (λ b t. (b ≡ a) × Q t)
  Ends→Yields a e = record { result = a; after = e.after; runs = e.runs; holds = (refl, e.holds) }

module _ {S A B : Type 0} {m : Io S A} {f : A → Io S B} {s : S} where
  -- What comes first goes on: the rest runs from the state that it left.
  pub Yields-bind :
      {Q : A → S → Type 0} {R : B → S → Type 0}
      → Yields m s Q
      → ((a : A) (t : S) → Q a t → Yields (f a) t R)
      → Yields (m >>= f) s R
  unfolding ◌>>=◌
  Yields-bind y k =
      let rest = k y.result y.after y.holds in
      record {
        result = rest.result;
        after = rest.after;
        runs = ap (λ r. continue r.0 f r.1) y.runs ∙ rest.runs;
        holds = rest.holds;
      }

  pub Ends-bind :
      {Q : A → S → Type 0} {o : Outcome B} {R : S → Type 0}
      → Yields m s Q
      → ((a : A) (t : S) → Q a t → Ends (f a) t o R)
      → Ends (m >>= f) s o R
  unfolding ◌>>=◌
  Ends-bind y k =
      let rest = k y.result y.after y.holds in
      record {
        after = rest.after;
        runs = ap (λ r. continue r.0 f r.1) y.runs ∙ rest.runs;
        holds = rest.holds;
      }

module _ {S A B : Type 0} {m : Io S A} (f : A → Io S B) {s : S} where
  -- What comes first jumps: so does the whole.
  pub Ends-jump :
      {fr : ℤ} {R : S → Type 0} → Ends m s (goto_done fr) R → Ends (m >>= f) s (goto_done fr) R
  unfolding ◌>>=◌
  Ends-jump e = record {
    after = e.after;
    runs = ap (λ r. continue r.0 f r.1) e.runs;
    holds = e.holds;
  }

  pub Ends-crash : {R : S → Type 0} → Ends m s fault R → Ends (m >>= f) s fault R
  unfolding ◌>>=◌
  Ends-crash e = record {
    after = e.after;
    runs = ap (λ r. continue r.0 f r.1) e.runs;
    holds = e.holds;
  }

module _ {S A : Type 0} {m : Io S A} {s : S} where
  pub Ends-returning :
      {fr : ℤ} {R : S → Type 0}
      → Ends m s (goto_done fr) R
      → Ends (returning m) s (value (err fr)) R
  unfolding returning
  Ends-returning e = record {
    after = e.after;
    runs = ap (λ r. (label_done r.0, r.1)) e.runs;
    holds = e.holds;
  }

  pub Yields-returning :
      {Q : A → S → Type 0}
      → Yields m s Q
      → Yields (returning m) s (λ r t. (a : A) × (r ≡ ok a) × Q a t)
  unfolding returning
  Yields-returning y = record {
    result = ok y.result;
    after = y.after;
    runs = ap (λ r. (label_done r.0, r.1)) y.runs;
    holds = (y.result, refl, y.holds);
  }

module _ {S : Type 0} {m : Io S ℤ} {s : S} {R : S → Type 0} where
  pub Ends-finish_jump : {fr : ℤ} → Ends m s (goto_done fr) R → Ends (finish m) s (value fr) R
  unfolding finish
  Ends-finish_jump e = record {
    after = e.after;
    runs = ap (λ r. (land r.0, r.1)) e.runs;
    holds = e.holds;
  }

  pub Ends-finish : {fr : ℤ} → Ends m s (value fr) R → Ends (finish m) s (value fr) R
  unfolding finish
  Ends-finish e = record {
    after = e.after;
    runs = ap (λ r. (land r.0, r.1)) e.runs;
    holds = e.holds;
  }

  pub Ends-finish_fault : Ends m s fault R → Ends (finish m) s fault R
  unfolding finish
  Ends-finish_fault e = record {
    after = e.after;
    runs = ap (λ r. (land r.0, r.1)) e.runs;
    holds = e.holds;
  }

module _ {S A B : Type 0} {m : Io S A} (f : A → Io S B) {s : S} {a : A} {Q : S → Type 0} where
  -- What comes first goes on with a known value.
  pub Ends-then :
      {o : Outcome B} {R : S → Type 0}
      → Ends m s (value a) Q
      → ((t : S) → Q t → Ends (f a) t o R)
      → Ends (m >>= f) s o R
  unfolding ◌>>=◌
  Ends-then e k =
      let rest = k e.after e.holds in
      record {
        after = rest.after;
        runs = ap (λ r. continue r.0 f r.1) e.runs ∙ rest.runs;
        holds = rest.holds;
      }

  pub Yields-then :
      {R : B → S → Type 0}
      → Ends m s (value a) Q
      → ((t : S) → Q t → Yields (f a) t R)
      → Yields (m >>= f) s R
  unfolding ◌>>=◌
  Yields-then e k =
      let rest = k e.after e.holds in
      record {
        result = rest.result;
        after = rest.after;
        runs = ap (λ r. continue r.0 f r.1) e.runs ∙ rest.runs;
        holds = rest.holds;
      }

module _ {S A : Type 0} (f : S → A × S) (s : S) where
  -- A call of the outside world that gives a known value.
  pub Ends-perform :
      (a : A) (Q : S → Type 0) → (f s).0 ≡ a → Q (f s).1 → Ends (perform f) s (value a) Q
  Ends-perform a Q e q = record {
    after = (f s).1;
    runs = ap (λ x. (value x, (f s).1)) e;
    holds = q;
  }

module _ {S A : Type 0} where
  pub Ends-pure : (a : A) (s : S) {Q : S → Type 0} → Q s → Ends (pure a) s (value a) Q
  Ends-pure a s q = record { after = s; runs = refl; holds = q }

  pub Ends-jump_at :
      (fr : ℤ) (s : S) {Q : S → Type 0} → Q s → Ends (jump {A = A} fr) s (goto_done fr) Q
  Ends-jump_at fr s q = record { after = s; runs = refl; holds = q }

  pub Ends-crash_at : (s : S) {Q : S → Type 0} → Q s → Ends (crash {A = A}) s fault Q
  Ends-crash_at s q = record { after = s; runs = refl; holds = q }

  -- The same body, written in another way.
  pub Ends-subst :
      {m n : Io S A} {s : S} {o : Outcome A} {Q : S → Type 0} → n ≡ m → Ends m s o Q → Ends n s o Q
  Ends-subst {s = s} {o} {Q} p e = subst (λ x. Ends x s o Q) (sym p) e

module _ {S A B : Type 0} (f : S → A × S) (g : A → Io S B) {s : S} {a : A} where
  -- A call of the outside world, with the state that it leaves.
  pub Ends-call :
      {o : Outcome B} {R : S → Type 0}
      → (f s).0 ≡ a
      → Ends (g a) (f s).1 o R
      → Ends (perform f >>= g) s o R
  unfolding ◌>>=◌
  Ends-call e rest = record {
    after = rest.after;
    runs = ap (λ x. g x (f s).1) e ∙ rest.runs;
    holds = rest.holds;
  }

  pub Yields-call :
      {R : B → S → Type 0} → (f s).0 ≡ a → Yields (g a) (f s).1 R → Yields (perform f >>= g) s R
  unfolding ◌>>=◌
  Yields-call e rest = record {
    result = rest.result;
    after = rest.after;
    runs = ap (λ x. g x (f s).1) e ∙ rest.runs;
    holds = rest.holds;
  }

module _ {S A : Type 0} where
  pub Yields-pure : (a : A) (s : S) {Q : A → S → Type 0} → Q a s → Yields (pure a) s Q
  Yields-pure a s q = record { result = a; after = s; runs = refl; holds = q }

module _ {S A B : Type 0} (f : A → Io S B) {a : A} {s : S} where
  -- A step that has computed.
  pub Ends-next : {o : Outcome B} {R : S → Type 0} → Ends (f a) s o R → Ends (pure a >>= f) s o R
  unfolding ◌>>=◌
  Ends-next e = record { after = e.after; runs = e.runs; holds = e.holds }

  pub Yields-next : {R : B → S → Type 0} → Yields (f a) s R → Yields (pure a >>= f) s R
  unfolding ◌>>=◌
  Yields-next e = record { result = e.result; after = e.after; runs = e.runs; holds = e.holds }

module _ {S A : Type 0} {m : Io S A} {s : S} {a : A} {R : S → Type 0} where
  pub Ends-returning_value : Ends m s (value a) R → Ends (returning m) s (value (ok a)) R
  unfolding returning
  Ends-returning_value e = record {
    after = e.after;
    runs = ap (λ r. (label_done r.0, r.1)) e.runs;
    holds = e.holds;
  }

module _ {S : Type 0} {m : Io S ℤ} {s : S} {R : ℤ → S → Type 0} where
  pub Yields-finish : Yields m s R → Yields (finish m) s R
  unfolding finish
  Yields-finish e = record {
    result = e.result;
    after = e.after;
    runs = ap (λ r. (land r.0, r.1)) e.runs;
    holds = e.holds;
  }

module _ {S A : Type 0} {f : S → A × S} {s : S} {a : A} where
  pub Yields-perform : {Q : A → S → Type 0} → (f s).0 ≡ a → Q a (f s).1 → Yields (perform f) s Q
  Yields-perform e q = record {
    result = a;
    after = (f s).1;
    runs = ap (λ x. (value x, (f s).1)) e;
    holds = q;
  }
