-- ===== src/Io/Leaves.antt =====
-- Where a body may leave the state, however it ends, and the rule for each way to build a body.
use cbfuse.Prelude.{
  ℤ, ◌≡◌, refl, Bool, true, false, Option, none, some, if◌then◌else◌, is_zero, Bool-cases, inl, inr,
}
use cbfuse.Io.Codes.{Meets, Ensures}
use cbfuse.Io.{
  Io, Outcome, value, goto_done, fault, Reply, ok, err, pure, jump, crash, perform, continue, ◌>>=◌,
  returning, finish, done_with, label_done, land, land_with, if_true, if_false, if_fr_error,
  if_null, deref, or_done,
}

-- `Q` for a value, `E` for a jump with its result and for a fault.
abbrev pub Met :
    {S A : Type 0} → (A → S → Type 0) → (Option ℤ → S → Type 0) → Outcome A → S → Type 0
Met Q E (value a) t = Q a t
Met Q E (goto_done fr) t = E (some fr) t
Met Q E fault t = E none t

-- From `s`, `m` ends as `Q` and `E` say.
pub record Leaves {S A : Type 0} (m : Io S A) (s : S) (Q : A → S → Type 0)
    (E : Option ℤ → S → Type 0) : Type 0 where
  pub meets : Met Q E (m s).0 (m s).1

module _ {S A : Type 0} where
  Met-map :
      (Q R : A → S → Type 0) (E E' : Option ℤ → S → Type 0) (o : Outcome A) (t : S)
      → ((a : A) → Q a t → R a t)
      → ((e : Option ℤ) → E e t → E' e t)
      → Met Q E o t
      → Met R E' o t
  Met-map Q R E E' (value a) t f g q = f a q
  Met-map Q R E E' (goto_done fr) t f g q = g (some fr) q
  Met-map Q R E E' fault t f g q = g none q

  pub Leaves-map :
      {m : Io S A} {s : S} {Q R : A → S → Type 0} {E E' : Option ℤ → S → Type 0}
      → Leaves m s Q E
      → ((a : A) (t : S) → Q a t → R a t)
      → ((e : Option ℤ) (t : S) → E e t → E' e t)
      → Leaves m s R E'
  Leaves-map {m} {s} {Q} {R} {E} {E'} l f g = record {
    meets = Met-map Q R E E' (m s).0 (m s).1 (λ a. f a (m s).1) (λ e. g e (m s).1) l.meets;
  }

-- What a statement ensures from every state, beside how it leaves this one.
module _ {S A : Type 0} where
  Met-ensured :
      (Q : A → S → Type 0) (E : Option ℤ → S → Type 0) (R : A → Type 0) (o : Outcome A) (t : S)
      → Met Q E o t
      → Meets R o
      → Met (λ a u. Q a u × R a) E o t
  Met-ensured Q E R (value a) t q r = (q, r)
  Met-ensured Q E R (goto_done fr) t q r = q
  Met-ensured Q E R fault t q r = q

  pub Leaves-ensured :
      {m : Io S A} {s : S} {Q : A → S → Type 0} {E : Option ℤ → S → Type 0} {R : A → Type 0}
      → Leaves m s Q E
      → Ensures m R
      → Leaves m s (λ a u. Q a u × R a) E
  Leaves-ensured {m} {s} {Q} {E} {R} l e = record {
    meets = Met-ensured Q E R (m s).0 (m s).1 l.meets (e.meets s);
  }

module _ {S A : Type 0} {E : Option ℤ → S → Type 0} where
  pub Leaves-pure : {Q : A → S → Type 0} (a : A) {s : S} → Q a s → Leaves (pure a) s Q E
  Leaves-pure a q = record { meets = q }

  pub Leaves-jump : {Q : A → S → Type 0} (fr : ℤ) {s : S} → E (some fr) s → Leaves (jump fr) s Q E
  Leaves-jump fr e = record { meets = e }

  pub Leaves-crash : {Q : A → S → Type 0} {s : S} → E none s → Leaves crash s Q E
  Leaves-crash e = record { meets = e }

  pub Leaves-perform :
      {Q : A → S → Type 0} (f : S → A × S) {s : S} → Q (f s).0 (f s).1 → Leaves (perform f) s Q E
  Leaves-perform f q = record { meets = q }

  pub Leaves-if_null :
      {Q : A → S → Type 0} (o : Option A) (fr : ℤ) {s : S}
      → ((a : A) → o ≡ some a → Q a s)
      → E (some fr) s
      → Leaves (if_null o fr) s Q E
  Leaves-if_null (some a) fr q e = record { meets = q a refl }
  Leaves-if_null none fr q e = record { meets = e }

  pub Leaves-deref :
      {Q : A → S → Type 0} (o : Option A) {s : S}
      → ((a : A) → o ≡ some a → Q a s)
      → E none s
      → Leaves (deref o) s Q E
  Leaves-deref (some a) q e = record { meets = q a refl }
  Leaves-deref none q e = record { meets = e }

  pub Leaves-if :
      {Q : A → S → Type 0} (b : Bool) (m n : Io S A) {s : S}
      → (b ≡ true → Leaves m s Q E)
      → (b ≡ false → Leaves n s Q E)
      → Leaves (if b then m else n) s Q E
  Leaves-if true m n l l' = l refl
  Leaves-if false m n l l' = l' refl

module _ {S : Type 0} {E : Option ℤ → S → Type 0} where
  pub Leaves-if_true :
      {Q : Unit {0} → S → Type 0} (b : Bool) (fr : ℤ) {s : S}
      → (b ≡ false → Q tt s)
      → E (some fr) s
      → Leaves (if_true b fr) s Q E
  Leaves-if_true true fr q e = record { meets = e }
  Leaves-if_true false fr q e = record { meets = q refl }

  pub Leaves-if_false :
      {Q : Unit {0} → S → Type 0} (b : Bool) (fr : ℤ) {s : S}
      → (b ≡ true → Q tt s)
      → E (some fr) s
      → Leaves (if_false b fr) s Q E
  Leaves-if_false true fr q e = record { meets = q refl }
  Leaves-if_false false fr q e = record { meets = e }

  pub Leaves-if_fr_error :
      {Q : Unit {0} → S → Type 0} (fr : ℤ) {s : S}
      → (is_zero fr ≡ true → Q tt s)
      → (is_zero fr ≡ false → E (some fr) s)
      → Leaves (if_fr_error fr) s Q E
  Leaves-if_fr_error fr q e = elim (Bool-cases (is_zero fr)) [
    | inl here ↦ rw here (Leaves-pure tt (q here))
    | inr other ↦ rw other (Leaves-jump fr (e other))
  ]

module _ {S A B : Type 0} {E : Option ℤ → S → Type 0} where
  Met-continue :
      (Q : A → S → Type 0) (R : B → S → Type 0) (f : A → Io S B) (o : Outcome A) (t : S)
      → ((a : A) → Q a t → Leaves (f a) t R E)
      → Met Q E o t
      → Met R E (continue o f t).0 (continue o f t).1
  Met-continue Q R f (value a) t k q = Leaves.meets (k a q)
  Met-continue Q R f (goto_done fr) t k q = q
  Met-continue Q R f fault t k q = q

  pub Leaves-bind :
      {m : Io S A} {f : A → Io S B} {s : S} {Q : A → S → Type 0} {R : B → S → Type 0}
      → Leaves m s Q E
      → ((a : A) (t : S) → Q a t → Leaves (f a) t R E)
      → Leaves (m >>= f) s R E
  unfolding ◌>>=◌
  Leaves-bind {m} {f} {s} {Q} {R} l k = record {
    meets = Met-continue Q R f (m s).0 (m s).1 (λ a. k a (m s).1) l.meets;
  }

module _ {S : Type 0} (Q R : ℤ → S → Type 0) (E E' : Option ℤ → S → Type 0) where
  Met-land :
      (o : Outcome ℤ) (t : S)
      → ((fr : ℤ) → Q fr t → R fr t)
      → ((fr : ℤ) → E (some fr) t → R fr t)
      → (E none t → E' none t)
      → Met Q E o t
      → Met R E' (land o) t
  Met-land (value fr) t f g h q = f fr q
  Met-land (goto_done fr) t f g h q = g fr q
  Met-land fault t f g h q = h q

  -- What a body jumps with, the function returns.
  pub Leaves-finish :
      {m : Io S ℤ} {s : S}
      → Leaves m s Q E
      → ((fr : ℤ) (t : S) → Q fr t → R fr t)
      → ((fr : ℤ) (t : S) → E (some fr) t → R fr t)
      → ((t : S) → E none t → E' none t)
      → Leaves (finish m) s R E'
  unfolding finish
  Leaves-finish {m} {s} l f g h = record {
    meets = Met-land (m s).0 (m s).1 (λ a. f a (m s).1) (λ a. g a (m s).1) (h (m s).1) l.meets;
  }

module _ {S A : Type 0} (Q : A → S → Type 0) (E : Option ℤ → S → Type 0) where
  -- What a reply carries.
  abbrev pub Replied : Reply A → S → Type 0
  Replied (ok a) t = Q a t
  Replied (err fr) t = E (some fr) t

  Met-label : (o : Outcome A) (t : S) → Met Q E o t → Met Replied E (label_done o) t
  Met-label (value a) t q = q
  Met-label (goto_done fr) t q = q
  Met-label fault t q = q

  pub Leaves-returning : {m : Io S A} {s : S} → Leaves m s Q E → Leaves (returning m) s Replied E
  unfolding returning
  Leaves-returning {m} {s} l = record { meets = Met-label (m s).0 (m s).1 l.meets }

  pub Leaves-or_done : (r : Reply A) {s : S} → Replied r s → Leaves (or_done r) s Q E
  Leaves-or_done (ok a) q = record { meets = q }
  Leaves-or_done (err fr) q = record { meets = q }

module _ {S A B : Type 0} {E : Option ℤ → S → Type 0} {R : B → S → Type 0} where
  -- A call of the outside world, with the state that it leaves.
  pub Leaves-call :
      (f : S → A × S) (g : A → Io S B) {s : S}
      → Leaves (g (f s).0) (f s).1 R E
      → Leaves (perform f >>= g) s R E
  unfolding ◌>>=◌
  Leaves-call f g l = record { meets = l.meets }

module _ {S O : Type 0} (out : O) (Q R : ℤ × O → S → Type 0) (E E' : Option ℤ → S → Type 0) where
  Met-land_with :
      (o : Outcome (ℤ × O)) (t : S)
      → ((r : ℤ × O) → Q r t → R r t)
      → ((fr : ℤ) → E (some fr) t → R (fr, out) t)
      → (E none t → E' none t)
      → Met Q E o t
      → Met R E' (land_with out o) t
  Met-land_with (value r) t f g h q = f r q
  Met-land_with (goto_done fr) t f g h q = g fr q
  Met-land_with fault t f g h q = h q

  -- What a body jumps with, the function returns beside what it has written for its caller.
  pub Leaves-done_with :
      {m : Io S (ℤ × O)} {s : S}
      → Leaves m s Q E
      → ((r : ℤ × O) (t : S) → Q r t → R r t)
      → ((fr : ℤ) (t : S) → E (some fr) t → R (fr, out) t)
      → ((t : S) → E none t → E' none t)
      → Leaves (done_with out m) s R E'
  unfolding done_with
  Leaves-done_with {m} {s} l f g h = record {
    meets =
        Met-land_with (m s).0 (m s).1 (λ r. f r (m s).1) (λ fr. g fr (m s).1) (h (m s).1) l.meets;
  }
