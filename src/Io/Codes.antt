-- ===== src/Io/Codes.antt =====
-- Which results a statement can end with, on any platform.
use cbfuse.Prelude.{
  ◌+◌, if◌then◌else◌, ℤ, pos, negsuc, ◌≡◌, refl, Bool, true, false, Option, some, none, ◌==◌,
  is_zero, Bool-cases, inl, inr,
}
use cbfuse.Common.{eio, enoent, ebadf, enomem, einval, efbig, enametoolong}
use cbfuse.Io.{
  Io, Outcome, value, goto_done, fault, pure, jump, crash, perform, continue, ◌>>=◌, Reply, ok, err,
  returning, finish, done_with, land, land_with, label_done, if_true, if_false, if_fr_error,
  if_null, deref, or_done,
}

-- The error codes of the operations, with the one that lacks its minus sign.
abbrev pub is_error : ℤ → Bool
is_error (pos n) = n == enametoolong
is_error (negsuc n) =
    if n + 1 == eio
    then true
    else if n + 1 == enoent
    then true
    else if n + 1 == ebadf
    then true
    else if n + 1 == enomem
    then true
    else if n + 1 == einval
    then true
    else n + 1 == efbig

-- 0 or an error.
abbrev pub is_code : ℤ → Bool
is_code fr = if is_zero fr then true else is_error fr

abbrev pub Meets : {A : Type 0} → (A → Type 0) → Outcome A → Type 0
Meets Q (value a) = Q a
Meets Q (goto_done fr) = is_code fr ≡ true
Meets Q fault = Unit

-- From every state: a value has the property, and a jump carries a code.
pub record Ensures {S A : Type 0} (m : Io S A) (Q : A → Type 0) : Type 0 where
  pub meets : (s : S) → Meets Q (m s).0

Meets-map :
    {A : Type 0} (Q R : A → Type 0) (o : Outcome A) → ((a : A) → Q a → R a) → Meets Q o → Meets R o
Meets-map Q R (value a) f q = f a q
Meets-map Q R (goto_done fr) f q = q
Meets-map Q R fault f q = q

module _ {S A : Type 0} where
  pub Ensures-pure : {Q : A → Type 0} (a : A) → Q a → Ensures {S = S} (pure a) Q
  Ensures-pure a q = record { meets = λ s. q }

  pub Ensures-jump : {Q : A → Type 0} (fr : ℤ) → is_code fr ≡ true → Ensures {S = S} (jump fr) Q
  Ensures-jump fr c = record { meets = λ s. c }

  pub Ensures-crash : {Q : A → Type 0} → Ensures {S = S} crash Q
  Ensures-crash = record { meets = λ s. tt }

  pub Ensures-perform : (f : S → A × S) → Ensures (perform f) (λ a. Unit {0})
  Ensures-perform f = record { meets = λ s. tt }

  pub Ensures-if_null :
      (o : Option A) (fr : ℤ) → is_code fr ≡ true → Ensures {S = S} (if_null o fr) (λ a. Unit {0})
  Ensures-if_null (some a) fr c = record { meets = λ s. tt }
  Ensures-if_null none fr c = record { meets = λ s. c }

  pub Ensures-deref : (o : Option A) → Ensures {S = S} (deref o) (λ a. Unit {0})
  Ensures-deref (some a) = record { meets = λ s. tt }
  Ensures-deref none = record { meets = λ s. tt }

  pub Ensures-map :
      {m : Io S A} {Q R : A → Type 0} → Ensures m Q → ((a : A) → Q a → R a) → Ensures m R
  Ensures-map {Q = Q} {R} e f = record { meets = λ s. Meets-map Q R _ f (e.meets s) }

module _ {S : Type 0} where
  pub Ensures-if_true :
      (b : Bool) (fr : ℤ) → is_code fr ≡ true → Ensures {S = S} (if_true b fr) (λ a. b ≡ false)
  Ensures-if_true true fr c = record { meets = λ s. c }
  Ensures-if_true false fr c = record { meets = λ s. refl }

  pub Ensures-if_false :
      (b : Bool) (fr : ℤ) → is_code fr ≡ true → Ensures {S = S} (if_false b fr) (λ a. b ≡ true)
  Ensures-if_false true fr c = record { meets = λ s. refl }
  Ensures-if_false false fr c = record { meets = λ s. c }

  pub Ensures-if_fr_error :
      (fr : ℤ) → is_code fr ≡ true → Ensures {S = S} (if_fr_error fr) (λ a. Unit {0})
  Ensures-if_fr_error fr c = elim (Bool-cases (is_zero fr)) [
    | inl here ↦ rw here (Ensures-pure tt tt)
    | inr other ↦ rw other (Ensures-jump fr c)
  ]

module _ {S B : Type 0} where
  pub Ensures-if :
      (b : Bool) (m n : Io S B) {Q : B → Type 0}
      → Ensures m Q
      → Ensures n Q
      → Ensures (if b then m else n) Q
  Ensures-if true m n e f = e
  Ensures-if false m n e f = f

module _ {S A B : Type 0} where
  Meets-continue :
      (Q : A → Type 0) (R : B → Type 0) (f : A → Io S B) (o : Outcome A) (s : S)
      → ((a : A) → Q a → Ensures (f a) R)
      → Meets Q o
      → Meets R (continue o f s).0
  Meets-continue Q R f (value a) s k q = Ensures.meets (k a q) s
  Meets-continue Q R f (goto_done fr) s k q = q
  Meets-continue Q R f fault s k q = q

  pub Ensures-bind :
      {m : Io S A} {f : A → Io S B} {Q : A → Type 0} {R : B → Type 0}
      → Ensures m Q
      → ((a : A) → Q a → Ensures (f a) R)
      → Ensures (m >>= f) R
  unfolding ◌>>=◌
  Ensures-bind {f = f} {Q} {R} e k = record { meets = λ s. Meets-continue Q R f _ _ k (e.meets s) }

module _ {S A B : Type 0} where
  -- What a statement gives does not matter for the rest.
  pub Ensures-then :
      {m : Io S A} {f : A → Io S B} {Q : A → Type 0} {R : B → Type 0}
      → Ensures m Q
      → ((a : A) → Ensures (f a) R)
      → Ensures (m >>= f) R
  Ensures-then e k = Ensures-bind e (λ a q. k a)

-- A reply with an error.
abbrev pub IsReply : {A : Type 0} → Reply A → Type 0
IsReply (ok a) = Unit
IsReply (err fr) = is_code fr ≡ true

Meets-label :
    {A : Type 0} (Q : A → Type 0) (o : Outcome A)
    → Meets Q o
    → Meets (IsReply {A = A}) (label_done o)
Meets-label Q (value a) q = tt
Meets-label Q (goto_done fr) q = q
Meets-label Q fault q = tt

module _ {S A : Type 0} where
  pub Ensures-returning :
      {m : Io S A} {Q : A → Type 0} → Ensures m Q → Ensures (returning m) (IsReply {A = A})
  unfolding returning
  Ensures-returning {Q = Q} e = record { meets = λ s. Meets-label Q _ (e.meets s) }

  pub Ensures-or_done : (r : Reply A) → IsReply r → Ensures {S = S} (or_done r) (λ a. Unit {0})
  Ensures-or_done (ok a) h = record { meets = λ s. tt }
  Ensures-or_done (err fr) h = record { meets = λ s. h }

abbrev pub IsCode : ℤ → Type 0
IsCode fr = is_code fr ≡ true

Meets-land : (o : Outcome ℤ) → Meets IsCode o → Meets IsCode (land o)
Meets-land (value fr) c = c
Meets-land (goto_done fr) c = c
Meets-land fault c = tt

module _ {S : Type 0} where
  -- A body whose values and jumps are codes.
  pub Ensures-finish : {m : Io S ℤ} → Ensures m IsCode → Ensures (finish m) IsCode
  unfolding finish
  Ensures-finish e = record { meets = λ s. Meets-land _ (e.meets s) }

Meets-land_with :
    {O : Type 0} (out : O) (Q : ℤ × O → Type 0) (o : Outcome (ℤ × O))
    → ((fr : ℤ) → IsCode fr → Q (fr, out))
    → Meets Q o
    → Meets Q (land_with out o)
Meets-land_with out Q (value r) f q = q
Meets-land_with out Q (goto_done fr) f q = f fr q
Meets-land_with out Q fault f q = tt

module _ {S O : Type 0} (out : O) where
  pub Ensures-done_with :
      {m : Io S (ℤ × O)} {Q : ℤ × O → Type 0}
      → Ensures m Q
      → ((fr : ℤ) → IsCode fr → Q (fr, out))
      → Ensures (done_with out m) Q
  unfolding done_with
  Ensures-done_with {Q = Q} e f = record { meets = λ s. Meets-land_with out Q _ f (e.meets s) }
