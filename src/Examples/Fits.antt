-- ===== src/Examples/Fits.antt =====
-- Documents that fit, for the server in memory: each change of one document keeps them so.
use cbfuse.Prelude.{
  ◌≡◌, ◌⊎◌, inl, inr, refl, sym, ◌∙◌, subst, Option, none, some, none-ne-some, some-injective, List,
  CString, length, ℕ, str_eq, str_eq_iff, Bool-cases,
}
use native.Mathlib.Decide.{dec_le}
use cbfuse.Common.{Collection, stats, dentries, blocks, max_key_len, max_doc_len}
use cbfuse.Platform.Reliable.{Contents, same_collection, put, Fits}
use cbfuse.Platform.Puts.{same_collection→eq}

both_dec : {A B : Type 0} → Dec A → Dec B → Dec (A × B)
both_dec (yes a) (yes b) = yes (a, b)
both_dec (yes a) (no nb) = no (λ h. nb h.1)
both_dec (no na) d = no (λ h. na h.0)

-- Every document fits.
abbrev pub AllFit : Contents → Type 0
AllFit docs = (c : Collection) (k : CString) (v : List ℕ) → docs c k ≡ some v → Fits c k v

pub empty-AllFit : AllFit (λ c k. none)
empty-AllFit c k v e = absurd (none-ne-some v e)

put-cases :
    (c : Collection) (k : CString) (v : Option (List ℕ)) (docs : Contents) (d : Collection)
    (j : CString)
    → ((c ≡ d) × (k ≡ j) × (put c k v docs d j ≡ v)) ⊎ (put c k v docs d j ≡ docs d j)
unfolding put
put-cases c k v docs d j = elim (Bool-cases (same_collection c d)) [
  | inr other ↦ inr (rw other refl)
  | inl same ↦ elim (Bool-cases (str_eq k j)) [
    | inr apart ↦ inr (rw (same, apart) refl)
    | inl e ↦ inl (same_collection→eq c d same, (str_eq_iff k j).0 e, rw (same, e) refl)
  ]
]

put-AllFit :
    (c : Collection) (k : CString) (v : Option (List ℕ)) (docs : Contents)
    → ((w : List ℕ) → v ≡ some w → Fits c k w)
    → AllFit docs
    → AllFit (put c k v docs)
put-AllFit c k v docs fit all d j w e = elim (put-cases c k v docs d j) [
  | inl (same_c, same_k, there) ↦ rw (← same_c, ← same_k) (fit w (sym there ∙ e))
  | inr there ↦ all d j w (sym there ∙ e)
]

-- A document is put, or removed.
pub stored-AllFit :
    (c : Collection) (k : CString) (v : List ℕ) (docs : Contents)
    → Fits c k v
    → AllFit docs
    → AllFit (put c k (some v) docs)
stored-AllFit c k v docs fit =
    put-AllFit c k (some v) docs (λ w e. subst (Fits c k) (some-injective v w e) fit)

pub removed-AllFit :
    (c : Collection) (k : CString) (docs : Contents) → AllFit docs → AllFit (put c k none docs)
removed-AllFit c k docs = put-AllFit c k none docs (λ w e. absurd (none-ne-some w e))

Dec-cases : {A : Type 0} (d : Dec A) → ((a : A) × (d ≡ yes a)) ⊎ ((h : ¬ A) × (d ≡ no h))
Dec-cases (yes a) = inl (a, refl)
Dec-cases (no h) = inr (h, refl)

-- Whether a document fits.
pub fits_dec : (c : Collection) (k : CString) (v : List ℕ) → Dec (Fits c k v)
fits_dec stats k v = both_dec (dec_le (length k) max_key_len) (dec_le (length v) max_doc_len)
fits_dec dentries k v = both_dec (dec_le (length k) max_key_len) (yes tt)
fits_dec blocks k v = both_dec (dec_le (length k) max_key_len) (dec_le (length v) max_doc_len)

pub fits_dec-yes :
    (c : Collection) (k : CString) (v : List ℕ)
    → Fits c k v
    → (fit : Fits c k v) × (fits_dec c k v ≡ yes fit)
fits_dec-yes c k v fit = elim (Dec-cases (fits_dec c k v)) [
  | inl found ↦ found
  | inr (large, e) ↦ absurd (large fit)
]

pub fits_dec-no :
    (c : Collection) (k : CString) (v : List ℕ)
    → ¬ Fits c k v
    → (large : ¬ Fits c k v) × (fits_dec c k v ≡ no large)
fits_dec-no c k v large = elim (Dec-cases (fits_dec c k v)) [
  | inl (fit, e) ↦ absurd (large fit)
  | inr found ↦ found
]
