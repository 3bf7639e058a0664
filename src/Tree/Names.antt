-- ===== src/Tree/Names.antt =====
-- Lookups in a tree after a change, and the names of a list after one is added or removed.
use cbfuse.Prelude.{
  ◌⊎◌, ◌≡◌, ◌≢◌, refl, sym, ap, ◌∙◌, true, false, Option, List, [], ◌∷◌, ◌++◌, CString, str_eq,
  str_eq_iff, str_eq_refl, ne→str_eq, false≢true, Bool-cases, inl, inr, arith,
}
use cbfuse.Dentries.Removal.{without}
use cbfuse.Tree.{Node, Fs, set, lists}

-- What stands at a path after one change.
pub set-cases :
    (k : CString) (n : Option Node) (fs : Fs) (j : CString)
    → ((k ≡ j) × (set k n fs j ≡ n)) ⊎ ((k ≢ j) × (set k n fs j ≡ fs j))
set-cases k n fs j = elim (Bool-cases (str_eq k j)) [
  | inl same ↦ inl ((str_eq_iff k j).0 same, rw same refl)
  | inr other ↦ inr ((λ e. false≢true (sym other ∙ (str_eq_iff k j).1 e)), rw other refl)
]

-- What stands at a path after two changes, of which the second counts at its own path.
pub set_two-cases :
    (d : CString) (a : Option Node) (k : CString) (b : Option Node) (fs : Fs) (j : CString)
    → ((d ≡ j) × (set d a (set k b fs) j ≡ a))
      ⊎ ((d ≢ j) × (k ≡ j) × (set d a (set k b fs) j ≡ b))
      ⊎ ((d ≢ j) × (k ≢ j) × (set d a (set k b fs) j ≡ fs j))
set_two-cases d a k b fs j = elim (set-cases d a (set k b fs) j) [
  | inl here ↦ inl here
  | inr (other, e) ↦ elim (set-cases k b fs j) [
    | inl (same, h) ↦ inr (inl (other, same, e ∙ h))
    | inr (apart, h) ↦ inr (inr (other, apart, e ∙ h))
  ]
]

pub set_self : (k : CString) (n : Option Node) (fs : Fs) → set k n fs k ≡ n
set_self k n fs = rw (str_eq_refl k) refl

pub set_other : (k j : CString) (n : Option Node) (fs : Fs) → k ≢ j → set k n fs j ≡ fs j
set_other k j n fs h = rw (ne→str_eq k j h) refl

pub lists-append_new : (name : CString) (ns : List CString) → lists name (ns ++ (name ∷ [])) ≡ true
unfolding lists
lists-append_new name [] = rw (str_eq_refl name) refl
lists-append_new name (n ∷ ns) = ground (arith, lists-append_new name ns)

pub lists-append_old :
    (m name : CString) (ns : List CString) → lists m ns ≡ true → lists m (ns ++ (name ∷ [])) ≡ true
unfolding lists
lists-append_old m name [] h = cc
lists-append_old m name (n ∷ ns) h = ground (arith, lists-append_old m name ns)

pub lists-append-cases :
    (m name : CString) (ns : List CString)
    → lists m (ns ++ (name ∷ [])) ≡ true
    → (lists m ns ≡ true) ⊎ (name ≡ m)
unfolding lists
lists-append-cases m name [] h = inr ((str_eq_iff name m).0 (ground arith))
lists-append-cases m name (n ∷ ns) h = elim (Bool-cases (str_eq n m)) [
  | inl same ↦ inl (rw same refl)
  | inr other ↦ elim (lists-append-cases m name ns (ground arith)) [
    | inl old ↦ inl (rw (other, old) refl)
    | inr new ↦ inr new
  ]
]

pub lists-empty : (m : CString) (ns : List CString) → ns ≡ [] → lists m ns ≢ true
unfolding lists
lists-empty m ns e h = false≢true (sym (ap (lists m) e) ∙ h)

pub lists-without_other :
    (m name : CString) (ns : List CString)
    → name ≢ m
    → lists m ns ≡ true
    → lists m (without name ns) ≡ true
unfolding lists
lists-without_other m name [] apart h = h
lists-without_other m name (n ∷ ns) apart h = elim (Bool-cases (str_eq n name)) [
  | inl same ↦
      let e : n ≡ name = (str_eq_iff n name).0 same in
      let f : str_eq n m ≡ false = ne→str_eq n m (λ q. apart (sym e ∙ q)) in
      rw same (lists-without_other m name ns apart (ground arith))
  | inr other ↦ rw other (ground (arith, lists-without_other m name ns apart))
]

-- A name that is left was there, and is not the one removed.
pub lists-without :
    (m name : CString) (ns : List CString)
    → lists m (without name ns) ≡ true
    → (lists m ns ≡ true) × (name ≢ m)
unfolding lists
lists-without m name [] h = cc
lists-without m name (n ∷ ns) h = elim (Bool-cases (str_eq n name)) [
  | inl same ↦ let (old, apart) = lists-without m name ns (ground arith) in (ground arith, apart)
  | inr other ↦ elim (Bool-cases (str_eq n m)) [
    | inl this ↦ (
      rw this refl,
      λ e. false≢true (sym other ∙ (str_eq_iff n name).1 ((str_eq_iff n m).0 this ∙ sym e)),
    )
    | inr apart ↦
        let (old, h') = lists-without m name ns (ground arith) in (rw (apart, old) refl, h')
  ]
]
