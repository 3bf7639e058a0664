-- ===== src/Platform/Puts.antt =====
-- What a changed document leaves of the others.
use cbfuse.Prelude.{
  ◌≡◌, ◌≢◌, Option, List, ℕ, CString, str_eq_refl, ne→str_eq, false, true, arith, refl, inl, inr,
  Bool-cases, str_eq, str_eq_iff,
}
use cbfuse.Common.{Collection, stats, dentries, blocks}
use cbfuse.Platform.Reliable.{Contents, same_collection, put}

pub same_collection→eq : (c d : Collection) → same_collection c d ≡ true → c ≡ d
same_collection→eq stats stats h = refl
same_collection→eq stats dentries h = cc
same_collection→eq stats blocks h = cc
same_collection→eq dentries stats h = cc
same_collection→eq dentries dentries h = refl
same_collection→eq dentries blocks h = cc
same_collection→eq blocks stats h = cc
same_collection→eq blocks dentries h = cc
same_collection→eq blocks blocks h = refl

pub put_self :
    (c : Collection) (k : CString) (v : Option (List ℕ)) (docs : Contents) → put c k v docs c k ≡ v
unfolding put
put_self stats k v docs = rw (str_eq_refl k)
put_self dentries k v docs = rw (str_eq_refl k)
put_self blocks k v docs = rw (str_eq_refl k)

-- Another collection is left alone.
pub put_other :
    (c d : Collection) (k j : CString) (v : Option (List ℕ)) (docs : Contents)
    → same_collection c d ≡ false
    → put c k v docs d j ≡ docs d j
unfolding put
put_other c d k j v docs h = rw h

-- Another key is left alone.
pub put_ne :
    (c d : Collection) (k j : CString) (v : Option (List ℕ)) (docs : Contents)
    → k ≢ j
    → put c k v docs d j ≡ docs d j
unfolding put
put_ne c d k j v docs h = rw (ne→str_eq k j h) (ground arith)

-- A put of what is there changes nothing.
pub put_again :
    (c : Collection) (k : CString) (v : Option (List ℕ)) (docs : Contents)
    → docs c k ≡ v
    → (d : Collection) (j : CString) → put c k v docs d j ≡ docs d j
unfolding put
put_again c k v docs there d j = elim (Bool-cases (same_collection c d)) [
  | inr other ↦ rw other refl
  | inl same ↦ elim (Bool-cases (str_eq k j)) [
    | inr apart ↦ rw (same, apart) refl
    | inl e ↦ rw (same, e, ← same_collection→eq c d same, ← (str_eq_iff k j).0 e, there) refl
  ]
]
