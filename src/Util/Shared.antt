-- ===== src/Util/Shared.antt =====
-- The copies on a server that other clients use too: they change no document.
use cbfuse.Prelude.{
  ℕ, ◌+◌, ℤ, pos, negsuc, ◌≡◌, ◌≢◌, ◌⊎◌, inl, inr, refl, ap, ◌∙◌, Option, some, none, List, CString,
  length, take, leb, some-injective, none-ne-some,
}
use cbfuse.Io.{overwrite, read_bytes, copy_into}
use cbfuse.Io.Leaves.{
  Leaves, Leaves-pure, Leaves-crash, Leaves-bind, Leaves-call, Leaves-if, Leaves-map,
}
use cbfuse.Platform.{Platform}
use cbfuse.Platform.Shared.{IsShared, Quiet}
use cbfuse.Sync.Memory.{overwrite_whole}
use cbfuse.Util.{memdup, memdupm, strdup, fill, copied_string}

module _ {S : Type 0} {E : Option ℤ → S → Type 0} where
  -- A read of bytes gives the first of them, if it does not fault.
  pub read_bytes-Leaves :
      {Q : List ℕ → S → Type 0} (b : Option (List ℕ)) (n : ℕ) {s : S}
      → ((v : List ℕ) → b ≡ some v → Q (take n v) s)
      → E none s
      → Leaves (read_bytes b n) s Q E
  read_bytes-Leaves none n q e = Leaves-crash e
  read_bytes-Leaves (some v) n q e =
      Leaves-if (leb n (length v)) _ _ (λ h. Leaves-pure (take n v) (q v refl)) λ h. Leaves-crash e

  pub copy_into-Leaves :
      {Q : List ℕ → S → Type 0} (dest : Option (List ℕ)) (offset : ℕ) (src : List ℕ) {s : S}
      → ((v : List ℕ) → dest ≡ some v → Q (overwrite offset src v) s)
      → E none s
      → Leaves (copy_into dest offset src) s Q E
  copy_into-Leaves none offset src q e = Leaves-crash e
  copy_into-Leaves (some v) offset src q e =
      Leaves-if (leb (offset + length src) (length v)) _ _
        (λ h. Leaves-pure (overwrite offset src v) (q v refl)) λ h. Leaves-crash e

-- Nothing has changed since `s`, and the body does not end with 0.
abbrev pub Unchanged : (P : Platform) → IsShared P → P.State → Option ℤ → P.State → Type 0
Unchanged P shared s e t = Quiet P shared s t × (e ≢ some (pos 0))

pub fault-ne-zero : ◌≢◌ {A = Option ℤ} none (some (pos 0))
fault-ne-zero = none-ne-some (pos 0)

pub code-ne-zero : (n : ℕ) → ◌≢◌ {A = Option ℤ} (some (negsuc n)) (some (pos 0))
code-ne-zero n h = cc

module _ (P : Platform) (shared : IsShared P) where
  open P use {State}

  pub Quiet-refl : (s : State) → Quiet P shared s s
  Quiet-refl s = (refl, λ c k n v h. h)

  pub Quiet-trans : {s t u : State} → Quiet P shared s t → Quiet P shared t u → Quiet P shared s u
  Quiet-trans (e, f) (e', f') = (e' ∙ e, λ c k n v h. f' c k n v (f c k n v h))

  module _ (s : State) where
    pub memdupm-Leaves :
        (src : Option (List ℕ)) (n m : ℕ) {t : State}
        → Quiet P shared s t
        → Leaves
            (memdupm P src n m)
            t
            (λ r u.
              Quiet P shared s u
              × ((w : List ℕ)
                  → r ≡ some w
                  → (v : List ℕ) × (b : List ℕ) × (src ≡ some v)
                    × (length b ≡ m)
                    × (w ≡ overwrite 0 (take n v) b)))
            (Unchanged P shared s)
    unfolding memdupm fill
    memdupm-Leaves src n m {t} q = Leaves-call _ _ (
        filled (P.malloc m t).0 (λ b e. shared.malloc_length m t b e)
          (Quiet-trans q (shared.malloc_quiet m t)))
      where
        filled :
            (dest : Option (List ℕ)) {u : State}
            → ((b : List ℕ) → dest ≡ some b → length b ≡ m)
            → Quiet P shared s u
            → Leaves
                (fill P dest src n)
                u
                (λ r u'.
                  Quiet P shared s u'
                  × ((w : List ℕ)
                      → r ≡ some w
                      → (v : List ℕ) × (b : List ℕ) × (src ≡ some v)
                        × (length b ≡ m)
                        × (w ≡ overwrite 0 (take n v) b)))
                (Unchanged P shared s)
        filled none l q' = Leaves-pure none (q', λ w e. cc)
        filled (some b) {u} l q' =
            Leaves-bind
              {Q = λ bytes u'. (u' ≡ u) × (v : List ℕ) × (src ≡ some v) × (bytes ≡ take n v)}
              (read_bytes-Leaves src n (λ v e. (refl, v, e, refl)) (q', fault-ne-zero))
              λ bytes u' (same, v, e, e').
                Leaves-bind {Q = λ w u''. (u'' ≡ u) × (w ≡ overwrite 0 bytes b)}
                  (copy_into-Leaves (some b) 0 bytes
                    (λ b' eb. (same, ap (overwrite 0 bytes) (some-injective b' b (cc))))
                    (rw same (q', fault-ne-zero)))
                  λ w u'' (same', ew).
                    Leaves-pure (some w) (rw same' q', λ w' ew'. (v, b, e, l b refl, cc))

    pub strdup-Leaves :
        (text : CString) {t : State}
        → Quiet P shared s t
        → Leaves
            (strdup P text)
            t
            (λ r u. Quiet P shared s u × ((r ≡ some text) ⊎ (r ≡ none)))
            (Unchanged P shared s)
    unfolding strdup copied_string
    strdup-Leaves text {t} q = Leaves-call _ _ (
        Leaves-pure _ (
          Quiet-trans q (shared.malloc_quiet (length text + 1) t),
          copied (P.malloc (length text + 1) t).0,
        ))
      where
        copied :
            (b : Option (List ℕ))
            → (copied_string P b text ≡ some text) ⊎ (copied_string P b text ≡ none)
        copied none = inr refl
        copied (some b) = inl refl

    -- A copy is the bytes that it copies.
    pub memdup-Leaves :
        (v : List ℕ) {t : State}
        → Quiet P shared s t
        → Leaves
            (memdup P (some v) (length v))
            t
            (λ r u. Quiet P shared s u × ((w : List ℕ) → r ≡ some w → w ≡ v))
            (Unchanged P shared s)
    unfolding memdup
    memdup-Leaves v q =
        Leaves-map (memdupm-Leaves (some v) (length v) (length v) q)
          (λ r u (q', f). (
            q',
            λ w e. let (v', b, e', l, ew) = f w e in ew ∙ copied v' b (some-injective v v' e') l,
          ))
          λ e u h. h
      where
        copied :
            (v' b : List ℕ) → v ≡ v' → length b ≡ length v → overwrite 0 (take (length v) v') b ≡ v
        copied v' b e l = rw (← e) (overwrite_whole v b l)
