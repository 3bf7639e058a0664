-- ===== src/Examples/BucketSteps.antt =====
-- What the server of the bucket with other clients does with a command.
use cbfuse.Prelude.{
  ℕ, ◌<◌, ◌≡◌, ◌≢◌, ◌⊎◌, inl, inr, refl, sym, ap, ◌∙◌, Bool, true, false, Option, none, some, List,
  [], ◌∷◌, ◌++◌, CString, arith, some-ne-none,
}
use cbfuse.Common.{Collection}
use cbfuse.Platform.{success, StoreMode, insert, replace, upsert, Kind, Command, Response}
use cbfuse.Platform.Reliable.{Contents}
use cbfuse.Platform.Shared.{Suits}
use cbfuse.Examples.Server.{accepts, response}
use cbfuse.Platform.Shared.{IsQuiet, Remembers}
use cbfuse.Examples.Bucket.{Bucket, advance, meanwhile, got, changed, dropped, kept, carried_out}

-- An older version, or the present one.
abbrev pub WasIssued : Bucket → Collection → CString → ℕ → List ℕ → Type 0
WasIssued m c k n v = (n < m.version) ⊎ ((n ≡ m.version) × (m.docs c k ≡ some v))

abbrev pub IsLater : Bucket → Bucket → Type 0
IsLater s t = (s.version < t.version) ⊎ ((t.version ≡ s.version) × (t.docs ≡ s.docs))

IsLater-remembers :
    (s t : Bucket)
    → IsLater s t
    → (c : Collection) (k : CString) (n : ℕ) (v : List ℕ) → WasIssued s c k n v
    → WasIssued t c k n v
IsLater-remembers s t (inl h) c k n v (inl i) = inl (omega arith)
IsLater-remembers s t (inl h) c k n v (inr (e, d)) = inl (omega arith)
IsLater-remembers s t (inr (e, d)) c k n v (inl i) = inl (omega arith)
IsLater-remembers s t (inr (e, d)) c k n v (inr (e', d')) = inr (e' ∙ sym e, ap (λ f. f c k) d ∙ d')

advance-IsLater : (fs : List (Contents → Contents)) (m : Bucket) → IsLater m (advance fs m)
advance-IsLater [] m = inr (refl, refl)
advance-IsLater (f ∷ fs) m = inl (omega arith)

advance-changes :
    (fs : List (Contents → Contents)) (m : Bucket) → (advance fs m).changes ≡ m.changes
advance-changes [] m = refl
advance-changes (f ∷ fs) m = refl

accepts-Suits :
    (m : StoreMode) (there : Option (List ℕ)) (cas : Option ℕ) (n : ℕ)
    → accepts m there cas n ≡ true
    → Suits m there
accepts-Suits insert none cas n h = refl
accepts-Suits insert (some v) none n h = cc
accepts-Suits insert (some v) (some c) n h = cc
accepts-Suits replace none none n h = cc
accepts-Suits replace none (some c) n h = cc
accepts-Suits replace (some v) cas n h = some-ne-none v
accepts-Suits upsert there cas n h = tt

accepts-current :
    (m : StoreMode) (there : Option (List ℕ)) (c n : ℕ) → accepts m there (some c) n ≡ true → c ≡ n
accepts-current insert none c n h = cc
accepts-current insert (some v) c n h = cc
accepts-current replace none c n h = cc
accepts-current replace (some v) c n h = ground arith
accepts-current upsert there c n h = cc

-- The state in which the server carries out a command.
abbrev pub reached : Command → Bucket → Bucket
reached cmd s = meanwhile (record s { pending = some cmd })

pub reached-IsLater : (cmd : Command) (s : Bucket) → IsLater s (reached cmd s)
reached-IsLater cmd s = elim (advance-IsLater s.others (record s { pending = some cmd })) [
  | inl h ↦ inl h
  | inr h ↦ inr h
]

-- A version that was issued is current only if the document has not changed since.
still_there :
    (s t : Bucket) (c : Collection) (k : CString) (n : ℕ) (w : List ℕ)
    → IsLater s t
    → n ≡ t.version
    → WasIssued s c k n w
    → t.docs c k ≡ some w
still_there s t c k n w (inl h) e (inl i) = absurd (omega arith)
still_there s t c k n w (inl h) e (inr (e', d)) = absurd (omega arith)
still_there s t c k n w (inr (e', d)) e (inl i) = absurd (omega arith)
still_there s t c k n w (inr (e', d)) e (inr (e'', d')) = ap (λ f. f c k) d ∙ d'

changed-IsLater :
    (c : Collection) (k : CString) (new : Option (List ℕ)) (s m : Bucket)
    → IsLater s m
    → IsLater s (changed c k new m)
changed-IsLater c k new s m (inl h) = inl (omega arith)
changed-IsLater c k new s m (inr (e, d)) = inl (omega arith)

abbrev pub IsQuietly : Bucket → Bucket → Type 0
IsQuietly s t = IsQuiet (λ (m : Bucket). m.changes) WasIssued s t

pub reached-quiet : (cmd : Command) (s : Bucket) → IsQuietly s (reached cmd s)
reached-quiet cmd s = (
  advance-changes s.others (record s { pending = some cmd }),
  IsLater-remembers s (reached cmd s) (reached-IsLater cmd s),
)

-- What a get, a store and a remove do to the state that the server has reached.
pub got-quiet : (o : Option (List ℕ)) (m : Bucket) → (got o m).1 ≡ m
got-quiet none m = refl
got-quiet (some v) m = refl

pub get_served :
    (c : Collection) (k : CString) (m : Bucket) (o : Option (List ℕ)) (r : Response)
    → m.docs c k ≡ o
    → (got o m).0 ≡ r
    → r.status ≡ success
    → WasIssued (got o m).1 c k r.cas r.value
get_served c k m none r there e ok = cc
get_served c k m (some v) r there e ok =
    inr (sym (ap (λ (x : Response). x.cas) e), there ∙ ap (λ (x : Response). some x.value) e)

-- One change, on a document that is as asked; or none, and an error.
abbrev pub Settled :
    Bucket
    → Collection
    → CString
    → Option (List ℕ)
    → (Contents → Type 0)
    → Response × Bucket
    → Type 0
Settled s c k new When x =
    ((before : Contents) × (x.1.changes
        ≡ s.changes ++ (record { before = before; collection = c; key = k; new = new } ∷ []))
      × Remembers (λ (m : Bucket). m.changes) WasIssued s x.1
      × When before)
    ⊎ (IsQuietly s x.1 × (x.0.status ≢ success))

changed-Settled :
    (s m : Bucket) (c : Collection) (k : CString) (new : Option (List ℕ)) (When : Contents → Type 0)
    (r : Response)
    → m.changes ≡ s.changes
    → IsLater s m
    → When m.docs
    → Settled s c k new When (r, changed c k new m)
changed-Settled s m c k new When r e later h = inl (
  m.docs,
  ap (λ l. l ++ (record { before = m.docs; collection = c; key = k; new = new } ∷ [])) e,
  IsLater-remembers s (changed c k new m) (changed-IsLater c k new s m later),
  h,
)

abbrev pub Fits : StoreMode → Collection → CString → Option ℕ → Bucket → Contents → Type 0
Fits mode c k cas s before =
    Suits mode (before c k)
    × ((n : ℕ) (w : List ℕ) → cas ≡ some n → WasIssued s c k n w → before c k ≡ some w)

pub kept-Settled :
    (s m : Bucket) (mode : StoreMode) (c : Collection) (k : CString) (v : List ℕ) (cas : Option ℕ)
    (b : Bool)
    → accepts mode (m.docs c k) cas m.version ≡ b
    → m.changes ≡ s.changes
    → IsLater s m
    → Settled s c k (some v) (Fits mode c k cas s) (kept b c k v m)
kept-Settled s m mode c k v cas true h e later =
    changed-Settled s m c k (some v) (Fits mode c k cas s) (response success [] 0) e later (
      accepts-Suits mode (m.docs c k) cas m.version h,
      λ n w is i.
          still_there s m c k n w later
            (accepts-current mode (m.docs c k) n m.version
              (ap (λ o. accepts mode (m.docs c k) o m.version) (sym is) ∙ h))
            i,
    )
kept-Settled s m mode c k v cas false h e later = inr ((e, IsLater-remembers s m later), λ q. cc)

pub dropped-Settled :
    (s m : Bucket) (c : Collection) (k : CString) (o : Option (List ℕ))
    → m.docs c k ≡ o
    → m.changes ≡ s.changes
    → IsLater s m
    → Settled s c k none (λ before. before c k ≢ none) (dropped o c k m)
dropped-Settled s m c k none h e later = inr ((e, IsLater-remembers s m later), λ q. cc)
dropped-Settled s m c k (some v) h e later =
    changed-Settled s m c k none (λ before. before c k ≢ none) (response success [] 0) e later
      λ q. some-ne-none v (sym h ∙ q)

pub carried_out-get :
    (cmd : Command) (m : Bucket)
    → cmd.kind ≡ Kind.get
    → (carried_out cmd.kind cmd.collection cmd.key cmd.value cmd.cas m).1 ≡ m
carried_out-get cmd m e = rw e (cases cmd.collection cmd.key)
  where
    cases :
        (c : Option Collection) (k : Option CString)
        → (carried_out Kind.get c k cmd.value cmd.cas m).1 ≡ m
    cases none k = refl
    cases (some c) none = refl
    cases (some c) (some k) = got-quiet (m.docs c k) m
