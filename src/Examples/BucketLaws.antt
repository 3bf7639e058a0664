-- ===== src/Examples/BucketLaws.antt =====
-- The bucket with other clients keeps what the theorems assume of it.
use cbfuse.Prelude.{
  ℕ, ◌≡◌, ◌≢◌, ◌⊎◌, inl, inr, refl, sym, ap, ◌∙◌, Option, none, some, List, [], ◌∷◌, ◌++◌, CString,
  length, some-injective,
}
use cbfuse.Common.{Collection}
use cbfuse.Platform.{success, StoreMode, Kind, Command, Response}
use cbfuse.Platform.Reliable.{Contents, answer, completed}
use cbfuse.Platform.Shared.{Suits, IsShared}
use cbfuse.Json.Local.{IsLocal}
use cbfuse.Examples.Server.{accepts, zeros}
use cbfuse.Examples.Laws.{length-zeros}
use cbfuse.Examples.Json.{trees_on}
use cbfuse.Platform.Shared.{Remembers, IsRefused}
use mathlib.Core.Path.{subst}
use cbfuse.Examples.Bucket.{Bucket, bucket, got, dropped, kept, carried_out}
use cbfuse.Examples.BucketSteps.{
  WasIssued, reached, reached-IsLater, IsQuietly, reached-quiet, get_served, Settled, Fits,
  kept-Settled, dropped-Settled, carried_out-get,
}

get_at :
    (cmd : Command) (c : Collection) (k : CString) (m : Bucket)
    → cmd.kind ≡ Kind.get
    → cmd.collection ≡ some c
    → cmd.key ≡ some k
    → carried_out cmd.kind cmd.collection cmd.key cmd.value cmd.cas m ≡ got (m.docs c k) m
get_at cmd c k m kind in_c at_k = rw (kind, in_c, at_k) refl

store_at :
    (cmd : Command) (mode : StoreMode) (c : Collection) (k : CString) (v : List ℕ) (m : Bucket)
    → cmd.kind ≡ Kind.store mode
    → cmd.collection ≡ some c
    → cmd.key ≡ some k
    → cmd.value ≡ some v
    → carried_out cmd.kind cmd.collection cmd.key cmd.value cmd.cas m
      ≡ kept (accepts mode (m.docs c k) cmd.cas m.version) c k v m
store_at cmd mode c k v m kind in_c at_k value = rw (kind, in_c, at_k, value) refl

remove_at :
    (cmd : Command) (c : Collection) (k : CString) (m : Bucket)
    → cmd.kind ≡ Kind.remove
    → cmd.collection ≡ some c
    → cmd.key ≡ some k
    → carried_out cmd.kind cmd.collection cmd.key cmd.value cmd.cas m ≡ dropped (m.docs c k) c k m
remove_at cmd c k m kind in_c at_k = rw (kind, in_c, at_k) refl

same : (s : Bucket) → IsQuietly s s
same s = (refl, λ c k n v h. h)

get_law :
    (c : Collection) (k : CString) (cmd : Command) (s : Bucket) (r : Response)
    → cmd.kind ≡ Kind.get
    → cmd.collection ≡ some c
    → cmd.key ≡ some k
    → (answer bucket cmd s).1 ≡ some r
    → r.status ≡ success
    → WasIssued (completed bucket cmd s) c k r.cas r.value
get_law c k cmd s r kind in_c at_k e ok =
    let m : Bucket = reached cmd s in
    let is : carried_out cmd.kind cmd.collection cmd.key cmd.value cmd.cas m ≡ got (m.docs c k) m =
      get_at cmd c k m kind in_c at_k in
    subst (λ x. WasIssued x.1 c k r.cas r.value) (sym is)
      (get_served c k m (m.docs c k) r refl (ap (λ x. x.0) (sym is) ∙ some-injective _ r e) ok)

command_law :
    (cmd : Command) (s : Bucket) (c : Collection) (k : CString) (new : Option (List ℕ))
    (When : Contents → Type 0)
    → Settled s c k new When
        (carried_out cmd.kind cmd.collection cmd.key cmd.value cmd.cas (reached cmd s))
    → ((before : Contents) × ((completed bucket cmd s).changes
          ≡ s.changes ++ (record { before = before; collection = c; key = k; new = new } ∷ []))
        × Remembers (λ (m : Bucket). m.changes) WasIssued s (completed bucket cmd s)
        × When before)
      ⊎ (IsQuietly s (completed bucket cmd s) × IsRefused bucket cmd s)
command_law cmd s c k new When (inl h) = inl h
command_law cmd s c k new When (inr (q, ne)) = inr (q, λ ok. (_, refl, ne))

store_law :
    (m : StoreMode) (c : Collection) (k : CString) (v : List ℕ) (cmd : Command) (s : Bucket)
    → cmd.kind ≡ Kind.store m
    → cmd.collection ≡ some c
    → cmd.key ≡ some k
    → cmd.value ≡ some v
    → ((before : Contents) × ((completed bucket cmd s).changes
          ≡ s.changes ++ (record { before = before; collection = c; key = k; new = some v } ∷ []))
        × Remembers (λ (m : Bucket). m.changes) WasIssued s (completed bucket cmd s)
        × Suits m (before c k)
        × ((n : ℕ) (w : List ℕ) → cmd.cas ≡ some n → WasIssued s c k n w → before c k ≡ some w))
      ⊎ (IsQuietly s (completed bucket cmd s) × IsRefused bucket cmd s)
store_law m c k v cmd s kind in_c at_k value =
    let b : Bucket = reached cmd s in
    elim (command_law cmd s c k (some v) (Fits m c k cmd.cas s) (
      subst (λ x. Settled s c k (some v) (Fits m c k cmd.cas s) x)
        (sym (store_at cmd m c k v b kind in_c at_k value))
        (kept-Settled s b m c k v cmd.cas (accepts m (b.docs c k) cmd.cas b.version) refl
          (reached-quiet cmd s).0 (reached-IsLater cmd s)))) [
            | inl (before, l, rem, (suits, cas)) ↦ inl (before, l, rem, suits, cas)
            | inr h ↦ inr h
          ]

remove_law :
    (c : Collection) (k : CString) (cmd : Command) (s : Bucket)
    → cmd.kind ≡ Kind.remove
    → cmd.collection ≡ some c
    → cmd.key ≡ some k
    → ((before : Contents) × ((completed bucket cmd s).changes
          ≡ s.changes ++ (record { before = before; collection = c; key = k; new = none } ∷ []))
        × Remembers (λ (m : Bucket). m.changes) WasIssued s (completed bucket cmd s)
        × (before c k ≢ none))
      ⊎ (IsQuietly s (completed bucket cmd s) × IsRefused bucket cmd s)
remove_law c k cmd s kind in_c at_k =
    let b : Bucket = reached cmd s in
    command_law cmd s c k none (λ before. before c k ≢ none)
      (subst (λ x. Settled s c k none (λ before. before c k ≢ none) x)
        (sym (remove_at cmd c k b kind in_c at_k))
        (dropped-Settled s b c k (b.docs c k) refl (reached-quiet cmd s).0 (reached-IsLater cmd s)))

pub bucket-IsShared : IsShared bucket
bucket-IsShared = record {
  log = λ m. m.changes;
  Issued = WasIssued;
  create_quiet = λ k s. same s;
  set_quiet = λ x s. same s;
  schedule_quiet = λ cmd s. same s;
  malloc_quiet = λ n s. same s;
  malloc_length = λ n s b e. ap length (some-injective b (zeros n) (sym e)) ∙ length-zeros n;
  calloc_quiet = λ s. same s;
  clock_quiet = λ s. same s;
  get_quiet = λ cmd s e.
      subst (λ t. IsQuietly s t) (sym (carried_out-get cmd (reached cmd s) e))
        (reached-quiet cmd s);
  get_issued = get_law;
  store_lem = store_law;
  remove_lem = remove_law;
}

pub trees-IsLocal : IsLocal bucket bucket-IsShared (trees_on bucket)
unfolding bucket-IsShared
trees-IsLocal = record {
  parse_quiet = λ v s. same s;
  print_quiet = λ j s. same s;
  object_quiet = λ s. same s;
  array_quiet = λ s. same s;
  string_quiet = λ t s. same s;
  reference_quiet = λ t s. same s;
  member_quiet = λ o k j s. same s;
  replace_quiet = λ o k j s. same s;
}
