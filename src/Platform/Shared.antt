-- ===== src/Platform/Shared.antt =====
-- Other clients of the bucket, and calls that may fail: what libcouchbase documents then. The server
-- carries out one command at a time, on the documents as all clients have left them by then.
use cbfuse.Prelude.{ℕ, ◌≡◌, ◌≢◌, ◌⊎◌, Option, none, some, List, [], ◌∷◌, ◌++◌, CString, length}
use cbfuse.Common.{Collection}
use cbfuse.Platform.{
  success, StoreMode, insert, replace, upsert, Kind, Command, Setting, Response, Platform,
}
use cbfuse.Platform.Reliable.{Contents, answer, completed}

-- A change of one document by this program: `before` is what all documents were just before it.
pub record Change : Type 0 where
  pub before : Contents
  pub collection : Collection
  pub key : CString
  pub new : Option (List ℕ)

-- On which document a mode of store takes effect.
abbrev pub Suits : StoreMode → Option (List ℕ) → Type 0
Suits insert there = there ≡ none
Suits replace there = there ≢ none
Suits upsert there = Unit

-- `log` is the sequence of the program's own changes. `Issued` says that the program has been given
-- these bytes with this CAS value; the two only grow.
module _ {S : Type 0} (log : S → List Change)
    (Issued : S → Collection → CString → ℕ → List ℕ → Type 0) where
  abbrev pub Remembers : S → S → Type 0
  Remembers s t =
      (c : Collection) (k : CString) (n : ℕ) (v : List ℕ) → Issued s c k n v → Issued t c k n v

  abbrev pub IsQuiet : S → S → Type 0
  IsQuiet s t = (log t ≡ log s) × Remembers s t

module _ (P : Platform) where
  open P use {State, cmd_create, cmd_set, schedule, malloc, calloc, clock_gettime}

  -- A command that the server does not carry out is answered with an error, if at all.
  abbrev pub IsRefused : Command → State → Type 0
  IsRefused cmd s =
      (answer P cmd s).0 ≡ success
      → (r : Response) × ((answer P cmd s).1 ≡ some r) × (r.status ≢ success)

  pub record IsShared : Type 1 where
    pub log : State → List Change
    pub Issued : State → Collection → CString → ℕ → List ℕ → Type 0
    -- Only a completed command changes documents. All calls may fail.
    pub create_quiet : (k : Kind) (s : State) → IsQuiet log Issued s (cmd_create k s).1
    pub set_quiet : (x : Setting) (s : State) → IsQuiet log Issued s (cmd_set x s).1
    pub schedule_quiet : (cmd : Command) (s : State) → IsQuiet log Issued s (schedule cmd s).1
    pub malloc_quiet : (n : ℕ) (s : State) → IsQuiet log Issued s (malloc n s).1
    -- A block of memory has the length that was asked for.
    pub malloc_length : (n : ℕ) (s : State) (b : List ℕ) → (malloc n s).0 ≡ some b → length b ≡ n
    pub calloc_quiet : (s : State) → IsQuiet log Issued s (calloc s).1
    pub clock_quiet : (s : State) → IsQuiet log Issued s (clock_gettime s).1
    -- A get that succeeds gives the bytes of a document and the CAS value of this version.
    pub get_quiet :
        (cmd : Command) (s : State) → cmd.kind ≡ Kind.get → IsQuiet log Issued s (completed P cmd s)
    pub get_issued :
        (c : Collection) (k : CString) (cmd : Command) (s : State) (r : Response)
        → cmd.kind ≡ Kind.get
        → cmd.collection ≡ some c
        → cmd.key ≡ some k
        → (answer P cmd s).1 ≡ some r
        → r.status ≡ success
        → Issued (completed P cmd s) c k r.cas r.value
    -- A store changes the document at once where its mode suits it and where the document is still
    -- the version of its CAS value; or it changes nothing, and does not succeed.
    pub store_lem :
        (m : StoreMode) (c : Collection) (k : CString) (v : List ℕ) (cmd : Command) (s : State)
        → cmd.kind ≡ Kind.store m
        → cmd.collection ≡ some c
        → cmd.key ≡ some k
        → cmd.value ≡ some v
        → ((before : Contents) × (log (completed P cmd s)
              ≡ log s ++ (record { before = before; collection = c; key = k; new = some v } ∷ []))
            × Remembers log Issued s (completed P cmd s)
            × Suits m (before c k)
            × ((n : ℕ) (w : List ℕ) → cmd.cas ≡ some n → Issued s c k n w → before c k ≡ some w))
          ⊎ (IsQuiet log Issued s (completed P cmd s) × IsRefused cmd s)
    -- A remove deletes a document that is there; or it changes nothing, and does not succeed.
    pub remove_lem :
        (c : Collection) (k : CString) (cmd : Command) (s : State)
        → cmd.kind ≡ Kind.remove
        → cmd.collection ≡ some c
        → cmd.key ≡ some k
        → ((before : Contents) × (log (completed P cmd s)
              ≡ log s ++ (record { before = before; collection = c; key = k; new = none } ∷ []))
            × Remembers log Issued s (completed P cmd s)
            × (before c k ≢ none))
          ⊎ (IsQuiet log Issued s (completed P cmd s) × IsRefused cmd s)

  abbrev pub Quiet : IsShared → State → State → Type 0
  Quiet shared = IsQuiet shared.log shared.Issued
