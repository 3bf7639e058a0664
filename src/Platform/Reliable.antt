-- ===== src/Platform/Reliable.antt =====
-- The documented behaviour of the services: those that the theorems on successful runs rely on.
-- The server is seen as the documents of each collection; no other client writes to it meanwhile.
use cbfuse.Prelude.{
  ℕ, ◌≡◌, ◌≢◌, Bool, true, false, ◌&&◌, Option, none, some, List, length, CString, str_eq,
  if◌then◌else◌, ◌≤◌,
}
use cbfuse.Common.{Collection, stats, dentries, blocks, max_key_len, max_doc_len}
use cbfuse.Platform.{
  Status, success, document_not_found, failure, StoreMode, insert, replace, upsert, Kind, Command,
  Setting, Response, Timespec, Stat, Platform,
}

abbrev pub Contents : Type 0
Contents = Collection → CString → Option (List ℕ)

abbrev pub same_collection : Collection → Collection → Bool
same_collection stats stats = true
same_collection dentries dentries = true
same_collection blocks blocks = true
same_collection _ _ = false

-- The documents with that of key `k` in `c` replaced.
unfoldable pub put : Collection → CString → Option (List ℕ) → Contents → Contents
put c k v docs d j = if same_collection c d && str_eq k j then v else docs d j

-- Which stores the server accepts, given the document that is there and its CAS value.
abbrev pub Accepts : StoreMode → Option (List ℕ) → Option ℕ → ℕ → Type 0
Accepts insert there none cas = there ≡ none
Accepts insert there (some n) cas = ⊥
Accepts replace there none cas = there ≢ none
Accepts replace there (some n) cas = (there ≢ none) × (n ≡ cas)
Accepts upsert there none cas = Unit
Accepts upsert there (some n) cas = ⊥

-- Which documents the server can hold: a key has a longest length, and a document a largest size.
-- The text of an entry is taken to be within that size.
abbrev pub IsSized : Collection → List ℕ → Type 0
IsSized stats v = length v ≤ max_doc_len
IsSized dentries v = Unit
IsSized blocks v = length v ≤ max_doc_len

abbrev pub Fits : Collection → CString → List ℕ → Type 0
Fits c k v = (length k ≤ max_key_len) × IsSized c v

module _ (P : Platform) where
  open P use {
    State, cmd_create, cmd_set, cmd_destroy, schedule, wait, malloc, calloc, clock_gettime,
    stat_struct_size, stat_bytes, stat_of_bytes,
  }

  -- The state after a command has been scheduled and destroyed.
  abbrev pub scheduled : Command → State → State
  scheduled cmd s = (cmd_destroy cmd.kind (schedule cmd s).1).1

  -- The response to `cmd`.
  abbrev pub answer : Command → State → Status × Option Response
  answer cmd s = (wait (scheduled cmd s)).0

  abbrev pub completed : Command → State → State
  completed cmd s = (wait (scheduled cmd s)).1

  pub record IsReliable : Type 0 where
    pub contents : State → Contents
    pub cas_at : State → Collection → CString → ℕ
    -- Every document that the server holds fits.
    pub documents_fit :
        (c : Collection) (k : CString) (v : List ℕ) (s : State)
        → contents s c k ≡ some v
        → Fits c k v
    -- No call of the library fails by itself, and only a completed command changes documents.
    pub create_succeeds : (k : Kind) (s : State) → (cmd_create k s).0 ≡ success
    pub create_contents : (k : Kind) (s : State) → contents (cmd_create k s).1 ≡ contents s
    pub create_cas : (k : Kind) (s : State) → cas_at (cmd_create k s).1 ≡ cas_at s
    pub set_succeeds : (x : Setting) (s : State) → (cmd_set x s).0 ≡ success
    pub set_contents : (x : Setting) (s : State) → contents (cmd_set x s).1 ≡ contents s
    pub set_cas : (x : Setting) (s : State) → cas_at (cmd_set x s).1 ≡ cas_at s
    pub schedule_succeeds : (cmd : Command) (s : State) → (schedule cmd s).0 ≡ success
    -- A get returns the document, or reports that there is none.
    pub get_answer :
        (c : Collection) (k : CString) (cmd : Command) (s : State)
        → cmd.kind ≡ Kind.get
        → cmd.collection ≡ some c
        → cmd.key ≡ some k
        → (r : Response) × (answer cmd s ≡ (success, some r))
          × (contents (completed cmd s) ≡ contents s)
          × (cas_at (completed cmd s) ≡ cas_at s)
          × ((contents s c k ≡ none → r.status ≡ document_not_found)
              × ((v : List ℕ)
                  → contents s c k ≡ some v
                  → (r.status ≡ success) × (r.value ≡ v) × (r.cas ≡ cas_at s c k)))
    -- A store that the server accepts writes a document that fits, one that it refuses writes nothing.
    pub store_answer :
        (m : StoreMode) (c : Collection) (k : CString) (v : List ℕ) (cmd : Command) (s : State)
        → cmd.kind ≡ Kind.store m
        → cmd.collection ≡ some c
        → cmd.key ≡ some k
        → cmd.value ≡ some v
        → Fits c k v
        → (r : Response) × (answer cmd s ≡ (success, some r))
          × ((Accepts m (contents s c k) cmd.cas (cas_at s c k)
                → (r.status ≡ success)
                  × (contents (completed cmd s) ≡ put c k (some v) (contents s)))
              × (¬ Accepts m (contents s c k) cmd.cas (cas_at s c k)
                  → (r.status ≢ success) × (contents (completed cmd s) ≡ contents s)))
    -- A document that is too large is refused, with an error of its own.
    pub store_too_large :
        (m : StoreMode) (c : Collection) (k : CString) (v : List ℕ) (cmd : Command) (s : State)
        → cmd.kind ≡ Kind.store m
        → cmd.collection ≡ some c
        → cmd.key ≡ some k
        → cmd.value ≡ some v
        → length k ≤ max_key_len
        → ¬ IsSized c v
        → (r : Response) × (n : ℕ) × (answer cmd s ≡ (success, some r))
          × (r.status ≡ failure n)
          × (contents (completed cmd s) ≡ contents s)
    -- A remove deletes the document, or reports that there is none.
    pub remove_answer :
        (c : Collection) (k : CString) (cmd : Command) (s : State)
        → cmd.kind ≡ Kind.remove
        → cmd.collection ≡ some c
        → cmd.key ≡ some k
        → cmd.cas ≡ none
        → (r : Response) × (answer cmd s ≡ (success, some r))
          × (contents (completed cmd s) ≡ put c k none (contents s))
          × ((contents s c k ≡ none → r.status ≡ document_not_found)
              × (contents s c k ≢ none → r.status ≡ success))
    -- Memory does not run out, and a block has the length that was asked for.
    pub malloc_succeeds :
        (n : ℕ) (s : State) → (b : List ℕ) × ((malloc n s).0 ≡ some b) × (length b ≡ n)
    pub malloc_contents : (n : ℕ) (s : State) → contents (malloc n s).1 ≡ contents s
    pub malloc_cas : (n : ℕ) (s : State) → cas_at (malloc n s).1 ≡ cas_at s
    pub calloc_succeeds : (s : State) → (calloc s).0 ≡ true
    pub calloc_contents : (s : State) → contents (calloc s).1 ≡ contents s
    pub calloc_cas : (s : State) → cas_at (calloc s).1 ≡ cas_at s
    pub clock_succeeds : (s : State) → (t : Timespec) × ((clock_gettime s).0 ≡ some t)
    pub clock_contents : (s : State) → contents (clock_gettime s).1 ≡ contents s
    pub clock_cas : (s : State) → cas_at (clock_gettime s).1 ≡ cas_at s
    -- A struct is copied to bytes and back by memcpy, and fits in a document.
    pub stat_fits : stat_struct_size ≤ max_doc_len
    pub stat_length : (x : Stat) → length (stat_bytes x) ≡ stat_struct_size
    pub stat_round_trip : (x : Stat) → stat_of_bytes (stat_bytes x) ≡ x
