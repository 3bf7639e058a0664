-- ===== src/Examples/Server.antt =====
-- A server that keeps its documents in memory, with the C library and struct layout to go with it.
use cbfuse.Prelude.{
  ℕ, zero, suc, ◌+◌, ℤ, pos, negsuc, Bool, true, false, Option, none, some, List, [], ◌∷◌, CString,
  ◌==◌,
}
use cbfuse.Common.{Collection}
use cbfuse.Platform.{
  Status, success, document_not_found, failure, StoreMode, insert, replace, upsert, Kind, Command,
  Response, Timespec, Stat, Platform,
}
use cbfuse.Platform.Reliable.{Contents, put, Fits}
use cbfuse.Examples.Fits.{AllFit, empty-AllFit, stored-AllFit, removed-AllFit, fits_dec}

pub record Memory : Type 0 where
  pub docs : Contents
  pub docs_fit : AllFit docs
  pub version : ℕ
  pub pending : Option Command

abbrev pub accepts : StoreMode → Option (List ℕ) → Option ℕ → ℕ → Bool
accepts insert none none version = true
accepts insert (some v) none version = false
accepts insert there (some n) version = false
accepts replace none none version = false
accepts replace (some v) none version = true
accepts replace none (some n) version = false
accepts replace (some v) (some n) version = n == version
accepts upsert there none version = true
accepts upsert there (some n) version = false

abbrev pub response : Status → List ℕ → ℕ → Response
response status value version = record {
  status = status;
  cas = version;
  flags = 0;
  key = [];
  nkey = 0;
  value = value;
}

abbrev pub served_get : Option (List ℕ) → Memory → Response × Memory
served_get none m = (response document_not_found [] 0, m)
served_get (some v) m = (response success v m.version, m)

abbrev pub served_remove : Option (List ℕ) → Collection → CString → Memory → Response × Memory
served_remove none c k m = (
  response document_not_found [] 0,
  record m { docs = put c k none m.docs; docs_fit = removed-AllFit c k m.docs m.docs_fit },
)
served_remove (some v) c k m = (
  response success [] 0,
  record m { docs = put c k none m.docs; docs_fit = removed-AllFit c k m.docs m.docs_fit },
)

abbrev pub served_fit :
    (c : Collection) (k : CString) (v : List ℕ) → Dec (Fits c k v) → Memory → Response × Memory
served_fit c k v (yes fit) m = (
  response success [] 0,
  record m {
    docs = put c k (some v) m.docs;
    docs_fit = stored-AllFit c k v m.docs fit m.docs_fit;
    version = m.version + 1;
  },
)
served_fit c k v (no large) m = (response (failure 4) [] 0, m)

abbrev pub served_store : Bool → Collection → CString → List ℕ → Memory → Response × Memory
served_store true c k v m = served_fit c k v (fits_dec c k v) m
served_store false c k v m = (response (failure 12) [] 0, m)

abbrev pub served :
    Kind
    → Option Collection
    → Option CString
    → Option (List ℕ)
    → Option ℕ
    → Memory
    → Response × Memory
served Kind.get (some c) (some k) value cas m = served_get (m.docs c k) m
served Kind.remove (some c) (some k) value cas m = served_remove (m.docs c k) c k m
served (Kind.store mode) (some c) (some k) (some v) cas m =
    served_store (accepts mode (m.docs c k) cas m.version) c k v m
served kind collection key value cas m = (response (failure 1) [] 0, m)

abbrev answered : Option Command → Memory → (Status × Option Response) × Memory
answered none m = ((success, none), m)
answered (some cmd) m =
    let r = served cmd.kind cmd.collection cmd.key cmd.value cmd.cas m in ((success, some r.0), r.1)

abbrev pub zeros : ℕ → List ℕ
zeros zero = []
zeros (suc n) = 0 ∷ zeros n

abbrev pub now : Timespec
now = record { sec = pos 1700; nsec = pos 5 }

abbrev pub sign : ℤ → ℕ
sign (pos n) = 0
sign (negsuc n) = 1

abbrev pub magnitude : ℤ → ℕ
magnitude (pos n) = n
magnitude (negsuc n) = n

abbrev pub signed : ℕ → ℕ → ℤ
signed zero n = pos n
signed (suc s) n = negsuc n

abbrev pub stat_cells : Stat → List ℕ
stat_cells x =
    x.mode
    ∷ x.size
    ∷ sign x.atime.sec
    ∷ magnitude x.atime.sec
    ∷ sign x.atime.nsec
    ∷ magnitude x.atime.nsec
    ∷ sign x.mtime.sec
    ∷ magnitude x.mtime.sec
    ∷ sign x.mtime.nsec
    ∷ magnitude x.mtime.nsec
    ∷ sign x.ctime.sec
    ∷ magnitude x.ctime.sec
    ∷ sign x.ctime.nsec
    ∷ magnitude x.ctime.nsec
    ∷ []

abbrev pub cells_stat : List ℕ → Stat
cells_stat (m ∷ z ∷ a ∷ b ∷ c ∷ d ∷ e ∷ f ∷ g ∷ h ∷ i ∷ j ∷ k ∷ l ∷ []) = record {
  mode = m;
  size = z;
  atime = record { sec = signed a b; nsec = signed c d };
  mtime = record { sec = signed e f; nsec = signed g h };
  ctime = record { sec = signed i j; nsec = signed k l };
}
cells_stat v = record { mode = 0; size = 0; atime = now; mtime = now; ctime = now }

abbrev pub server : Platform
server = record {
  State = Memory;
  cmd_create = λ kind m. (success, m);
  cmd_set = λ setting m. (success, m);
  cmd_destroy = λ kind m. (success, m);
  schedule = λ cmd m. (success, record m { pending = some cmd });
  wait = λ m. answered m.pending m;
  malloc = λ n m. (some (zeros n), m);
  calloc = λ m. (true, m);
  clock_gettime = λ m. (some now, m);
  stat_struct_size = 14;
  stat_bytes = stat_cells;
  stat_of_bytes = cells_stat;
}

abbrev pub empty_docs : Contents
empty_docs c k = none

abbrev pub empty_memory : Memory
empty_memory = record { docs = empty_docs; docs_fit = empty-AllFit; version = 1; pending = none }
