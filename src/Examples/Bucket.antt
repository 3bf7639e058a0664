-- ===== src/Examples/Bucket.antt =====
-- A bucket with other clients: before each command they may change the documents.
use cbfuse.Prelude.{ℕ, ◌+◌, Bool, true, false, Option, none, some, List, [], ◌∷◌, ◌++◌, CString}
use cbfuse.Common.{Collection}
use cbfuse.Platform.{
  Status, success, document_not_found, failure, Kind, Command, Response, Platform,
}
use cbfuse.Platform.Reliable.{Contents, put}
use cbfuse.Platform.Shared.{Change}
use cbfuse.Examples.Server.{accepts, response, zeros, now, stat_cells, cells_stat}

-- `others` are the changes that are still to come, and `changes` those that the program has made.
pub record Bucket : Type 0 where
  pub docs : Contents
  pub version : ℕ
  pub pending : Option Command
  pub changes : List Change
  pub others : List (Contents → Contents)

abbrev pub advance : List (Contents → Contents) → Bucket → Bucket
advance [] m = m
advance (f ∷ fs) m = record m { docs = f m.docs; version = m.version + 1; others = fs }

abbrev pub meanwhile : Bucket → Bucket
meanwhile m = advance m.others m

abbrev pub got : Option (List ℕ) → Bucket → Response × Bucket
got none m = (response document_not_found [] 0, m)
got (some v) m = (response success v m.version, m)

abbrev pub changed : Collection → CString → Option (List ℕ) → Bucket → Bucket
changed c k new m = record m {
  docs = put c k new m.docs;
  version = m.version + 1;
  changes = m.changes ++ (record { before = m.docs; collection = c; key = k; new = new } ∷ []);
}

abbrev pub dropped : Option (List ℕ) → Collection → CString → Bucket → Response × Bucket
dropped none c k m = (response document_not_found [] 0, m)
dropped (some v) c k m = (response success [] 0, changed c k none m)

abbrev pub kept : Bool → Collection → CString → List ℕ → Bucket → Response × Bucket
kept true c k v m = (response success [] 0, changed c k (some v) m)
kept false c k v m = (response (failure 12) [] 0, m)

abbrev pub carried_out :
    Kind
    → Option Collection
    → Option CString
    → Option (List ℕ)
    → Option ℕ
    → Bucket
    → Response × Bucket
carried_out Kind.get (some c) (some k) value cas m = got (m.docs c k) m
carried_out Kind.remove (some c) (some k) value cas m = dropped (m.docs c k) c k m
carried_out (Kind.store mode) (some c) (some k) (some v) cas m =
    kept (accepts mode (m.docs c k) cas m.version) c k v m
carried_out kind collection key value cas m = (response (failure 1) [] 0, m)

abbrev awaited : Option Command → Bucket → (Status × Option Response) × Bucket
awaited none m = ((success, none), m)
awaited (some cmd) m =
    let r = carried_out cmd.kind cmd.collection cmd.key cmd.value cmd.cas (meanwhile m) in
    ((success, some r.0), r.1)

-- All calls succeed; what the server refuses is answered with an error.
abbrev pub bucket : Platform
bucket = record {
  State = Bucket;
  cmd_create = λ kind m. (success, m);
  cmd_set = λ setting m. (success, m);
  cmd_destroy = λ kind m. (success, m);
  schedule = λ cmd m. (success, record m { pending = some cmd });
  wait = λ m. awaited m.pending m;
  malloc = λ n m. (some (zeros n), m);
  calloc = λ m. (true, m);
  clock_gettime = λ m. (some now, m);
  stat_struct_size = 14;
  stat_bytes = stat_cells;
  stat_of_bytes = cells_stat;
}
