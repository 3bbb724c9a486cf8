-- ===== src/Sidecar/Files.antt =====
-- `atomicWriteJson`, as the states of the file system that another process, or a crash, can meet: one
-- after each system call, and one for each part of the text that is on the way to the file.
use topo_llvm.Prelude.{
  ℕ, zero, suc, Bool, true, false, not, Option, none, some, List, [], ◌∷◌, ◌++◌, if◌then◌else◌,
  Bytes, codes, same,
}

-- A file's text, and whether `fsync` has put it on the disk.
pub record File : Type 0 where
  pub content : Bytes
  pub durable : Bool

abbrev pub FileSystem : Type 0
FileSystem = Bytes → Option File

abbrev pub set_file : Bytes → Option File → FileSystem → FileSystem
set_file path file fs p = if same p path then file else fs p

-- What the system answers to the calls of one write: `parts` are the lengths of the text that have
-- reached the file at some moment.
pub record Answer : Type 0 where
  pub opens : Bool
  pub parts : List ℕ
  pub writes : Bool
  pub syncs : Bool
  pub renames : Bool

abbrev pub take : ℕ → Bytes → Bytes
take zero s = []
take (suc n) [] = []
take (suc n) (c ∷ s) = c ∷ take n s

abbrev pub temporary : Bytes → Bytes
temporary dest = dest ++ codes ".tmp"

abbrev pub text_file : Bytes → Bool → Option File
text_file content durable = some (record { content = content; durable = durable })

-- The states while the text is written.
abbrev pub partial_states : Bytes → Bytes → List ℕ → FileSystem → List FileSystem
partial_states tmp text [] fs = []
partial_states tmp text (n ∷ ns) fs =
    set_file tmp (text_file (take n text) false) fs ∷ partial_states tmp text ns fs

abbrev pub last_length : List ℕ → ℕ
last_length [] = 0
last_length (n ∷ []) = n
last_length (n ∷ m ∷ ns) = last_length (m ∷ ns)

-- The states of the write in their order, the last one, and the result.
pub record Trace : Type 0 where
  pub states : List FileSystem
  pub last : FileSystem
  pub succeeds : Bool

abbrev pub rename_step : Answer → Bytes → Bytes → FileSystem → Trace
rename_step a dest text fs =
    let synced = set_file (temporary dest) (text_file text a.syncs) fs in
    let renamed = set_file (temporary dest) none (set_file dest (text_file text a.syncs) fs) in
    if a.renames
    then record { states = synced ∷ renamed ∷ []; last = renamed; succeeds = true }
    else record { states = synced ∷ []; last = synced; succeeds = false }

-- What is written is the printed value and a line feed.
unfoldable pub atomic_write : Answer → Bytes → Bytes → FileSystem → Trace
atomic_write a dest printed fs =
    let text = printed ++ 10 ∷ [] in
    let tmp = temporary dest in
    let parts = partial_states tmp text a.parts fs in
    let opened = set_file tmp (text_file [] false) fs in
    let written = set_file tmp (text_file text false) fs in
    let failed = set_file tmp (text_file (take (last_length a.parts) text) false) fs in
    let after = rename_step a dest text fs in
    if not a.opens
    then record { states = fs ∷ []; last = fs; succeeds = false }
    else if not a.writes
    then record { states = fs ∷ opened ∷ parts; last = failed; succeeds = false }
    else record {
      states = (fs ∷ opened ∷ parts) ++ (written ∷ after.states);
      last = after.last;
      succeeds = after.succeeds;
    }
