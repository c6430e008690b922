-- ===== src/Layers/Plan.antt =====
-- pkg/build/layer_plan.go: the plans of layers, the digests of their files and the rendering. The
-- files are hashed one by one; the hash, and the files' contents and the digests that their FileInfo
-- gives, both by the path, are arguments.
pub mod Tasks
pub mod Simulation
pub mod Digests
pub mod Render
pub mod Refines
pub mod Digest
use apko.Base.{
  ℕ, zero, suc, ◌+◌, Bool, true, false, List, [], ◌∷◌, ◌++◌, Option, none, some, ◌==◌,
  if◌then◌else◌, Str, is_empty, length, StrMap, get, put,
}
use apko.Layers.Groups.{ImagePackage, Group}
use apko.Layers.Writer.{
  Header, TarError, write_too_long, LayerError, opening, hashing, naming, no_content, Layered,
  stopped, laid, ◌>>=◌, TarWriter, has_content, write_header, FileRead, open_fails, read_fails,
  close_fails, contents, copy_file,
}
use apko.Layers.Split.{File, Headers, Walked, LayerSinks, set_at, partition_layers}

-- What FileInfo.ContentDigest gives, where the FileInfo has it.
pub data ContentDigest : Type 0 where
  unnamed : ContentDigest
  naming_fails : Str → ContentDigest
  named : Str → ContentDigest

pub record PlanEntry : Type 0 where
  pub header : Header
  pub digest : Str

pub record PlannedFile : Type 0 where
  pub index : ℕ
  pub file : File

-- planner, without the content that all planners share.
pub record Planner : Type 0 where
  pub entries : List PlanEntry
  pub files : List PlannedFile

-- The planners, and the shared content's inline data.
pub record Planning : Type 0 where
  pub planners : ℕ → Planner
  pub inline : StrMap (List ℕ)

pub record LayerContent : Type 0 where
  pub paths : StrMap Str
  pub inline : StrMap (List ℕ)

abbrev pub no_planner : Planner
no_planner = record { entries = []; files = [] }

-- planner.add
unfoldable pub planner_add : Planner → File → Header → Planner
planner_add pl f hdr = record {
  entries = pl.entries ++ (record { header = hdr; digest = [] } ∷ []);
  files =
      if has_content hdr
      then pl.files ++ (record { index = length pl.entries; file = f } ∷ [])
      else pl.files;
}

abbrev pub planner_entry : Planner → Header → Str → Planner
planner_entry pl hdr d = record pl {
  entries = pl.entries ++ (record { header = hdr; digest = d } ∷ []);
}

-- The map's value, or the empty text.
unfoldable pub get_text : Str → StrMap Str → Str
get_text k m = elim (get k m) [ none ↦ [] | some v ↦ v ]

unfoldable pub set_digest : ℕ → Str → List PlanEntry → List PlanEntry
set_digest i d [] = []
set_digest zero d (e ∷ es) = record e { digest = d } ∷ es
set_digest (suc i) d (e ∷ es) = e ∷ set_digest i d es

-- The second loop of digestFiles, over the files of a planner.
unfoldable pub assign_entries : StrMap Str → List PlannedFile → List PlanEntry → List PlanEntry
assign_entries digests [] es = es
assign_entries digests (f ∷ fs) es =
    assign_entries digests fs (set_digest f.index (get_text f.file.path digests) es)

-- A path for a digest that has none.
unfoldable pub add_path : Str → Str → StrMap Str → StrMap Str
add_path d path paths = elim (get d paths) [ some p ↦ paths | none ↦ put d path paths ]

-- The first path of each digest.
unfoldable pub assign_paths : StrMap Str → List PlannedFile → StrMap Str → StrMap Str
assign_paths digests [] paths = paths
assign_paths digests (f ∷ fs) paths =
    assign_paths digests fs (add_path (get_text f.file.path digests) f.file.path paths)

-- All planned files of the planners from one on.
unfoldable pub all_files : (ℕ → Planner) → ℕ → ℕ → List PlannedFile
all_files planners i zero = []
all_files planners i (suc n) = (planners i).files ++ all_files planners (suc i) n

module _ (sha256 : List ℕ → Str) where
  -- planner.addData, with the content that it shares.
  unfoldable pub planner_add_data : Planning → ℕ → Header → List ℕ → Planning
  planner_add_data s i hdr bytes =
      if has_content hdr
      then record {
        planners = set_at s.planners i (planner_entry (s.planners i) hdr (sha256 bytes));
        inline = put (sha256 bytes) bytes s.inline;
      }
      else record s { planners = set_at s.planners i (planner_entry (s.planners i) hdr []) }

  abbrev pub planner_sinks : LayerSinks Planning
  planner_sinks = record {
    add = λ s i f hdr.
        laid (record s { planners = set_at s.planners i (planner_add (s.planners i) f hdr) });
    add_data = λ s i hdr bytes. laid (planner_add_data s i hdr bytes);
  }

  -- The digest of what is read.
  unfoldable pub hash_file : Str → FileRead → Layered Str
  hash_file path (open_fails why) = stopped (opening path why)
  hash_file path (read_fails why) = stopped (hashing path why)
  hash_file path (close_fails bytes why) = laid (sha256 bytes)
  hash_file path (contents bytes) = laid (sha256 bytes)

  module _ (reads : Str → FileRead) (infos : Str → ContentDigest) where
    -- fileDigest
    unfoldable pub file_digest : Str → Layered Str
    file_digest path = elim (infos path) [
      | naming_fails why ↦ stopped (naming path why)
      | named [] ↦ hash_file path (reads path)
      | named (c ∷ d) ↦ laid (c ∷ d)
      | unnamed ↦ hash_file path (reads path)
    ]

    -- The first loop of digestFiles: each path once.
    unfoldable pub digest_each : List PlannedFile → StrMap Str → Layered (StrMap Str)
    digest_each [] digests = laid digests
    digest_each (f ∷ fs) digests = elim (get f.file.path digests) [
      | some d ↦ digest_each fs digests
      | none ↦ file_digest f.file.path >>= λ d. digest_each fs (put f.file.path d digests)
    ]

    -- digestFiles, for a number of planners.
    unfoldable pub digest_files : ℕ → Planning → Layered ((ℕ → List PlanEntry) × LayerContent)
    digest_files n s =
        let files = all_files s.planners 0 n in
        digest_each files [] >>= λ digests. laid (
          λ i. assign_entries digests (s.planners i).files (s.planners i).entries,
          record { paths = assign_paths digests files []; inline = s.inline },
        )

    -- planLayers: the entries of each plan, and the content.
    unfoldable pub plan_layers :
        (ImagePackage → List ℕ)
        → List Group
        → Headers
        → List Walked
        → Layered ((ℕ → List PlanEntry) × LayerContent)
    plan_layers diffs groups headers files =
        partition_layers planner_sinks diffs groups (length groups + 1)
          (record { planners = λ i. no_planner; inline = [] }) headers files
        >>= λ s. digest_files (length groups + 1) s

-- LayerContent.open, with what reading gives.
module _ (reads : Str → FileRead) (c : LayerContent) where
  unfoldable pub open_content : Str → Layered (Str × FileRead)
  open_content digest = elim (get digest c.inline) [
    | some bytes ↦ laid (digest, contents bytes)
    | none ↦ elim (get digest c.paths) [
      | none ↦ stopped (no_content digest)
      | some path ↦ laid (path, reads path)
    ]
  ]

  module _ (refuses : Header → Option Str) where
    abbrev pub write_entry : TarWriter → PlanEntry → Layered TarWriter
    write_entry w e = write_header refuses w e.header >>= λ w'.
        if has_content e.header
        then (open_content e.digest >>= λ found. copy_file w' found.0 e.header.name found.1)
        else laid w'

    -- LayerPlan.writeEntries
    unfoldable pub write_entries : TarWriter → List PlanEntry → Layered TarWriter
    write_entries w [] = laid w
    write_entries w (e ∷ es) = write_entry w e >>= λ w'. write_entries w' es
