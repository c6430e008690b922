-- ===== src/Layers/Split.antt =====
-- partitionLayers of pkg/build/layers.go, the stacks of directories and the sink that writes at
-- once. What fs.WalkDir gives is an argument, in its order; a file is known by its address, and so is
-- its header, whose time the program changes where it stands.
pub mod Stacks
pub mod Simulation
pub mod Calls
pub mod Chain
pub mod MainStack
pub mod Parents
use apko.Base.{
  ℕ, zero, suc, ◌+◌, Bool, true, false, not, ◌&&◌, List, [], ◌∷◌, ◌++◌, Option, none, some, ltb,
  ◌==◌, if◌then◌else◌, Str, str_eq, is_empty, length, StrMap, get,
}
use apko.Layers.Groups.{ImagePackage, Group, set_names}
use apko.Layers.Writer.{
  Typeflag, type_dir, Header, TarError, write_too_long, LayerError, walking, wrong_sinks, no_layer,
  writing, Layered, stopped, laid, ◌>>=◌, TarWriter, fresh_writer, has_content, write_header, write,
  FileRead, copy_file,
}

-- A file of the walk. `owner` is the name of the package that its FileInfo gives.
pub record File : Type 0 where
  pub address : ℕ
  pub path : Str
  pub owner : Option Str

abbrev pub Headers : Type 0
Headers = ℕ → Header

pub data Walked : Type 0 where
  walk_fails : Str → Walked
  walked : File → Walked

-- The sinks of all layers, by their state: `add` takes the header as it is at that time.
pub record LayerSinks (S : Type 0) : Type 0 where
  pub add : S → ℕ → File → Header → Layered S
  pub add_data : S → ℕ → Header → List ℕ → Layered S

unfoldable pub set_at : {A : Type 0} → (ℕ → A) → ℕ → A → ℕ → A
set_at at i a j = if i == j then a else at j

-- alignStacks: the layer's stack behind it, and the directories that it returns.
unfoldable pub align_stacks : List File → List File → List File × List File
align_stacks ws [] = ([], [])
align_stacks [] (f ∷ fs) = (f ∷ fs, f ∷ fs)
align_stacks (w ∷ ws) (f ∷ fs) =
    let rest = align_stacks ws fs in
    if w.address == f.address then (w ∷ rest.0, rest.1) else (f ∷ fs, f ∷ fs)

-- path.Dir of a path of the walk.
unfoldable pub path_dir_from : Str → Str → Str → Str
path_dir_from [] read dir = dir
path_dir_from (c ∷ s) read dir = path_dir_from s (read ++ c ∷ []) (if c == 47 then read else dir)

abbrev pub path_dir : Str → Str
path_dir path = path_dir_from path [] (46 ∷ [])

-- The pop of the directories that are no parents.
unfoldable pub pop_to : Str → List File → List File
pop_to dir [] = []
pop_to dir (v ∷ stack) =
    let kept = pop_to dir stack in
    elim kept [ [] ↦ (if str_eq v.path dir then v ∷ [] else []) | w ∷ ws ↦ v ∷ w ∷ ws ]

abbrev pub is_dir : Header → Bool
is_dir hdr = elim hdr.typeflag [ type_dir ↦ true | _ ↦ false ]

-- The main stack behind a file.
unfoldable pub main_stack : List File → File → Header → List File
main_stack stack f hdr = if is_dir hdr then pop_to (path_dir f.path) stack ++ f ∷ [] else stack

-- packageToLayer
unfoldable pub package_to_layer : ℕ → List Group → StrMap ℕ → StrMap ℕ
package_to_layer i [] m = m
package_to_layer i (g ∷ gs) m = package_to_layer (suc i) gs (set_names i g.pkgs m)

-- The layer of a file: the last one where no package owns it.
unfoldable pub layer_of : List Group → File → Layered ℕ
layer_of groups f = elim f.owner [
  | none ↦ laid (length groups)
  | some pkg ↦ elim (get pkg (package_to_layer 0 groups [])) [
    | none ↦ stopped (no_layer pkg f.path)
    | some i ↦ laid i
  ]
]

-- The records of a layer's packages in the installed database.
unfoldable pub layer_records : (ImagePackage → List ℕ) → List ImagePackage → List ℕ
layer_records diffs [] = []
layer_records diffs (pkg ∷ pkgs) = diffs pkg ++ layer_records diffs pkgs

-- usr/lib/apk/db/installed
abbrev pub installed_db : Str
installed_db =
    117 ∷ 115 ∷ 114 ∷ 47 ∷ 108 ∷ 105 ∷ 98 ∷ 47 ∷ 97 ∷ 112 ∷ 107 ∷ 47 ∷ 100 ∷ 98 ∷ 47 ∷ 105 ∷ 110
    ∷ 115 ∷ 116 ∷ 97 ∷ 108 ∷ 108 ∷ 101 ∷ 100 ∷ []

pub record Partitioning (S : Type 0) : Type 0 where
  pub sinks : S
  pub headers : Headers
  pub stack : List File
  pub stacks : ℕ → List File

module _ {S : Type 0} (sinks : LayerSinks S) where
  -- A directory that a layer has not seen, with the time of the file that needs it.
  abbrev pub add_dir : Partitioning S → ℕ → File → ℕ → Layered (Partitioning S)
  add_dir s i todo time =
      let hdr = record (s.headers todo.address) { mod_time = time } in
      sinks.add s.sinks i todo hdr >>= λ made.
      laid (record s { sinks = made; headers = set_at s.headers todo.address hdr })

  -- The loop over what alignStacks returns, without the file itself where `skip` names it.
  unfoldable pub add_dirs : Partitioning S → ℕ → List File → ℕ → Option ℕ → Layered (Partitioning S)
  add_dirs s i [] time skip = laid s
  add_dirs s i (todo ∷ todos) time none = do
    s' ← add_dir s i todo time
    add_dirs s' i todos time none
  add_dirs s i (todo ∷ todos) time (some f) =
      if todo.address == f
      then add_dirs s i todos time (some f)
      else add_dir s i todo time >>= λ s'. add_dirs s' i todos time (some f)

  -- Brings the layer's stack up to date with the main stack.
  abbrev pub align_layer : Partitioning S → ℕ → ℕ → Option ℕ → Layered (Partitioning S)
  align_layer s i time skip =
      let aligned = align_stacks (s.stacks i) s.stack in
      add_dirs (record s { stacks = set_at s.stacks i aligned.0 }) i aligned.1 time skip

  -- The entry of the file itself.
  unfoldable pub add_file : ℕ → File → Partitioning S → Layered (Partitioning S)
  add_file i f s =
      sinks.add s.sinks i f (s.headers f.address) >>= λ made. laid (record s { sinks = made })

  module _ (diffs : ImagePackage → List ℕ) where
    -- The records of a layer's packages, under the header of the whole installed database.
    unfoldable pub add_records : ℕ → Group → File → Partitioning S → Layered (Partitioning S)
    add_records gi g f s =
        let bytes = layer_records diffs g.pkgs in
        let idb = record (s.headers f.address) { size = length bytes } in
        sinks.add_data s.sinks gi idb bytes >>= λ made. laid (record s { sinks = made })

    -- The partial installed database of each layer, behind its directories.
    unfoldable pub add_databases : ℕ → List Group → File → Partitioning S → Layered (Partitioning S)
    add_databases gi [] f s = laid s
    add_databases gi (g ∷ gs) f s = do
      s₁ ← align_layer s gi (s.headers f.address).mod_time none
      s₂ ← add_records gi g f s₁
      add_databases (suc gi) gs f s₂

    -- What follows the entry of a file.
    unfoldable pub add_installed : List Group → File → Partitioning S → Layered (Partitioning S)
    add_installed groups f s =
        if str_eq (s.headers f.address).name installed_db
        then add_databases 0 groups f s
        else laid s

    -- The body of the walk.
    unfoldable pub partition_file : List Group → Partitioning S → File → Layered (Partitioning S)
    partition_file groups s f =
        let hdr = s.headers f.address in
        let s₁ = record s { stack = main_stack s.stack f hdr } in
        do
          i ← layer_of groups f
          s₂ ← align_layer s₁ i hdr.mod_time (some f.address)
          s₃ ← add_file i f s₂
          add_installed groups f s₃

    unfoldable pub partition_walk :
        List Group → Partitioning S → List Walked → Layered (Partitioning S)
    partition_walk groups s [] = laid s
    partition_walk groups s (walk_fails why ∷ files) = stopped (walking why)
    partition_walk groups s (walked f ∷ files) = do
      s' ← partition_file groups s f
      partition_walk groups s' files

    -- partitionLayers, with the number of sinks.
    unfoldable pub partition_layers : List Group → ℕ → S → Headers → List Walked → Layered S
    partition_layers groups sink_count made headers files =
        if not (sink_count == length groups + 1)
        then stopped (wrong_sinks (length groups) sink_count)
        else (partition_walk groups
              (record { sinks = made; headers = headers; stack = []; stacks = λ i. [] }) files
            >>= λ s. laid s.sinks)

-- The sinks of splitLayers: one tar.Writer for each layer.
module _ (refuses : Header → Option Str) (reads : Str → FileRead) where
  -- tarSink.add
  unfoldable pub tar_add : TarWriter → File → Header → Layered TarWriter
  tar_add w f hdr = do
    w' ← write_header refuses w hdr
    if has_content hdr then copy_file w' f.path f.path (reads f.path) else laid w'

  -- tarSink.addData
  unfoldable pub tar_add_data : TarWriter → Header → List ℕ → Layered TarWriter
  tar_add_data w hdr bytes = do
    w' ← write_header refuses w hdr
    elim (write w' bytes) [ none ↦ stopped (writing write_too_long) | some w'' ↦ laid w'' ]

  abbrev pub tar_sinks : LayerSinks (ℕ → TarWriter)
  tar_sinks = record {
    add = λ ws i f hdr. tar_add (ws i) f hdr >>= λ w. laid (set_at ws i w);
    add_data = λ ws i hdr bytes. tar_add_data (ws i) hdr bytes >>= λ w. laid (set_at ws i w);
  }

  -- splitLayers, up to the closing of the writers.
  unfoldable pub split_layers :
      (ImagePackage → List ℕ) → List Group → Headers → List Walked → Layered (ℕ → TarWriter)
  split_layers diffs groups headers files =
      partition_layers tar_sinks diffs groups (length groups + 1) (λ i. fresh_writer) headers files
