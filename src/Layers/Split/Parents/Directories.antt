-- ===== src/Layers/Split/Parents/Directories.antt =====
-- In every layer that pkg/build/layers.go writes, the entry of a file follows the entry of its
-- directory: the walk, file by file.
use apko.Base.{
  ℕ, ◌+◌, ◌≡◌, ◌≢◌, refl, sym, ◌∙◌, subst, inl, inr, List, [], ◌∷◌, ◌==◌, none, some, str_eq, In,
  Bool-cases, All-In, length,
}
use apko.Layers.Groups.{ImagePackage, Group}
use apko.Layers.Writer.{Header, laid, ◌>>=◌}
use apko.Layers.Split.{
  File, Headers, Walked, walked, walk_fails, main_stack, layer_of, installed_db, align_layer,
  add_file, add_installed, partition_file, partition_walk, partition_layers,
}
use apko.Layers.Split.Chain.{Parented, Named}
use apko.Layers.Split.MainStack.{
  Parent, main_stack-Chained, main_stack-OnlyLast, main_stack-Parent, main_stack-Named,
}
use apko.Layers.Split.Parents.{name_sinks, Ends, Ends-bind, Ends-mono}
use apko.Layers.Split.Parents.Aligning.{
  Names, Sound, Aligned, Placed, always, align_layer-Aligned, add_file-Sound, add_databases-Sound,
}

module _ (first : Headers) where
  -- A walk in which each file follows its directory: the directory is on the main stack, and the file
  -- is a new object whose header has its path as the name.
  abbrev pub InOrder : List File → List Walked → Type 0
  InOrder stack [] = Unit
  InOrder stack (walk_fails why ∷ files) = Unit
  InOrder stack (walked f ∷ files) =
      Named first f
      × Parent stack f
      × ((g : File) → In g stack → g.address ≢ f.address)
      × InOrder (main_stack stack f (first f.address)) files

  module _ (diffs : ImagePackage → List ℕ) (groups : List Group) where
    same_stack :
        (stack : List File) (f : File) (hdr hdr' : Header)
        → hdr.typeflag ≡ hdr'.typeflag
        → main_stack stack f hdr ≡ main_stack stack f hdr'
    unfolding main_stack
    same_stack stack f hdr hdr' e = rw e refl

    add_installed-Sound :
        (s : Names) (f : File)
        → Sound first s
        → Placed first s.stack f none
        → Ends
            (λ t. Sound first t × (t.stack ≡ s.stack))
            (add_installed name_sinks diffs groups f s)
    unfolding add_installed
    add_installed-Sound s f sound placed =
        elim (Bool-cases (str_eq (s.headers f.address).name installed_db)) [
          | inl e ↦ rw e (add_databases-Sound first diffs s 0 groups f sound placed)
          | inr e ↦ rw e (sound, refl)
        ]

    -- The walk at a file.
    module _ (s : Names) (f : File) (sound : Sound first s) (name : Named first f)
        (parent : Parent s.stack f)
        (fresh : (g : File) → In g s.stack → g.address ≢ f.address) where
      abbrev hdr : Header
      hdr = s.headers f.address

      abbrev stack : List File
      stack = main_stack s.stack f hdr

      abbrev stacked : Names
      stacked = record s { stack = stack }

      each : (g : File) → In g s.stack → Named first g
      each g k = All-In (Named first) s.stack g sound.names k

      stacked-Sound : Sound first stacked
      stacked-Sound = record {
        same = sound.same;
        parented = sound.parented;
        chain = main_stack-Chained first s.stack f hdr sound.chain each name parent fresh;
        names = main_stack-Named first s.stack f hdr sound.chain each name parent fresh;
        layers = sound.layers;
        seen = sound.seen;
      }

      file-Placed : Placed first stack f (some f.address)
      file-Placed = record {
        name = name;
        parent = main_stack-Parent first s.stack f hdr sound.chain each name parent fresh;
      }

      database-Placed : Placed first stack f none
      database-Placed = record {
        name = name;
        parent = elim (file-Placed.parent) [ inl r ↦ inl r | inr (g, k, e, _) ↦ inr (g, k, e, tt) ];
      }

      abbrev Done : Names → Type 0
      Done t = Sound first t × (t.stack ≡ main_stack s.stack f (first f.address))

      -- What follows the alignment of the file's layer.
      entered-Done :
          (i : ℕ) (s₂ : Names)
          → Aligned first stacked i (some f.address) s₂
          → Ends Done (add_file name_sinks i f s₂ >>= add_installed name_sinks diffs groups f)
      entered-Done i s₂ a =
          Ends-bind (λ t. Sound first t × (t.stack ≡ stack)) Done (add_file name_sinks i f s₂)
            (add_installed name_sinks diffs groups f)
            (add_file-Sound first stacked s₂ i f stacked-Sound file-Placed a)
            (λ s₃ (sound₃, e).
              Ends-mono (λ t. Sound first t × (t.stack ≡ s₃.stack)) Done
                (add_installed name_sinks diffs groups f s₃)
                (λ t (q, e').
                  (q, e' ∙ e ∙ same_stack s.stack f hdr (first f.address) (sound.same f.address).1))
                (add_installed-Sound s₃ f sound₃
                  (subst (λ x. Placed first x f none) (sym e) database-Placed)))

      partition_file-Done : Ends Done (partition_file name_sinks diffs groups s f)
      unfolding partition_file
      partition_file-Done =
          Ends-bind (λ i. Unit) Done (layer_of groups f)
            (λ i. align_layer name_sinks stacked i hdr.mod_time (some f.address) >>= λ s₂.
              add_file name_sinks i f s₂ >>= add_installed name_sinks diffs groups f)
            (always (layer_of groups f))
            (λ i _.
              Ends-bind (Aligned first stacked i (some f.address)) Done
                (align_layer name_sinks stacked i hdr.mod_time (some f.address))
                (λ s₂. add_file name_sinks i f s₂ >>= add_installed name_sinks diffs groups f)
                (align_layer-Aligned first stacked i hdr.mod_time (some f.address) stacked-Sound
                  (main_stack-OnlyLast first s.stack f hdr sound.chain each name parent fresh))
                (entered-Done i))

    partition_walk-Sound :
        (s : Names) (files : List Walked)
        → Sound first s
        → InOrder s.stack files
        → Ends (Sound first) (partition_walk name_sinks diffs groups s files)
    unfolding partition_walk
    partition_walk-Sound s [] sound order = sound
    partition_walk-Sound s (walk_fails why ∷ files) sound order = tt
    partition_walk-Sound s (walked f ∷ files) sound (name, parent, fresh, order) =
        Ends-bind (λ t. Sound first t × (t.stack ≡ main_stack s.stack f (first f.address)))
          (Sound first) (partition_file name_sinks diffs groups s f)
          (λ t. partition_walk name_sinks diffs groups t files)
          (partition_file-Done s f sound name parent fresh)
          (λ t (sound', e).
            partition_walk-Sound t files sound' (subst (λ x. InOrder x files) (sym e) order))

    pub partition_layers-Parented :
        (count : ℕ) (files : List Walked)
        → InOrder [] files
        → Ends
            (λ names. (i : ℕ) → Parented (names i))
            (partition_layers name_sinks diffs groups count (λ i. []) first files)
    unfolding partition_layers
    partition_layers-Parented count files order = elim (Bool-cases (count == length groups + 1)) [
      | inr e ↦ rw e tt
      | inl e ↦
          let start : Names = record {
            sinks = λ i. [];
            headers = first;
            stack = [];
            stacks = λ i. [];
          } in
          rw e (
            Ends-bind (Sound first) (λ names. (i : ℕ) → Parented (names i))
              (partition_walk name_sinks diffs groups start files) (λ s. laid s.sinks)
              (partition_walk-Sound start files
                (record {
                  same = λ a. (refl, refl);
                  parented = λ i. tt;
                  chain = tt;
                  names = tt;
                  layers = λ i. tt;
                  seen = λ i g k. elim k [ ];
                })
                order)
              (λ s sound. sound.parented))
    ]
