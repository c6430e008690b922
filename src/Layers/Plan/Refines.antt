-- ===== src/Layers/Plan/Refines.antt =====
-- PlanLayers of pkg/build/layer_plan.go against BuildLayers of pkg/build/layers.go: rendering the
-- plans gives the layers that are written at once.
use apko.Base.{
  ℕ, zero, suc, ◌+◌, ◌<◌, ◌≤◌, ◌≡◌, ◌≢◌, refl, sym, ap, ◌∙◌, subst, List, [], ◌∷◌, Option, some,
  Str, length, arith, Bool-cases, inl, inr, StrMap, get, All, All-append, All-parts, All-both, ◌==◌,
}
use apko.Layers.Groups.{ImagePackage, Group}
use apko.Layers.Writer.{
  Header, Layered, stopped, laid, bind-laid, TarWriter, fresh_writer, FileRead, contents,
}
use apko.Layers.Split.{Headers, Walked, split_layers, partition_layers}
use apko.Layers.Split.Simulation.{Follows}
use apko.Layers.Split.Calls.{tar_add_cases}
use apko.Layers.Plan.{
  ContentDigest, unnamed, naming_fails, named, PlanEntry, PlannedFile, Planner, Planning,
  LayerContent, no_planner, get_text, all_files, assign_entries, assign_paths, planner_sinks,
  hash_file, file_digest, digest_each, digest_files, plan_layers, write_entries,
}
use apko.Layers.Plan.Tasks.{Task, file_task, data_task, run_task, run_tasks, file_of, files_of}
use apko.Layers.Plan.Simulation.{Stored, Planned, plans-Planned}
use apko.Layers.Plan.Digests.{
  Hashes, Right, Leads, digest_each_lem, assign_entries_lem, assign_paths_lem,
}
use apko.Layers.Plan.Render.{Trusted, Ready, write_entries-run_tasks}

followed :
    {A B : Type 0} (R : A → B → Type 0) (x : Layered A) (y : Layered B) (a : A)
    → Follows R x y
    → x ≡ laid a
    → (b : B) × (y ≡ laid b) × R a b
followed R (stopped why) y a f h = cc h
followed R (laid a') (stopped why) a f h = elim f [ ]
followed R (laid a') (laid b) a f h = (b, refl, subst (λ x. R x b) (cc h) f)

module _ (P : PlannedFile → Type 0) (planners : ℕ → Planner) where
  All-all_files : (i n : ℕ) → ((j : ℕ) → All P (planners j).files) → All P (all_files planners i n)
  unfolding all_files
  All-all_files i zero each = tt
  All-all_files i (suc n) each =
      All-append P (planners i).files (all_files planners (suc i) n) (each i)
        (All-all_files (suc i) n each)

  all_files-All :
      (i n k : ℕ) → All P (all_files planners i n) → i ≤ k → k < i + n → All P (planners k).files
  unfolding all_files
  all_files-All i zero k all l m = absurd (omega arith)
  all_files-All i (suc n) k all l m = elim (Bool-cases (k == i)) [
    | inl e ↦
        let same : k ≡ i = ground (arith, e) in
        subst (λ x. All P (planners x).files) (sym same)
          (All-parts P (planners i).files (all_files planners (suc i) n) all).0
    | inr e ↦
        all_files-All (suc i) n k
          (All-parts P (planners i).files (all_files planners (suc i) n) all).1 (ground (arith, e))
          (omega arith)
  ]

module _ (sha256 : List ℕ → Str) (reads : Str → FileRead) (infos : Str → ContentDigest)
    (answers : (path why : Str) → infos path ≢ naming_fails why) where
  digestible_by :
      (path : Str) (b : List ℕ)
      → reads path ≡ contents b
      → (info : ContentDigest) → infos path ≡ info
      → (d : Str) × Hashes sha256 reads infos path d
  unfolding hash_file file_digest
  digestible_by path b read unnamed e = (sha256 b, (rw (e, read, file_digest) refl, (b, read)))
  digestible_by path b read (naming_fails why) e = absurd (answers path why e)
  digestible_by path b read (named []) e = (sha256 b, (rw (e, read, file_digest) refl, (b, read)))
  digestible_by path b read (named (c ∷ d)) e = (c ∷ d, (rw (e, file_digest) refl, (b, read)))

  -- A file that can be read has a digest.
  digestible :
      (path : Str) (b : List ℕ)
      → reads path ≡ contents b
      → (d : Str) × Hashes sha256 reads infos path d
  digestible path b read = digestible_by path b read (infos path) refl

  abbrev Digested : PlannedFile → Type 0
  Digested f = (d : Str) × Hashes sha256 reads infos f.file.path d

  file-Digested :
      (refuses : Header → Option Str) (w w' : TarWriter) (n : ℕ) (t : Task)
      → run_task refuses reads w t ≡ laid w'
      → All Digested (file_of n t)
  file-Digested refuses w w' n (data_task hdr bytes) h = tt
  file-Digested refuses w w' n (file_task f hdr) h =
      elim (tar_add_cases refuses reads w w' f hdr h) [
        | inl (e, _) ↦ rw e tt
        | inr (e, _, _, b, read, _) ↦ rw e (digestible f.path b read, tt)
      ]

  -- The files of a layer that is written can be read.
  files-Digested :
      (refuses : Header → Option Str) (w w' : TarWriter) (n : ℕ) (ts : List Task)
      → run_tasks refuses reads w ts ≡ laid w'
      → All Digested (files_of n ts)
  files-Digested refuses w w' n [] h = tt
  files-Digested refuses w w' n (t ∷ ts) h =
      let (w₁, first, rest) =
        bind-laid (run_task refuses reads w t) (λ v. run_tasks refuses reads v ts) w' h in
      All-append Digested (file_of n t) (files_of (suc n) ts) (file-Digested refuses w w₁ n t first)
        (files-Digested refuses w₁ w' (suc n) ts rest)

  module _ (refuses : Header → Option Str) (ws : ℕ → TarWriter) (s : Planning)
      (planned : Planned sha256 refuses reads ws s) (n : ℕ) where
    -- digestFiles goes through.
    digested :
        (digests : StrMap Str) × (digest_each sha256 reads infos (all_files s.planners 0 n) []
          ≡ laid digests)
        × Right sha256 reads infos digests
        × All (λ f. (d : Str) × (get f.file.path digests ≡ some d)) (all_files s.planners 0 n)
    unfolding get
    digested =
        let each : (i : ℕ) → All Digested (s.planners i).files = λ i.
          subst (λ l. All Digested l) (sym (planned.each i).lists)
            (files-Digested refuses fresh_writer (ws i) 0 (planned.each i).tasks
              (planned.each i).runs) in
        let (digests, runs, right, _, has) =
          digest_each_lem sha256 reads infos (all_files s.planners 0 n) []
            (All-all_files Digested s.planners 0 n each) (λ path d h. cc h) in
        (digests, runs, right, has)

    module _ (meaning : Str → List ℕ) (trusted : Trusted sha256 meaning reads infos)
        (digests : StrMap Str) (right : Right sha256 reads infos digests)
        (has : All
          (λ f. (d : Str) × (get f.file.path digests ≡ some d))
          (all_files s.planners 0 n)) where
      abbrev content : LayerContent
      content = record {
        paths = assign_paths digests (all_files s.planners 0 n) [];
        inline = s.inline;
      }

      abbrev Placed : PlannedFile → Type 0
      Placed f =
          ((d : Str) × (get f.file.path digests ≡ some d))
          × ((p : Str) × (get (get_text f.file.path digests) content.paths ≡ some p))

      tasks-Ready :
          (leads : Leads digests content.paths) (m : ℕ) (ts : List Task)
          → All Placed (files_of m ts)
          → All (Stored sha256 s.inline) ts
          → All
              (Ready sha256 meaning refuses reads infos trusted content planned.honest digests right
                leads)
              ts
      tasks-Ready leads m [] placed kept = tt
      tasks-Ready leads m (data_task hdr bytes ∷ ts) placed (k, kept) =
          (k, tasks-Ready leads (suc m) ts placed kept)
      tasks-Ready leads m (file_task f hdr ∷ ts) placed (k, kept) =
          let (here, rest) =
            All-parts Placed (file_of m (file_task f hdr)) (files_of (suc m) ts) placed in
          ((λ e. (rw e at here).0), tasks-Ready leads (suc m) ts rest kept)

      -- Each plan renders to its layer.
      rendered :
          (i : ℕ)
          → i < n
          → write_entries reads content refuses fresh_writer
              (assign_entries digests (s.planners i).files (s.planners i).entries)
            ≡ laid (ws i)
      unfolding get
      rendered i l =
          let same = planned.each i in
          let (leads, _, found) =
            assign_paths_lem digests (all_files s.planners 0 n) [] has (λ d p h. cc h) in
          let all : All Placed (all_files s.planners 0 n) =
            All-both (λ f. (d : Str) × (get f.file.path digests ≡ some d))
              (λ f. (p : Str) × (get (get_text f.file.path digests) content.paths ≡ some p))
              (all_files s.planners 0 n) has found in
          let placed : All Placed (files_of 0 same.tasks) =
            subst (λ l. All Placed l) same.lists
              (all_files-All Placed s.planners 0 n i all (omega arith) (omega arith)) in
          ap (λ es. write_entries reads content refuses fresh_writer es)
            (ap (λ fs. assign_entries digests fs (s.planners i).entries) same.lists
              ∙ ap (λ es. assign_entries digests (files_of 0 same.tasks) es) same.plans
              ∙ assign_entries_lem sha256 digests same.tasks)
          ∙ write_entries-run_tasks sha256 meaning refuses reads infos trusted content
              planned.honest digests right leads fresh_writer (ws i) same.tasks
              (tasks-Ready leads 0 same.tasks placed same.keeps) same.runs

  -- Where every FileInfo that names its content does so without an error, the hash does not collide and
  -- each digest identifies what is read at the path, then whenever the layers are written, the
  -- planning goes through as well, and rendering the plan of each layer gives what is written for it.
  pub split_layers-plan_layers :
      (refuses : Header → Option Str) (meaning : Str → List ℕ)
      → Trusted sha256 meaning reads infos
      → (diffs : ImagePackage → List ℕ) (groups : List Group) (headers : Headers)
        (files : List Walked) (ws : ℕ → TarWriter)
      → split_layers refuses reads diffs groups headers files ≡ laid ws
      → (entries : ℕ → List PlanEntry) × (c : LayerContent) × (plan_layers sha256 reads infos diffs
            groups headers files
          ≡ laid (entries, c))
        × ((i : ℕ)
            → i ≤ length groups
            → write_entries reads c refuses fresh_writer (entries i) ≡ laid (ws i))
  unfolding plan_layers digest_files
  split_layers-plan_layers refuses meaning trusted diffs groups headers files ws h =
      let n = length groups + 1 in
      let (s, planning, planned) =
        followed (Planned sha256 refuses reads)
          (split_layers refuses reads diffs groups headers files)
          (partition_layers (planner_sinks sha256) diffs groups n
            (record { planners = λ i. no_planner; inline = [] }) headers files)
          ws (plans-Planned sha256 refuses reads diffs groups headers files) h in
      let (digests, runs, right, has) = digested refuses ws s planned n in
      (
        (λ i. assign_entries digests (s.planners i).files (s.planners i).entries),
        content refuses ws s planned n meaning trusted digests right has,
        rw (planning, runs) refl,
        (λ i l. rendered refuses ws s planned n meaning trusted digests right has i (omega arith)),
      )
