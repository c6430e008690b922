-- ===== src/Layers/Plan/Simulation.antt =====
-- The plans of pkg/build/layer_plan.go are made from the calls that the writing of layers in
-- pkg/build/layers.go makes, layer by layer.
use apko.Base.{
  ℕ, suc, ◌+◌, ◌≡◌, refl, sym, ap, ◌∙◌, subst, true, List, [], ◌∷◌, ◌++◌, map, Option, some,
  if◌then◌else◌, Str, str_eq, str_eq_refl, str_eq_iff, length, arith, Bool-cases, inl, inr, StrMap,
  get, put, get-put, append-nil, ◌==◌, All, All-append,
}
use apko.Layers.Writer.{
  Header, Layered, stopped, laid, ◌>>=◌, TarWriter, fresh_writer, has_content, FileRead,
}
use apko.Layers.Groups.{ImagePackage, Group}
use apko.Layers.Split.{
  File, Headers, Walked, set_at, tar_add, tar_add_data, tar_sinks, split_layers, partition_layers,
}
use apko.Layers.Split.Simulation.{Follows, partition_layers-Alike}
use apko.Layers.Plan.{
  PlanEntry, Planner, Planning, no_planner, planner_add, planner_entry, planner_add_data,
  planner_sinks,
}
use apko.Layers.Plan.Tasks.{
  Task, file_task, data_task, run_task, run_tasks, run_tasks_snoc, entry_of, file_of, files_of,
  files_of_snoc,
}

map_snoc :
    (g : Task → PlanEntry) (ts : List Task) (t : Task) → map g (ts ++ t ∷ []) ≡ map g ts ++ g t ∷ []
map_snoc g [] t = refl
map_snoc g (u ∷ ts) t = ap (λ l. g u ∷ l) (map_snoc g ts t)

length-map : (g : Task → PlanEntry) (ts : List Task) → length (map g ts) ≡ length ts
length-map g [] = refl
length-map g (t ∷ ts) = ap (λ n. suc n) (length-map g ts)

add_files :
    (pl : Planner) (f : File) (hdr : Header)
    → (planner_add pl f hdr).files ≡ pl.files ++ file_of (length pl.entries) (file_task f hdr)
unfolding planner_add
add_files pl f hdr = elim (Bool-cases (has_content hdr)) [
  | inl e ↦ rw e refl
  | inr e ↦ rw e (sym (append-nil pl.files))
]

module _ (sha256 : List ℕ → Str) where
  -- The shared content has data for the digest of a task's data.
  abbrev pub Stored : StrMap (List ℕ) → Task → Type 0
  Stored inline (file_task f hdr) = Unit
  Stored inline (data_task hdr bytes) =
      has_content hdr ≡ true → (b : List ℕ) × (get (sha256 bytes) inline ≡ some b)

  Stored-put :
      (inline : StrMap (List ℕ)) (bytes : List ℕ) (ts : List Task)
      → All (Stored inline) ts
      → All (Stored (put (sha256 bytes) bytes inline)) ts
  Stored-put inline bytes [] h = tt
  Stored-put inline bytes (file_task f hdr ∷ ts) (_, h) = (tt, Stored-put inline bytes ts h)
  Stored-put inline bytes (data_task hdr bytes' ∷ ts) (there, h) = (
    (λ e. elim (Bool-cases (str_eq (sha256 bytes) (sha256 bytes'))) [
      | inl same ↦
          (bytes, ground (arith, same, get-put (sha256 bytes) (sha256 bytes') bytes inline))
      | inr other ↦
          let (b, found) = there e in
          (b, ground (arith, other, found, get-put (sha256 bytes) (sha256 bytes') bytes inline))
    ]),
    Stored-put inline bytes ts h,
  )

  module _ (refuses : Header → Option Str) (reads : Str → FileRead) where
    -- A tar file and a plan that come from the same calls.
    pub record SameTasks (inline : StrMap (List ℕ)) (w : TarWriter) (pl : Planner) : Type 0 where
      pub tasks : List Task
      pub runs : run_tasks refuses reads fresh_writer tasks ≡ laid w
      pub plans : pl.entries ≡ map (entry_of sha256 (λ path. [])) tasks
      pub lists : pl.files ≡ files_of 0 tasks
      pub keeps : All (Stored inline) tasks

    pub record Planned (ws : ℕ → TarWriter) (s : Planning) : Type 0 where
      pub each : (i : ℕ) → SameTasks s.inline (ws i) (s.planners i)
      pub honest : (d : Str) (b : List ℕ) → get d s.inline ≡ some b → sha256 b ≡ d

    add_entries :
        (pl : Planner) (f : File) (hdr : Header)
        → (planner_add pl f hdr).entries
          ≡ pl.entries ++ entry_of sha256 (λ path. []) (file_task f hdr) ∷ []
    unfolding planner_add
    add_entries pl f hdr = elim (Bool-cases (has_content hdr)) [
      | inl e ↦ rw e refl
      | inr e ↦ rw e refl
    ]

    add_task :
        (inline : StrMap (List ℕ)) (w w' : TarWriter) (pl pl' : Planner) (t : Task)
        → SameTasks inline w pl
        → run_task refuses reads w t ≡ laid w'
        → pl'.entries ≡ pl.entries ++ entry_of sha256 (λ path. []) t ∷ []
        → pl'.files ≡ pl.files ++ file_of (length pl.entries) t
        → Stored inline t
        → SameTasks inline w' pl'
    add_task inline w w' pl pl' t same run es fs kept =
        let entry = entry_of sha256 (λ path. []) in
        let numbered : length pl.entries ≡ length same.tasks + 0 =
          omega (arith, ap (λ l. length l) same.plans, length-map entry same.tasks) in
        record {
          tasks = same.tasks ++ t ∷ [];
          runs = run_tasks_snoc refuses reads fresh_writer w w' same.tasks t same.runs run;
          plans = es ∙ ap (λ l. l ++ entry t ∷ []) same.plans ∙ sym (map_snoc entry same.tasks t);
          lists =
              fs
              ∙ ap (λ l. l ++ file_of (length pl.entries) t) same.lists
              ∙ ap (λ n. files_of 0 same.tasks ++ file_of n t) numbered
              ∙ sym (files_of_snoc 0 same.tasks t);
          keeps = All-append (Stored inline) same.tasks (t ∷ []) same.keeps (kept, tt);
        }

    set_at_each :
        {A B : Type 0} (P : A → B → Type 0) (as' : ℕ → A) (bs : ℕ → B) (i : ℕ) (a : A) (b : B)
        → ((j : ℕ) → P (as' j) (bs j))
        → P a b
        → (j : ℕ) → P (set_at as' i a j) (set_at bs i b j)
    unfolding set_at
    set_at_each P as' bs i a b all one j = elim (Bool-cases (i == j)) [
      | inl e ↦ rw e one
      | inr e ↦ rw e (all j)
    ]

    add_step :
        (ws : ℕ → TarWriter) (s : Planning) (i : ℕ) (f : File) (hdr : Header)
        → Planned ws s
        → (x : Layered TarWriter) → tar_add refuses reads (ws i) f hdr ≡ x
        → Follows Planned
            (x >>= λ w. laid (set_at ws i w))
            (laid (record s { planners = set_at s.planners i (planner_add (s.planners i) f hdr) }))
    add_step ws s i f hdr p (stopped why) run = tt
    add_step ws s i f hdr p (laid w) run = record {
      each =
          set_at_each (SameTasks s.inline) ws s.planners i w (planner_add (s.planners i) f hdr)
            p.each
            (add_task s.inline (ws i) w (s.planners i) (planner_add (s.planners i) f hdr)
              (file_task f hdr) (p.each i) run (add_entries (s.planners i) f hdr)
              (add_files (s.planners i) f hdr) tt);
      honest = p.honest;
    }

    entry_with :
        (pl : Planner) (hdr : Header) (bytes : List ℕ) (d : Str)
        → d ≡ (if has_content hdr then sha256 bytes else [])
        → (planner_entry pl hdr d).entries
          ≡ pl.entries ++ entry_of sha256 (λ path. []) (data_task hdr bytes) ∷ []
    entry_with pl hdr bytes d e =
        ap (λ x. pl.entries ++ (record { header = hdr; digest = x } ∷ [])) e

    data_stored :
        (ws : ℕ → TarWriter) (s : Planning) (i : ℕ) (hdr : Header) (bytes : List ℕ)
        → Planned ws s
        → (w : TarWriter) → tar_add_data refuses reads (ws i) hdr bytes ≡ laid w
        → has_content hdr ≡ true
        → Planned (set_at ws i w) (record {
          planners = set_at s.planners i (planner_entry (s.planners i) hdr (sha256 bytes));
          inline = put (sha256 bytes) bytes s.inline;
        })
    data_stored ws s i hdr bytes p w run e =
        let inline = put (sha256 bytes) bytes s.inline in
        let own = get-put (sha256 bytes) (sha256 bytes) bytes s.inline in
        let before : (j : ℕ) → SameTasks inline (ws j) (s.planners j) = λ j.
          let same = p.each j in
          record {
            tasks = same.tasks;
            runs = same.runs;
            plans = same.plans;
            lists = same.lists;
            keeps = Stored-put s.inline bytes same.tasks same.keeps;
          } in
        record {
          each =
              set_at_each (SameTasks inline) ws s.planners i w
                (planner_entry (s.planners i) hdr (sha256 bytes)) before
                (add_task inline (ws i) w (s.planners i)
                  (planner_entry (s.planners i) hdr (sha256 bytes)) (data_task hdr bytes) (before i)
                  run (entry_with (s.planners i) hdr bytes (sha256 bytes) (ground (arith, e)))
                  (sym (append-nil (s.planners i).files))
                  (λ _. (bytes, ground (arith, own, str_eq_refl (sha256 bytes)))));
          honest = λ d b found. elim (Bool-cases (str_eq (sha256 bytes) d)) [
            | inl same ↦
                let here : bytes ≡ b =
                  ground (arith, same, found, get-put (sha256 bytes) d bytes s.inline) in
                subst (λ x. sha256 x ≡ d) here ((str_eq_iff (sha256 bytes) d).0 same)
            | inr other ↦
                p.honest d b (ground (arith, other, found, get-put (sha256 bytes) d bytes s.inline))
          ];
        }

    data_step :
        (ws : ℕ → TarWriter) (s : Planning) (i : ℕ) (hdr : Header) (bytes : List ℕ)
        → Planned ws s
        → (x : Layered TarWriter) → tar_add_data refuses reads (ws i) hdr bytes ≡ x
        → Follows Planned
            (x >>= λ w. laid (set_at ws i w))
            (laid (planner_add_data sha256 s i hdr bytes))
    unfolding planner_add_data
    data_step ws s i hdr bytes p (stopped why) run = tt
    data_step ws s i hdr bytes p (laid w) run = elim (Bool-cases (has_content hdr)) [
      | inl e ↦ rw e (data_stored ws s i hdr bytes p w run e)
      | inr e ↦ rw e (record {
        each =
            set_at_each (SameTasks s.inline) ws s.planners i w (planner_entry (s.planners i) hdr [])
              p.each
              (add_task s.inline (ws i) w (s.planners i) (planner_entry (s.planners i) hdr [])
                (data_task hdr bytes) (p.each i) run
                (entry_with (s.planners i) hdr bytes [] (ground (arith, e)))
                (sym (append-nil (s.planners i).files)) (λ full. cc (full, e)));
        honest = p.honest;
      })
    ]

    -- Where the layers are written, all planners are given the same calls.
    pub plans-Planned :
        (diffs : ImagePackage → List ℕ) (groups : List Group) (headers : Headers)
        (files : List Walked)
        → Follows Planned (split_layers refuses reads diffs groups headers files) (
            partition_layers
              (planner_sinks sha256)
              diffs
              groups
              (length groups + 1)
              (record { planners = λ i. no_planner; inline = [] })
              headers
              files)
    unfolding split_layers get
    plans-Planned diffs groups headers files =
        partition_layers-Alike (tar_sinks refuses reads) (planner_sinks sha256) Planned
          (λ ws s i f hdr p. add_step ws s i f hdr p (tar_add refuses reads (ws i) f hdr) refl)
          (λ ws s i hdr bytes p.
            data_step ws s i hdr bytes p (tar_add_data refuses reads (ws i) hdr bytes) refl)
          diffs groups (length groups + 1) (λ i. fresh_writer)
          (record { planners = λ i. no_planner; inline = [] }) headers files
          (record {
            each = λ i. record { tasks = []; runs = refl; plans = refl; lists = refl; keeps = tt };
            honest = λ d b found. cc found;
          })
