-- ===== src/Layers/Split/Simulation.antt =====
-- partitionLayers of pkg/build/layers.go treats all sinks alike: what two kinds of sinks keep between
-- their states, call by call, is kept by the whole walk.
use apko.Base.{
  ℕ, suc, ◌+◌, ◌≡◌, refl, sym, subst, List, [], ◌∷◌, Option, none, some, ◌==◌, str_eq, length,
  Bool-cases, inl, inr,
}
use apko.Layers.Groups.{ImagePackage, Group}
use apko.Layers.Writer.{Header, Layered, stopped, laid, ◌>>=◌}
use apko.Layers.Split.{
  File, Headers, Walked, walked, walk_fails, LayerSinks, Partitioning, set_at, align_stacks,
  main_stack, add_dir, add_dirs, align_layer, add_records, add_databases, add_file, add_installed,
  layer_of, layer_records, partition_file, partition_walk, partition_layers, installed_db,
}

-- Where the left side goes through, the right side does, and the results are related.
abbrev pub Follows : {A B : Type 0} → (A → B → Type 0) → Layered A → Layered B → Type 0
Follows R (stopped why) y = Unit
Follows R (laid a) (stopped why) = ⊥
Follows R (laid a) (laid b) = R a b

pub Follows-bind :
    {A B C D : Type 0} (R : A → B → Type 0) (Q : C → D → Type 0) (x : Layered A) (y : Layered B)
    (next : A → Layered C) (next' : B → Layered D)
    → Follows R x y
    → ((a : A) (b : B) → R a b → Follows Q (next a) (next' b))
    → Follows Q (x >>= next) (y >>= next')
Follows-bind R Q (stopped why) y next next' h step = tt
Follows-bind R Q (laid a) (stopped why) next next' h step = elim h [ ]
Follows-bind R Q (laid a) (laid b) next next' h step = step a b h

same_first :
    {A C D : Type 0} (Q : C → D → Type 0) (x : Layered A) (next : A → Layered C)
    (next' : A → Layered D)
    → ((a : A) → Follows Q (next a) (next' a))
    → Follows Q (x >>= next) (x >>= next')
same_first Q (stopped why) next next' step = tt
same_first Q (laid a) next next' step = step a

module _ {S T : Type 0} (left : LayerSinks S) (right : LayerSinks T) (R : S → T → Type 0)
    (add_step : (s : S) (t : T) (i : ℕ) (f : File) (hdr : Header)
      → R s t
      → Follows R (left.add s i f hdr) (right.add t i f hdr))
    (data_step : (s : S) (t : T) (i : ℕ) (hdr : Header) (bytes : List ℕ)
      → R s t
      → Follows R (left.add_data s i hdr bytes) (right.add_data t i hdr bytes)) where
  abbrev with_sinks : Partitioning S → T → Partitioning T
  with_sinks s t = record { sinks = t; headers = s.headers; stack = s.stack; stacks = s.stacks }

  -- The same headers and stacks, and related sinks.
  abbrev Alike : Partitioning S → Partitioning T → Type 0
  Alike s s' = (t : T) × R s.sinks t × (s' ≡ with_sinks s t)

  then-Alike :
      (x : Layered (Partitioning S)) (y : Layered (Partitioning T))
      (next : Partitioning S → Layered (Partitioning S))
      (next' : Partitioning T → Layered (Partitioning T))
      → Follows Alike x y
      → ((s : Partitioning S) (t : T)
          → R s.sinks t
          → Follows Alike (next s) (next' (with_sinks s t)))
      → Follows Alike (x >>= next) (y >>= next')
  then-Alike x y next next' h step =
      Follows-bind Alike Alike x y next next' h
        (λ s s' (t, r, e). subst (λ u. Follows Alike (next s) (next' u)) (sym e) (step s t r))

  add_dir-Alike :
      (s : Partitioning S) (t : T)
      → R s.sinks t
      → (i : ℕ) (todo : File) (time : ℕ)
      → Follows Alike (add_dir left s i todo time) (add_dir right (with_sinks s t) i todo time)
  add_dir-Alike s t r i todo time =
      let hdr = record (s.headers todo.address) { mod_time = time } in
      Follows-bind R Alike (left.add s.sinks i todo hdr) (right.add t i todo hdr)
        (λ made. laid (record s { sinks = made; headers = set_at s.headers todo.address hdr }))
        (λ made.
          laid
            (record (with_sinks s t) { sinks = made; headers = set_at s.headers todo.address hdr }))
        (add_step s.sinks t i todo hdr r) (λ a b q. (b, q, refl))

  add_dirs-Alike :
      (s : Partitioning S) (t : T)
      → R s.sinks t
      → (i : ℕ) (todos : List File) (time : ℕ) (skip : Option ℕ)
      → Follows Alike
          (add_dirs left s i todos time skip)
          (add_dirs right (with_sinks s t) i todos time skip)
  unfolding add_dirs
  add_dirs-Alike s t r i [] time skip = (t, r, refl)
  add_dirs-Alike s t r i (todo ∷ todos) time none =
      then-Alike (add_dir left s i todo time) (add_dir right (with_sinks s t) i todo time)
        (λ s'. add_dirs left s' i todos time none) (λ s'. add_dirs right s' i todos time none)
        (add_dir-Alike s t r i todo time) (λ s' t' r'. add_dirs-Alike s' t' r' i todos time none)
  add_dirs-Alike s t r i (todo ∷ todos) time (some f) = elim (Bool-cases (todo.address == f)) [
    | inl e ↦ rw (e, add_dirs) (add_dirs-Alike s t r i todos time (some f))
    | inr e ↦
        rw (e, add_dirs)
          (then-Alike (add_dir left s i todo time) (add_dir right (with_sinks s t) i todo time)
            (λ s'. add_dirs left s' i todos time (some f))
            (λ s'. add_dirs right s' i todos time (some f)) (add_dir-Alike s t r i todo time)
            (λ s' t' r'. add_dirs-Alike s' t' r' i todos time (some f)))
  ]

  align_layer-Alike :
      (s : Partitioning S) (t : T)
      → R s.sinks t
      → (i time : ℕ) (skip : Option ℕ)
      → Follows Alike
          (align_layer left s i time skip)
          (align_layer right (with_sinks s t) i time skip)
  align_layer-Alike s t r i time skip =
      let aligned = align_stacks (s.stacks i) s.stack in
      add_dirs-Alike (record s { stacks = set_at s.stacks i aligned.0 }) t r i aligned.1 time skip

  module _ (diffs : ImagePackage → List ℕ) where
    add_records-Alike :
        (s : Partitioning S) (t : T)
        → R s.sinks t
        → (gi : ℕ) (g : Group) (f : File)
        → Follows Alike
            (add_records left diffs gi g f s)
            (add_records right diffs gi g f (with_sinks s t))
    unfolding add_records
    add_records-Alike s t r gi g f =
        let bytes = layer_records diffs g.pkgs in
        let idb = record (s.headers f.address) { size = length bytes } in
        Follows-bind R Alike (left.add_data s.sinks gi idb bytes) (right.add_data t gi idb bytes)
          (λ made. laid (record s { sinks = made }))
          (λ made. laid (record (with_sinks s t) { sinks = made }))
          (data_step s.sinks t gi idb bytes r) (λ a b q. (b, q, refl))

    add_databases-Alike :
        (s : Partitioning S) (t : T)
        → R s.sinks t
        → (gi : ℕ) (gs : List Group) (f : File)
        → Follows Alike
            (add_databases left diffs gi gs f s)
            (add_databases right diffs gi gs f (with_sinks s t))
    unfolding add_databases
    add_databases-Alike s t r gi [] f = (t, r, refl)
    add_databases-Alike s t r gi (g ∷ gs) f =
        let time = (s.headers f.address).mod_time in
        then-Alike (align_layer left s gi time none)
          (align_layer right (with_sinks s t) gi time none)
          (λ s₁. add_records left diffs gi g f s₁ >>= add_databases left diffs (suc gi) gs f)
          (λ s₁. add_records right diffs gi g f s₁ >>= add_databases right diffs (suc gi) gs f)
          (align_layer-Alike s t r gi time none)
          (λ s₁ t₁ r₁.
            then-Alike (add_records left diffs gi g f s₁)
              (add_records right diffs gi g f (with_sinks s₁ t₁))
              (add_databases left diffs (suc gi) gs f) (add_databases right diffs (suc gi) gs f)
              (add_records-Alike s₁ t₁ r₁ gi g f)
              (λ s₂ t₂ r₂. add_databases-Alike s₂ t₂ r₂ (suc gi) gs f))

    add_file-Alike :
        (s : Partitioning S) (t : T)
        → R s.sinks t
        → (i : ℕ) (f : File)
        → Follows Alike (add_file left i f s) (add_file right i f (with_sinks s t))
    unfolding add_file
    add_file-Alike s t r i f =
        let hdr = s.headers f.address in
        Follows-bind R Alike (left.add s.sinks i f hdr) (right.add t i f hdr)
          (λ made. laid (record s { sinks = made }))
          (λ made. laid (record (with_sinks s t) { sinks = made })) (add_step s.sinks t i f hdr r)
          (λ a b q. (b, q, refl))

    add_installed-Alike :
        (s : Partitioning S) (t : T)
        → R s.sinks t
        → (groups : List Group) (f : File)
        → Follows Alike
            (add_installed left diffs groups f s)
            (add_installed right diffs groups f (with_sinks s t))
    unfolding add_installed
    add_installed-Alike s t r groups f =
        elim (Bool-cases (str_eq (s.headers f.address).name installed_db)) [
          | inl e ↦ rw e (add_databases-Alike s t r 0 groups f)
          | inr e ↦ rw e (t, r, refl)
        ]

    placed-Alike :
        (s : Partitioning S) (t : T)
        → R s.sinks t
        → (groups : List Group) (f : File) (time i : ℕ)
        → Follows Alike
            (align_layer left s i time (some f.address) >>= λ s₂.
              add_file left i f s₂ >>= add_installed left diffs groups f)
            (align_layer right (with_sinks s t) i time (some f.address) >>= λ s₂.
              add_file right i f s₂ >>= add_installed right diffs groups f)
    placed-Alike s t r groups f time i =
        then-Alike (align_layer left s i time (some f.address))
          (align_layer right (with_sinks s t) i time (some f.address))
          (λ s₂. add_file left i f s₂ >>= add_installed left diffs groups f)
          (λ s₂. add_file right i f s₂ >>= add_installed right diffs groups f)
          (align_layer-Alike s t r i time (some f.address))
          (λ s₂ t₂ r₂.
            then-Alike (add_file left i f s₂) (add_file right i f (with_sinks s₂ t₂))
              (add_installed left diffs groups f) (add_installed right diffs groups f)
              (add_file-Alike s₂ t₂ r₂ i f) (λ s₃ t₃ r₃. add_installed-Alike s₃ t₃ r₃ groups f))

    partition_file-Alike :
        (s : Partitioning S) (t : T)
        → R s.sinks t
        → (groups : List Group) (f : File)
        → Follows Alike
            (partition_file left diffs groups s f)
            (partition_file right diffs groups (with_sinks s t) f)
    unfolding partition_file
    partition_file-Alike s t r groups f =
        let hdr = s.headers f.address in
        let s₁ = record s { stack = main_stack s.stack f hdr } in
        same_first Alike (layer_of groups f)
          (λ i. align_layer left s₁ i hdr.mod_time (some f.address) >>= λ s₂.
            add_file left i f s₂ >>= add_installed left diffs groups f)
          (λ i. align_layer right (with_sinks s₁ t) i hdr.mod_time (some f.address) >>= λ s₂.
            add_file right i f s₂ >>= add_installed right diffs groups f)
          (λ i. placed-Alike s₁ t r groups f hdr.mod_time i)

    partition_walk-Alike :
        (s : Partitioning S) (t : T)
        → R s.sinks t
        → (groups : List Group) (files : List Walked)
        → Follows Alike
            (partition_walk left diffs groups s files)
            (partition_walk right diffs groups (with_sinks s t) files)
    unfolding partition_walk
    partition_walk-Alike s t r groups [] = (t, r, refl)
    partition_walk-Alike s t r groups (walk_fails why ∷ files) = tt
    partition_walk-Alike s t r groups (walked f ∷ files) =
        then-Alike (partition_file left diffs groups s f)
          (partition_file right diffs groups (with_sinks s t) f)
          (λ s'. partition_walk left diffs groups s' files)
          (λ s'. partition_walk right diffs groups s' files) (partition_file-Alike s t r groups f)
          (λ s' t' r'. partition_walk-Alike s' t' r' groups files)

    pub partition_layers-Alike :
        (groups : List Group) (count : ℕ) (s : S) (t : T) (headers : Headers) (files : List Walked)
        → R s t
        → Follows R
            (partition_layers left diffs groups count s headers files)
            (partition_layers right diffs groups count t headers files)
    unfolding partition_layers
    partition_layers-Alike groups count s t headers files r =
        elim (Bool-cases (count == length groups + 1)) [
          | inr e ↦ rw e tt
          | inl e ↦
              let start : Partitioning S = record {
                sinks = s;
                headers = headers;
                stack = [];
                stacks = λ i. [];
              } in
              rw e (
                Follows-bind Alike R (partition_walk left diffs groups start files)
                  (partition_walk right diffs groups (with_sinks start t) files)
                  (λ s'. laid s'.sinks) (λ s'. laid s'.sinks)
                  (partition_walk-Alike start t r groups files)
                  (λ s' s'' (t', r', same). subst (λ u. R s'.sinks u.sinks) (sym same) r'))
        ]
