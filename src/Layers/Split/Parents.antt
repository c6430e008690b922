-- ===== src/Layers/Split/Parents.antt =====
-- In every layer that pkg/build/layers.go writes, the entry of a file follows the entry of its
-- directory: the names of the entries, and the invariant of the walk.
pub mod Aligning
pub mod Directories
pub mod Written
use apko.Base.{
  ℕ, suc, ◌+◌, ◌≡◌, ◌≢◌, refl, sym, ap, ◌∙◌, subst, ◌⊎◌, inl, inr, Bool, true, false, List, [], ◌∷◌,
  ◌++◌, ◌==◌, Option, none, some, Str, str_eq, str_eq_iff, In, arith, Bool-cases, All, All-In,
  if◌then◌else◌,
}
use apko.Layers.Writer.{Header, Layered, stopped, laid, ◌>>=◌}
use apko.Layers.Split.{File, Headers, LayerSinks, Partitioning, set_at, add_dir, add_dirs, path_dir}
use apko.Layers.Split.Chain.{root, Under, Under-mono, Parented, Chained, OnlyLast, Named}

-- Sinks that keep the names of the entries, newest first.
abbrev pub push_name : (ℕ → List Str) → ℕ → Str → ℕ → List Str
push_name names i name = set_at names i (name ∷ names i)

abbrev pub name_sinks : LayerSinks (ℕ → List Str)
name_sinks = record {
  add = λ names i f hdr. laid (push_name names i hdr.name);
  add_data = λ names i hdr bytes. laid (push_name names i hdr.name);
}

abbrev pub Ends : {A : Type 0} → (A → Type 0) → Layered A → Type 0
Ends P (stopped why) = Unit
Ends P (laid a) = P a

pub Ends-bind :
    {A B : Type 0} (P : A → Type 0) (Q : B → Type 0) (x : Layered A) (next : A → Layered B)
    → Ends P x
    → ((a : A) → P a → Ends Q (next a))
    → Ends Q (x >>= next)
Ends-bind P Q (stopped why) next h step = tt
Ends-bind P Q (laid a) next h step = step a h

pub Ends-mono :
    {A : Type 0} (P Q : A → Type 0) (x : Layered A) → ((a : A) → P a → Q a) → Ends P x → Ends Q x
Ends-mono P Q (stopped why) step h = tt
Ends-mono P Q (laid a) step h = step a h

module _ (names : ℕ → List Str) (i : ℕ) (name : Str) where
  pub pushed : In name (push_name names i name i)
  unfolding set_at
  pushed = ground arith

  pub push_more : (j : ℕ) (p : Str) → In p (names j) → In p (push_name names i name j)
  unfolding set_at
  push_more j p h = elim (Bool-cases (i == j)) [
    | inl e ↦
        let same : i ≡ j = ground (arith, e) in
        rw e (inr (subst (λ x. In p (names x)) (sym same) h))
    | inr e ↦ rw e h
  ]

  pub push_Parented :
      Under (names i) name
      → ((j : ℕ) → Parented (names j))
      → (j : ℕ) → Parented (push_name names i name j)
  unfolding set_at
  push_Parented under all j = elim (Bool-cases (i == j)) [
    | inl e ↦ rw e (under, all i)
    | inr e ↦ rw e (all j)
  ]

-- The names and kinds of the headers are those of the beginning.
abbrev pub SameNames : Headers → Headers → Type 0
SameNames first headers =
    (a : ℕ) → ((headers a).name ≡ (first a).name) × ((headers a).typeflag ≡ (first a).typeflag)

SameNames-set_at :
    (first headers : Headers) (a time : ℕ)
    → SameNames first headers
    → SameNames first (set_at headers a (record (headers a) { mod_time = time }))
unfolding set_at
SameNames-set_at first headers a time same b = elim (Bool-cases (a == b)) [
  | inl e ↦
      let here : a ≡ b = ground (arith, e) in
      rw e (
        subst
          (λ x. ((headers a).name ≡ (first x).name) × ((headers a).typeflag ≡ (first x).typeflag))
          here (same a))
  | inr e ↦ rw e (same b)
]

abbrev pub Skips : Option ℕ → List File → Type 0
Skips none fs = Unit
Skips (some a) fs = OnlyLast a fs

abbrev pub Taken : Option ℕ → File → Type 0
Taken none g = Unit
Taken (some a) g = g.address ≢ a

module _ (first : Headers) where
  -- What the directories that are added to a layer leave.
  pub record Added (s : Partitioning (ℕ → List Str)) (i : ℕ) (todos : List File) (skip : Option ℕ)
      (s' : Partitioning (ℕ → List Str)) : Type 0 where
    pub stack : s'.stack ≡ s.stack
    pub stacks : s'.stacks ≡ s.stacks
    pub same : SameNames first s'.headers
    pub parented : (j : ℕ) → Parented (s'.sinks j)
    pub more : (j : ℕ) (p : Str) → In p (s.sinks j) → In p (s'.sinks j)
    pub added : (g : File) → In g todos → Taken skip g → In g.path (s'.sinks i)

  module _ (s : Partitioning (ℕ → List Str)) (i : ℕ) (todo : File) (time : ℕ)
      (same : SameNames first s.headers) (parented : (j : ℕ) → Parented (s.sinks j))
      (name : Named first todo) where
    abbrev pushed_dir : Partitioning (ℕ → List Str)
    pushed_dir = record s {
      sinks = push_name s.sinks i (s.headers todo.address).name;
      headers = set_at s.headers todo.address (record (s.headers todo.address) { mod_time = time });
    }

    own_name : (s.headers todo.address).name ≡ todo.path
    own_name = (same todo.address).0 ∙ name

    Added-push :
        (todos : List File) (skip : Option ℕ) (s' : Partitioning (ℕ → List Str))
        → Added pushed_dir i todos skip s'
        → Added s i (todo ∷ todos) skip s'
    Added-push todos skip s' h = record {
      stack = h.stack;
      stacks = h.stacks;
      same = h.same;
      parented = h.parented;
      more = λ j p k. h.more j p (push_more s.sinks i (s.headers todo.address).name j p k);
      added = λ g k t. elim k [
        | inl e ↦
            let here =
              h.more i (s.headers todo.address).name
                (pushed s.sinks i (s.headers todo.address).name) in
            subst (λ x. In x (s'.sinks i)) (own_name ∙ sym (ap (λ x. x.path) e)) here
        | inr j ↦ h.added g j t
      ];
    }

  -- One directory is added, and the others follow it.
  add_one :
      (s : Partitioning (ℕ → List Str)) (i : ℕ) (todo : File) (todos : List File) (time : ℕ)
      (skip : Option ℕ) (before : List Str)
      → SameNames first s.headers
      → ((j : ℕ) → Parented (s.sinks j))
      → Under before todo.path
      → ((p : Str) → In p before → In p (s.sinks i))
      → Named first todo
      → ((s' : Partitioning (ℕ → List Str))
          → SameNames first s'.headers
          → ((j : ℕ) → Parented (s'.sinks j))
          → ((p : Str) → In p (todo.path ∷ before) → In p (s'.sinks i))
          → Ends (Added s' i todos skip) (add_dirs name_sinks s' i todos time skip))
      → Ends
          (Added s i (todo ∷ todos) skip)
          (add_dir name_sinks s i todo time >>= λ s'. add_dirs name_sinks s' i todos time skip)
  add_one s i todo todos time skip before same parented u known n rest =
      let name = (s.headers todo.address).name in
      let own = own_name s i todo time same parented n in
      let s' = pushed_dir s i todo time same parented n in
      let under : Under (s.sinks i) name =
        subst (λ x. Under (s.sinks i) x) (sym own)
          (Under-mono before (s.sinks i) todo.path known u) in
      Ends-mono (Added s' i todos skip) (Added s i (todo ∷ todos) skip)
        (add_dirs name_sinks s' i todos time skip)
        (Added-push s i todo time same parented n todos skip)
        (rest s' (SameNames-set_at first s.headers todo.address time same)
          (push_Parented s.sinks i name under parented)
          (λ p k. elim k [
            | inl e ↦ subst (λ x. In x (s'.sinks i)) (own ∙ sym e) (pushed s.sinks i name)
            | inr j ↦ push_more s.sinks i name i p (known p j)
          ]))

  pub add_dirs_lem :
      (s : Partitioning (ℕ → List Str)) (i : ℕ) (todos : List File) (time : ℕ) (skip : Option ℕ)
      (before : List Str)
      → SameNames first s.headers
      → ((j : ℕ) → Parented (s.sinks j))
      → Chained before todos
      → ((p : Str) → In p before → In p (s.sinks i))
      → All (Named first) todos
      → Skips skip todos
      → Ends (Added s i todos skip) (add_dirs name_sinks s i todos time skip)
  unfolding add_dirs
  add_dirs_lem s i [] time skip before same parented chain known names skips = record {
    stack = refl;
    stacks = refl;
    same = same;
    parented = parented;
    more = λ j p k. k;
    added = λ g k t. elim k [ ];
  }
  add_dirs_lem s i (todo ∷ todos) time none before same parented (u, chain) known (n, names) skips =
      add_one s i todo todos time none before same parented u known n (λ s' same' parented' known'.
        add_dirs_lem s' i todos time none (todo.path ∷ before) same' parented' chain known' names
          tt)
  add_dirs_lem s i (todo ∷ []) time (some a) before same parented (u, chain) known (n, names)
        skips =
      elim (Bool-cases (todo.address == a)) [
        | inr e ↦
            rw (e, add_dirs)
              (add_one s i todo [] time (some a) before same parented u known n
                (λ s' same' parented' known'.
                  add_dirs_lem s' i [] time (some a) (todo.path ∷ before) same' parented' tt known'
                    tt tt))
        | inl e ↦
            rw (e, add_dirs)
              (record {
                stack = refl;
                stacks = refl;
                same = same;
                parented = parented;
                more = λ j p k. k;
                added = λ g k t. elim k [
                  | inl here ↦ absurd (t (ap (λ x. x.address) here ∙ ground (arith, e)))
                  | inr j ↦ elim j [ ]
                ];
              })
      ]
  add_dirs_lem s i (todo ∷ g ∷ todos) time (some a) before same parented (u, chain) known (n, names)
        (other, skips) =
      let e : (todo.address == a) ≡ false = ground (arith, other) in
      rw (e, add_dirs)
        (add_one s i todo (g ∷ todos) time (some a) before same parented u known n
          (λ s' same' parented' known'.
            add_dirs_lem s' i (g ∷ todos) time (some a) (todo.path ∷ before) same' parented' chain
              known' names skips))
