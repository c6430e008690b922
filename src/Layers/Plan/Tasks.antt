-- ===== src/Layers/Plan/Tasks.antt =====
-- What one layer is given, in order: the calls of its sink in pkg/build/layers.go. The writing of a
-- tar file and the plan of pkg/build/layer_plan.go are both functions of it.
use apko.Base.{
  ℕ, suc, ◌+◌, ◌≡◌, refl, sym, ap, ◌∙◌, subst, List, [], ◌∷◌, ◌++◌, Option, if◌then◌else◌, Str,
  length, arith, append_assoc, append-nil,
}
use apko.Layers.Writer.{
  Header, Layered, laid, ◌>>=◌, TarWriter, has_content, FileRead, bind-laid, laid-bind, laid_inj,
}
use apko.Layers.Split.{File, tar_add, tar_add_data}
use apko.Layers.Plan.{PlanEntry, PlannedFile}

pub data Task : Type 0 where
  file_task : File → Header → Task
  data_task : Header → List ℕ → Task

module _ (refuses : Header → Option Str) (reads : Str → FileRead) where
  abbrev pub run_task : TarWriter → Task → Layered TarWriter
  run_task w (file_task f hdr) = tar_add refuses reads w f hdr
  run_task w (data_task hdr bytes) = tar_add_data refuses reads w hdr bytes

  abbrev pub run_tasks : TarWriter → List Task → Layered TarWriter
  run_tasks w [] = laid w
  run_tasks w (t ∷ ts) = run_task w t >>= λ w'. run_tasks w' ts

  pub run_tasks_snoc :
      (w w' w'' : TarWriter) (ts : List Task) (t : Task)
      → run_tasks w ts ≡ laid w'
      → run_task w' t ≡ laid w''
      → run_tasks w (ts ++ t ∷ []) ≡ laid w''
  run_tasks_snoc w w' w'' [] t h e =
      laid-bind (run_task w t) (λ v. laid v) w'' (laid w'')
        (subst (λ v. run_task v t ≡ laid w'') (sym (laid_inj w w' h)) e) refl
  run_tasks_snoc w w' w'' (u ∷ ts) t h e =
      let (v, first, rest) = bind-laid (run_task w u) (λ x. run_tasks x ts) w' h in
      laid-bind (run_task w u) (λ x. run_tasks x (ts ++ t ∷ [])) v (laid w'') first
        (run_tasks_snoc v w' w'' ts t rest e)

module _ (sha256 : List ℕ → Str) where
  -- The entry of a task, where the digest of a file is not known yet.
  abbrev pub entry_of : (Str → Str) → Task → PlanEntry
  entry_of digest (file_task f hdr) = record {
    header = hdr;
    digest = if has_content hdr then digest f.path else [];
  }
  entry_of digest (data_task hdr bytes) = record {
    header = hdr;
    digest = if has_content hdr then sha256 bytes else [];
  }

abbrev pub file_of : ℕ → Task → List PlannedFile
file_of n (file_task f hdr) = if has_content hdr then record { index = n; file = f } ∷ [] else []
file_of n (data_task hdr bytes) = []

abbrev pub files_of : ℕ → List Task → List PlannedFile
files_of n [] = []
files_of n (t ∷ ts) = file_of n t ++ files_of (suc n) ts

pub files_of_snoc :
    (n : ℕ) (ts : List Task) (t : Task)
    → files_of n (ts ++ t ∷ []) ≡ files_of n ts ++ file_of (length ts + n) t
files_of_snoc n [] t =
    let same : n ≡ 0 + n = omega arith in append-nil (file_of n t) ∙ ap (λ m. file_of m t) same
files_of_snoc n (u ∷ ts) t =
    let next : length ts + suc n ≡ suc (length ts) + n = omega arith in
    ap (λ l. file_of n u ++ l) (files_of_snoc (suc n) ts t)
    ∙ sym (append_assoc (file_of n u) (files_of (suc n) ts) (file_of (length ts + suc n) t))
    ∙ ap (λ m. (file_of n u ++ files_of (suc n) ts) ++ file_of m t) next
