-- ===== src/Layers/Plan/Render.antt =====
-- The layers that pkg/build/layer_plan.go renders from its plans, and those that pkg/build/layers.go
-- writes.
use apko.Base.{
  ℕ, ◌≡◌, refl, sym, ap, ◌∙◌, subst, true, false, List, [], ◌∷◌, map, Option, some, if◌then◌else◌,
  Str, arith, Bool-cases, inl, inr, StrMap, get, All, Option-cases,
}
use apko.Layers.Writer.{
  Header, laid, laid-bind, bind-laid, copy_contents, TarWriter, has_content, is_regular,
  write_header, write, FileRead, contents,
}
use apko.Layers.Split.Calls.{tar_add_cases, tar_add_data_parts}
use apko.Layers.Plan.{
  ContentDigest, LayerContent, get_text, open_content, file_digest, write_entry, write_entries,
}
use apko.Layers.Plan.Tasks.{Task, file_task, data_task, run_task, run_tasks}
use apko.Layers.Plan.Digests.{Right, Leads, final, got}

header_due :
    (refuses : Header → Option Str) (w w' : TarWriter) (hdr : Header)
    → write_header refuses w hdr ≡ laid w'
    → w'.due ≡ (if is_regular hdr.typeflag then hdr.size else 0)
unfolding write_header
header_due refuses w w' hdr h = ground arith

-- No data is due behind the header of an entry without content.
nothing_due :
    (refuses : Header → Option Str) (w w' w'' : TarWriter) (hdr : Header) (b : List ℕ)
    → write_header refuses w hdr ≡ laid w'
    → has_content hdr ≡ false
    → write w' b ≡ some w''
    → w' ≡ w''
unfolding write_header has_content write
nothing_due refuses w w' w'' hdr [] h e k = cc k
nothing_due refuses w w' w'' hdr (x ∷ b) h e k =
    absurd (ground (arith, header_due refuses w w' hdr h))

module _ (sha256 : List ℕ → Str) (meaning : Str → List ℕ) where
  -- The digests identify the contents: the hash does not collide, and what names the file at a path
  -- leads to what is read there.
  abbrev pub Trusted : (Str → FileRead) → (Str → ContentDigest) → Type 0
  Trusted reads infos =
      ((b : List ℕ) → meaning (sha256 b) ≡ b)
      × ((path d : Str) (b : List ℕ)
          → file_digest sha256 reads infos path ≡ laid d
          → reads path ≡ contents b
          → meaning d ≡ b)

  module _ (refuses : Header → Option Str) (reads : Str → FileRead) (infos : Str → ContentDigest)
      (trusted : Trusted reads infos) (c : LayerContent)
      (honest : (d : Str) (b : List ℕ) → get d c.inline ≡ some b → sha256 b ≡ d)
      (digests : StrMap Str) (right : Right sha256 reads infos digests)
      (leads : Leads digests c.paths) where
    -- The content of a digest is found, among the data or in a file.
    opened :
        (d : Str)
        → ((p : Str) × (get d c.paths ≡ some p))
        → (name : Str) × (open_content reads c d ≡ laid (name, contents (meaning d)))
    unfolding open_content
    opened d (p, there) = elim (Option-cases (get d c.inline)) [
      | inr (b, e) ↦
          let same : b ≡ meaning d = sym (trusted.0 b) ∙ ap meaning (honest d b e) in
          (d, rw (e, open_content) (ap (λ x. laid (d, contents x)) same))
      | inl e ↦
          let (hash, (b, read)) = right p d (leads d p there) in
          let same : b ≡ meaning d = sym (trusted.1 p d b hash read) in
          (
            p,
            rw (e, there, open_content) (ap (λ x. laid (p, x)) (read ∙ ap (λ x. contents x) same)),
          )
    ]

    -- What is kept for a task: the digest of its file, or its data.
    abbrev pub Ready : Task → Type 0
    Ready (file_task f hdr) =
        has_content hdr ≡ true
        → ((d : Str) × (get f.path digests ≡ some d))
          × ((p : Str) × (get (get_text f.path digests) c.paths ≡ some p))
    Ready (data_task hdr bytes) =
        has_content hdr ≡ true → (b : List ℕ) × (get (sha256 bytes) c.inline ≡ some b)

    entry_skipped :
        (w w₁ : TarWriter) (hdr : Header) (d : Str)
        → write_header refuses w hdr ≡ laid w₁
        → has_content hdr ≡ false
        → write_entry reads c refuses w (record { header = hdr; digest = d }) ≡ laid w₁
    entry_skipped w w₁ hdr d h e = rw (h, e) refl

    entry_copied :
        (w w₁ w' : TarWriter) (hdr : Header) (d name : Str) (b : List ℕ)
        → write_header refuses w hdr ≡ laid w₁
        → has_content hdr ≡ true
        → open_content reads c d ≡ laid (name, contents b)
        → write w₁ b ≡ some w'
        → write_entry reads c refuses w (record { header = hdr; digest = d }) ≡ laid w'
    entry_copied w w₁ w' hdr d name b h e there wrote =
        rw (h, e, there) (copy_contents w₁ w' name hdr.name b wrote)

    inline_opened :
        (d : Str) (b : List ℕ)
        → get d c.inline ≡ some b
        → open_content reads c d ≡ laid (d, contents b)
    unfolding open_content
    inline_opened d b e = rw (e, open_content) refl

    write_task :
        (w w' : TarWriter) (t : Task)
        → Ready t
        → run_task refuses reads w t ≡ laid w'
        → write_entry reads c refuses w (final sha256 digests t) ≡ laid w'
    write_task w w' (file_task f hdr) ready h = elim (tar_add_cases refuses reads w w' f hdr h) [
      | inl (e, first) ↦
          entry_skipped w w' hdr (final sha256 digests (file_task f hdr)).digest first e
      | inr (e, w₁, first, b, read, wrote) ↦
          let ((d, known), found) = ready e in
          let text = got digests f.path d known in
          let same : meaning (get_text f.path digests) ≡ b =
            ap meaning text ∙ trusted.1 f.path d b (right f.path d known).0 read in
          let (name, there) = opened (get_text f.path digests) found in
          subst
            (λ x.
              write_entry reads c refuses w
                (record { header = hdr; digest = if x then get_text f.path digests else [] })
              ≡ laid w')
            (sym e)
            (entry_copied w w₁ w' hdr (get_text f.path digests) name b first e
              (subst (λ x. open_content reads c (get_text f.path digests) ≡ laid (name, contents x))
                same there)
              wrote)
    ]
    write_task w w' (data_task hdr bytes) ready h =
        let (w₁, first, wrote) = tar_add_data_parts refuses reads w w' hdr bytes h in
        elim (Bool-cases (has_content hdr)) [
          | inr e ↦
              entry_skipped w w₁ hdr (final sha256 digests (data_task hdr bytes)).digest first e
              ∙ ap (λ v. laid v) (nothing_due refuses w w₁ w' hdr bytes first e wrote)
          | inl e ↦
              let (b, there) = ready e in
              let same : b ≡ bytes =
                sym (trusted.0 b) ∙ ap meaning (honest (sha256 bytes) b there) ∙ trusted.0 bytes in
              subst
                (λ x.
                  write_entry reads c refuses w
                    (record { header = hdr; digest = if x then sha256 bytes else [] })
                  ≡ laid w')
                (sym e)
                (entry_copied w w₁ w' hdr (sha256 bytes) (sha256 bytes) bytes first e
                  (inline_opened (sha256 bytes) bytes (there ∙ ap (λ x. some x) same)) wrote)
        ]

    pub write_entries-run_tasks :
        (w w' : TarWriter) (ts : List Task)
        → All Ready ts
        → run_tasks refuses reads w ts ≡ laid w'
        → write_entries reads c refuses w (map (final sha256 digests) ts) ≡ laid w'
    unfolding write_entries
    write_entries-run_tasks w w' [] ready h = h
    write_entries-run_tasks w w' (t ∷ ts) (r, ready) h =
        let (w₁, first, rest) =
          bind-laid (run_task refuses reads w t) (λ v. run_tasks refuses reads v ts) w' h in
        laid-bind (write_entry reads c refuses w (final sha256 digests t))
          (λ v. write_entries reads c refuses v (map (final sha256 digests) ts)) w₁ (laid w')
          (write_task w w₁ t r first) (write_entries-run_tasks w₁ w' ts ready rest)
