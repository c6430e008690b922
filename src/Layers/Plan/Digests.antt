-- ===== src/Layers/Plan/Digests.antt =====
-- digestFiles of pkg/build/layer_plan.go: the digests of the planned files, and where they are found.
use apko.Base.{
  ℕ, suc, ◌≡◌, refl, sym, ap, ◌∙◌, subst, List, [], ◌∷◌, ◌++◌, map, some, Str, str_eq, str_eq_refl,
  str_eq_iff, length, length-append, arith, Bool-cases, inl, inr, StrMap, get, put, get-put,
  append_assoc, All, Option-cases,
}
use apko.Layers.Writer.{laid, laid-bind, has_content, FileRead, contents}
use apko.Layers.Plan.{
  ContentDigest, PlanEntry, PlannedFile, get_text, set_digest, assign_entries, add_path,
  assign_paths, file_digest, digest_each,
}
use apko.Layers.Plan.Tasks.{Task, file_task, data_task, entry_of, files_of}

module _ (sha256 : List ℕ → Str) (reads : Str → FileRead) (infos : Str → ContentDigest) where
  -- A path whose file can be read, with its digest.
  abbrev pub Hashes : Str → Str → Type 0
  Hashes path d =
      (file_digest sha256 reads infos path ≡ laid d) × ((b : List ℕ) × (reads path ≡ contents b))

  -- Each path leads to the digest of its file.
  abbrev pub Right : StrMap Str → Type 0
  Right digests = (path d : Str) → get path digests ≡ some d → Hashes path d

  Right-put :
      (digests : StrMap Str) (path d : Str)
      → Right digests
      → Hashes path d
      → Right (put path d digests)
  Right-put digests path d right h path' d' found = elim (Bool-cases (str_eq path path')) [
    | inl e ↦
        let same : d ≡ d' = ground (arith, e, found, get-put path path' d digests) in
        subst (λ x. Hashes x d') ((str_eq_iff path path').0 e) (subst (λ x. Hashes path x) same h)
    | inr e ↦ right path' d' (ground (arith, e, found, get-put path path' d digests))
  ]

  pub digest_each_lem :
      (files : List PlannedFile) (digests : StrMap Str)
      → All (λ f. (d : Str) × Hashes f.file.path d) files
      → Right digests
      → (digests' : StrMap Str) × (digest_each sha256 reads infos files digests ≡ laid digests')
        × Right digests'
        × ((path d : Str) → get path digests ≡ some d → get path digests' ≡ some d)
        × All (λ f. (d : Str) × (get f.file.path digests' ≡ some d)) files
  unfolding digest_each
  digest_each_lem [] digests fine right = (digests, refl, right, (λ path d e. e), tt)
  digest_each_lem (f ∷ fs) digests ((d, h), fine) right =
      elim (Option-cases (get f.file.path digests)) [
        | inr (d', there) ↦
            let (digests', runs, right', kept, all) = digest_each_lem fs digests fine right in
            (
              digests',
              rw (there, digest_each) runs,
              right',
              kept,
              ((d', kept f.file.path d' there), all),
            )
        | inl new ↦
            let here = get-put f.file.path f.file.path d digests in
            let (digests', runs, right', kept, all) =
              digest_each_lem fs (put f.file.path d digests) fine
                (Right-put digests f.file.path d right h) in
            (
              digests',
              rw (new, digest_each)
                  (laid-bind (file_digest sha256 reads infos f.file.path)
                    (λ x. digest_each sha256 reads infos fs (put f.file.path x digests)) d
                    (laid digests') h.0 runs),
              right',
              (λ path d' e. kept path d' (elim (Bool-cases (str_eq f.file.path path)) [
                | inl same ↦ absurd (
                    cc (
                      new,
                      subst (λ x. get x digests ≡ some d')
                          (sym ((str_eq_iff f.file.path path).0 same)) e,
                    ))
                | inr other ↦ ground (arith, other, e, get-put f.file.path path d digests)
              ])),
              ((d, kept f.file.path d (ground (arith, here, str_eq_refl f.file.path))), all),
            )
      ]

-- The digests arrive in the entries of their files.
module _ (sha256 : List ℕ → Str) (digests : StrMap Str) where
  set_digest-append :
      (front : List PlanEntry) (d : Str) (e : PlanEntry) (es : List PlanEntry)
      → set_digest (length front) d (front ++ e ∷ es) ≡ front ++ record e { digest = d } ∷ es
  unfolding set_digest
  set_digest-append [] d e es = refl
  set_digest-append (x ∷ front) d e es = ap (λ l. x ∷ l) (set_digest-append front d e es)

  abbrev blank : Task → PlanEntry
  blank = entry_of sha256 (λ path. [])

  abbrev pub final : Task → PlanEntry
  final = entry_of sha256 (λ path. get_text path digests)

  -- The files behind an entry leave it as it is.
  assign_behind :
      (front : List PlanEntry) (x : PlanEntry) (fs : List PlannedFile) (es es' : List PlanEntry)
      → assign_entries digests fs ((front ++ x ∷ []) ++ es) ≡ (front ++ x ∷ []) ++ es'
      → assign_entries digests fs (front ++ x ∷ es) ≡ front ++ x ∷ es'
  assign_behind front x fs es es' h =
      ap (λ l. assign_entries digests fs l) (sym (append_assoc front (x ∷ []) es))
      ∙ h
      ∙ append_assoc front (x ∷ []) es'

  assign_from :
      (front : List PlanEntry) (n : ℕ) (ts : List Task)
      → n ≡ length front
      → assign_entries digests (files_of n ts) (front ++ map blank ts) ≡ front ++ map final ts
  unfolding assign_entries
  assign_from front n [] e = refl
  assign_from front n (data_task hdr bytes ∷ ts) e =
      let x = blank (data_task hdr bytes) in
      assign_behind front x (files_of (suc n) ts) (map blank ts) (map final ts)
        (assign_from (front ++ x ∷ []) (suc n) ts (omega (arith, e, length-append front (x ∷ []))))
  assign_from front n (file_task f hdr ∷ ts) e = elim (Bool-cases (has_content hdr)) [
    | inl full ↦
        let x : PlanEntry = record { header = hdr; digest = get_text f.path digests } in
        rw full (
          ap
            (λ i. assign_entries digests (files_of (suc n) ts) (
              set_digest i (get_text f.path digests)
                (front ++ record { header = hdr; digest = [] } ∷ map blank ts)))
            e
          ∙ ap (λ l. assign_entries digests (files_of (suc n) ts) l)
              (set_digest-append front (get_text f.path digests)
                (record { header = hdr; digest = [] }) (map blank ts))
          ∙ assign_behind front x (files_of (suc n) ts) (map blank ts) (map final ts) (
              assign_from (front ++ x ∷ []) (suc n) ts
                (omega (arith, e, length-append front (x ∷ [])))))
    | inr empty ↦
        let x : PlanEntry = record { header = hdr; digest = [] } in
        rw empty (
          assign_behind front x (files_of (suc n) ts) (map blank ts) (map final ts) (
            assign_from (front ++ x ∷ []) (suc n) ts
              (omega (arith, e, length-append front (x ∷ [])))))
  ]

  pub assign_entries_lem :
      (ts : List Task) → assign_entries digests (files_of 0 ts) (map blank ts) ≡ map final ts
  assign_entries_lem ts = assign_from [] 0 ts refl

pub got :
    (digests : StrMap Str) (path d : Str) → get path digests ≡ some d → get_text path digests ≡ d
unfolding get_text
got digests path d e = rw (e, get_text) refl

-- The paths of the digests.
module _ (digests : StrMap Str) where
  -- Each digest leads to a path that has it.
  abbrev pub Leads : StrMap Str → Type 0
  Leads paths = (d path : Str) → get d paths ≡ some path → get path digests ≡ some d

  -- Every path that is known stays known.
  abbrev pub Found : StrMap Str → StrMap Str → Type 0
  Found paths paths' =
      (d : Str)
      → (path : Str) × (get d paths ≡ some path)
      → (path : Str) × (get d paths' ≡ some path)

  add_path_lem :
      (path d : Str) (paths : StrMap Str)
      → get path digests ≡ some d
      → Leads paths
      → Leads (add_path d path paths)
        × Found paths (add_path d path paths)
        × ((p : Str) × (get d (add_path d path paths) ≡ some p))
  unfolding add_path
  add_path_lem path d paths there leads = elim (Option-cases (get d paths)) [
    | inr (p, e) ↦ rw (e, add_path) (leads, (λ d' h. h), (p, e))
    | inl e ↦
        let own = get-put d d path paths in
        rw (e, add_path)
          (
            (λ d' p h. elim (Bool-cases (str_eq d d')) [
              | inl same ↦
                  let here : path ≡ p = ground (arith, same, h, get-put d d' path paths) in
                  subst (λ x. get x digests ≡ some d') here
                    (subst (λ x. get path digests ≡ some x) ((str_eq_iff d d').0 same) there)
              | inr other ↦ leads d' p (ground (arith, other, h, get-put d d' path paths))
            ]),
            (λ d' (p, h). elim (Bool-cases (str_eq d d')) [
              | inl same ↦ (path, ground (arith, same, get-put d d' path paths))
              | inr other ↦ (p, ground (arith, other, h, get-put d d' path paths))
            ]),
            (path, ground (arith, own, str_eq_refl d)),
          )
  ]

  pub assign_paths_lem :
      (files : List PlannedFile) (paths : StrMap Str)
      → All (λ f. (d : Str) × (get f.file.path digests ≡ some d)) files
      → Leads paths
      → Leads (assign_paths digests files paths)
        × Found paths (assign_paths digests files paths)
        × All
            (λ f.
              (path : Str) × (get (get_text f.file.path digests) (assign_paths digests files paths)
                ≡ some path))
            files
  unfolding assign_paths
  assign_paths_lem [] paths has leads = (leads, (λ d e. e), tt)
  assign_paths_lem (f ∷ fs) paths ((d, there), has) leads =
      let text : get_text f.file.path digests ≡ d = got digests f.file.path d there in
      let here = subst (λ x. get f.file.path digests ≡ some x) (sym text) there in
      let (leads', found, (p, e)) =
        add_path_lem f.file.path (get_text f.file.path digests) paths here leads in
      let (leads'', found', all) =
        assign_paths_lem fs (add_path (get_text f.file.path digests) f.file.path paths) has
          leads' in
      (
        leads'',
        (λ d' h. found' d' (found d' h)),
        (found' (get_text f.file.path digests) (p, e), all),
      )
