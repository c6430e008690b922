-- ===== src/Samples/Images.antt =====
-- The walk of a small image: directories, the installed database, a file of a package and one of no
-- package, for pkg/build/layers.go and pkg/build/layer_plan.go.
use apko.Base.{
  ltb, Bool-cases, map, subst, if◌then◌else◌, All, All-In, ◌≢◌, ℕ, ◌≡◌, ◌≤◌, refl, sym, ap, ◌∙◌,
  List, [], ◌∷◌, ◌++◌, Option, none, some, Str, codes, length, arith, In, inl, inr,
}
use apko.Layers.Groups.{ImagePackage, set_names}
use apko.Layers.Plan.Digest.{
  plan_version, fields, entry_fields, plan_digest, Short, key, plan_digest_inj,
}
use apko.Layers.Writer.{
  stopped, Layered, writing_header, unencodable, type_reg, type_dir, Header, laid, laid_inj,
  TarWriter, fresh_writer, FileRead, contents, has_content, write_header, write, copy_file,
}
use apko.Layers.Split.{
  File, Headers, Walked, walked, set_at, align_stacks, path_dir_from, pop_to, main_stack,
  package_to_layer, layer_of, layer_records, installed_db, add_dirs, add_records, add_databases,
  add_file, add_installed, partition_file, partition_walk, partition_layers, tar_add, tar_add_data,
  split_layers,
}
use apko.Layers.Split.Chain.{Parented}
use apko.Layers.Split.Parents.Directories.{InOrder}
use apko.Layers.Split.Parents.Written.{entry_names, split_layers-Parented}
use apko.Layers.Split.Stacks.{Part, align_stacks_lem}
use apko.Layers.Plan.{
  ContentDigest, unnamed, PlanEntry, LayerContent, plan_layers, write_entries, file_digest,
  hash_file,
}
use apko.Layers.Plan.Render.{Trusted}
use apko.Layers.Plan.Refines.{split_layers-plan_layers}
use apko.Samples.{program}
use apko.Samples.Layers.{image_groups}

abbrev file_at : ℕ → Str → Option Str → File
file_at address path owner = record { address = address; path = path; owner = owner }

abbrev usr : File
usr = file_at 0 (codes "usr") none

abbrev lib : File
lib = file_at 1 (codes "usr/lib") none

abbrev apk : File
apk = file_at 2 (codes "usr/lib/apk") none

abbrev db : File
db = file_at 3 (codes "usr/lib/apk/db") none

abbrev database_file : File
database_file = file_at 4 installed_db none

abbrev shell_file : File
shell_file = file_at 5 (codes "usr/lib/sh") (some (codes "sh"))

abbrev lone_file : File
lone_file = file_at 6 (codes "usr/x") none

abbrev regular : Str → Header
regular path = record {
  name = path;
  typeflag = type_reg;
  size = length path;
  mod_time = 7;
  attributes = [];
}

abbrev header_of : ℕ → File → Headers → Headers
header_of a f headers = set_at headers a (record (regular f.path) { typeflag = type_dir; size = 0 })

abbrev image_headers : Headers
image_headers = header_of 0 usr (
    header_of 1 lib (
      header_of 2 apk (
        header_of 3 db (
          set_at (set_at (λ a. regular lone_file.path) 4 (regular installed_db)) 5
            (regular shell_file.path)))))

abbrev image_walk : List Walked
image_walk =
    walked usr
    ∷ walked lib
    ∷ walked apk
    ∷ walked db
    ∷ walked database_file
    ∷ walked shell_file
    ∷ walked lone_file
    ∷ []

-- Each file holds its path.
abbrev reads_path : Str → FileRead
reads_path path = contents path

abbrev no_infos : Str → ContentDigest
no_infos path = unnamed

abbrev names_only : ImagePackage → List ℕ
names_only pkg = pkg.name

abbrev same_bytes : List ℕ → Str
same_bytes b = b

content_inj : (a b : List ℕ) → contents a ≡ contents b → a ≡ b
content_inj a b h = cc h

bytes-Trusted : Trusted same_bytes same_bytes reads_path no_infos
unfolding file_digest hash_file
bytes-Trusted = ((λ b. refl), λ path d b h k. sym (laid_inj path d h) ∙ content_inj path b k)

splitting : Unit {0}
unfolding program has_content write_header write copy_file set_at align_stacks path_dir_from pop_to
    main_stack package_to_layer set_names layer_of layer_records add_dirs add_records add_databases
    add_file add_installed partition_file partition_walk partition_layers tar_add tar_add_data
    split_layers
splitting = tt

abbrev written : ℕ → TarWriter
written =
    elim (split_layers (λ hdr. none) reads_path names_only image_groups image_headers image_walk) [
      | stopped why ↦ λ i. fresh_writer
      | laid ws ↦ ws
    ]

splits :
    split_layers (λ hdr. none) reads_path names_only image_groups image_headers image_walk
    ≡ laid written
unfolding splitting
splits = refl

split_layers-plan_layers_example :
    (entries : ℕ → List PlanEntry) × (c : LayerContent) × (plan_layers same_bytes reads_path
        no_infos names_only image_groups image_headers image_walk
      ≡ laid (entries, c))
    × ((i : ℕ)
        → i ≤ length image_groups
        → write_entries reads_path c (λ hdr. none) fresh_writer (entries i) ≡ laid (written i))
split_layers-plan_layers_example =
    split_layers-plan_layers same_bytes reads_path no_infos (λ path why h. cc h) (λ hdr. none)
      same_bytes bytes-Trusted names_only image_groups image_headers image_walk written splits

by_address :
    (w f : File)
    → In w (usr ∷ shell_file ∷ [])
    → In f (usr ∷ lone_file ∷ [])
    → w.address ≡ f.address
    → w ≡ f
by_address w f (inl e) (inl e') h = e ∙ sym e'
by_address w f (inl e) (inr (inl e')) h =
    absurd (omega (arith, sym (ap (λ x. x.address) e) ∙ h ∙ ap (λ x. x.address) e'))
by_address w f (inr (inl e)) (inl e') h =
    absurd (omega (arith, sym (ap (λ x. x.address) e) ∙ h ∙ ap (λ x. x.address) e'))
by_address w f (inr (inl e)) (inr (inl e')) h =
    absurd (omega (arith, sym (ap (λ x. x.address) e) ∙ h ∙ ap (λ x. x.address) e'))
by_address w f (inr (inr i)) j h = elim i [ ]
by_address w f (inl e) (inr (inr j)) h = elim j [ ]
by_address w f (inr (inl e)) (inr (inr j)) h = elim j [ ]

align_stacks_lem_example :
    ((align_stacks (usr ∷ shell_file ∷ []) (usr ∷ lone_file ∷ [])).0 ≡ usr ∷ lone_file ∷ [])
    × ((shared : List File) × (rest : List File) × (usr ∷ shell_file ∷ [] ≡ shared ++ rest)
        × (usr ∷ lone_file ∷ []
            ≡ shared ++ (align_stacks (usr ∷ shell_file ∷ []) (usr ∷ lone_file ∷ [])).1)
        × Part rest (align_stacks (usr ∷ shell_file ∷ []) (usr ∷ lone_file ∷ [])).1)
align_stacks_lem_example =
    align_stacks_lem (usr ∷ shell_file ∷ []) (usr ∷ lone_file ∷ []) by_address

new_file :
    (f : File) (stack : List File)
    → All (λ g. g.address ≢ f.address) stack
    → (g : File) → In g stack
    → g.address ≢ f.address
new_file f stack h g i = All-In (λ x. x.address ≢ f.address) stack g h i

image-InOrder : InOrder image_headers [] image_walk
unfolding splitting
image-InOrder = (
  refl,
  inl refl,
  new_file usr [] tt,
  (
    refl,
    inr (usr, inl refl, refl),
    new_file lib (usr ∷ []) (omega arith, tt),
    (
      refl,
      inr (lib, inr (inl refl), refl),
      new_file apk (usr ∷ lib ∷ []) (omega arith, (omega arith, tt)),
      (
        refl,
        inr (apk, inr (inr (inl refl)), refl),
        new_file db (usr ∷ lib ∷ apk ∷ []) (omega arith, (omega arith, (omega arith, tt))),
        (
          refl,
          inr (db, inr (inr (inr (inl refl))), refl),
          new_file database_file (usr ∷ lib ∷ apk ∷ db ∷ [])
              (omega arith, (omega arith, (omega arith, (omega arith, tt)))),
          (
            refl,
            inr (lib, inr (inl refl), refl),
            new_file shell_file (usr ∷ lib ∷ apk ∷ db ∷ [])
                (omega arith, (omega arith, (omega arith, (omega arith, tt)))),
            (
              refl,
              inr (usr, inl refl, refl),
              new_file lone_file (usr ∷ lib ∷ apk ∷ db ∷ [])
                  (omega arith, (omega arith, (omega arith, (omega arith, tt)))),
              tt,
            ),
          ),
        ),
      ),
    ),
  ),
)

split_layers-Parented_example : Parented (entry_names (written 1).tape)
split_layers-Parented_example =
    split_layers-Parented (λ hdr. none) reads_path names_only image_groups image_headers image_walk
      written image-InOrder splits 1

-- Header blocks that hold a name of less than 512 bytes, and nothing else.
abbrev name_blocks : Header → Layered (List ℕ)
name_blocks hdr =
    if ltb (length hdr.name) 512
    then laid hdr.name
    else stopped (writing_header hdr.name (unencodable []))

name_blocks-Short : (hdr : Header) (b : List ℕ) → name_blocks hdr ≡ laid b → Short b
name_blocks-Short hdr b h = elim (Bool-cases (ltb (length hdr.name) 512)) [
  | inl e ↦
      let same : hdr.name ≡ b = laid_inj hdr.name b (rw e at h) in
      subst Short same (ground (arith, e))
  | inr e ↦ absurd (cc (rw e at h))
]

abbrev shell_plan : ℕ → List PlanEntry
shell_plan time =
    record {
      header = record (regular shell_file.path) { mod_time = time };
      digest = codes "sha256:1";
    }
    ∷ []

hashes :
    plan_digest name_blocks same_bytes (shell_plan 1)
    ≡ laid (fields (plan_version ∷ shell_file.path ∷ codes "sha256:1" ∷ []))
unfolding plan_digest entry_fields
hashes = refl

hashes' :
    plan_digest name_blocks same_bytes (shell_plan 2)
    ≡ laid (fields (plan_version ∷ shell_file.path ∷ codes "sha256:1" ∷ []))
unfolding plan_digest entry_fields
hashes' = refl

plan_digest_inj_example :
    map (key name_blocks) (shell_plan 1) ≡ map (key name_blocks) (shell_plan 2)
plan_digest_inj_example =
    plan_digest_inj name_blocks name_blocks-Short same_bytes (λ a b h. h) (shell_plan 1)
      (shell_plan 2) (fields (plan_version ∷ shell_file.path ∷ codes "sha256:1" ∷ []))
      (omega arith, tt) (omega arith, tt) hashes hashes'
