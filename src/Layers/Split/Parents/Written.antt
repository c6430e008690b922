-- ===== src/Layers/Split/Parents/Written.antt =====
-- The entries of the tar files that pkg/build/layers.go writes: each follows its directory.
use apko.Base.{
  ℕ, ◌≡◌, refl, sym, ap, ◌∙◌, subst, List, [], ◌∷◌, Option, some, Str, inl, inr, Bool-cases, arith,
  length, ◌+◌, ◌==◌,
}
use apko.Layers.Groups.{ImagePackage, Group}
use apko.Layers.Writer.{
  Header, Layered, stopped, laid, ◌>>=◌, laid_inj, TarWriter, fresh_writer, Piece, header_piece,
  data_piece, write_header, write, FileRead,
}
use apko.Layers.Split.{
  File, Headers, Walked, set_at, tar_add, tar_add_data, tar_sinks, split_layers, partition_layers,
}
use apko.Layers.Split.Calls.{tar_add_cases, tar_add_data_parts}
use apko.Layers.Split.Simulation.{Follows, partition_layers-Alike}
use apko.Layers.Split.Chain.{Parented}
use apko.Layers.Split.Parents.{name_sinks, push_name, Ends}
use apko.Layers.Split.Parents.Directories.{InOrder, partition_layers-Parented}

-- The names of the entries of a tar file, newest first.
abbrev pub entry_names : List Piece → List Str
entry_names [] = []
entry_names (header_piece hdr ∷ tape) = hdr.name ∷ entry_names tape
entry_names (data_piece bytes ∷ tape) = entry_names tape

names-write_header :
    (refuses : Header → Option Str) (w w' : TarWriter) (hdr : Header)
    → write_header refuses w hdr ≡ laid w'
    → entry_names w'.tape ≡ hdr.name ∷ entry_names w.tape
unfolding write_header
names-write_header refuses w w' hdr h = ground arith

names-write :
    (w w' : TarWriter) (b : List ℕ) → write w b ≡ some w' → entry_names w'.tape ≡ entry_names w.tape
unfolding write
names-write w w' [] h = ground arith
names-write w w' (x ∷ b) h = ground arith

names-tar_add :
    (refuses : Header → Option Str) (reads : Str → FileRead) (w w' : TarWriter) (f : File)
    (hdr : Header)
    → tar_add refuses reads w f hdr ≡ laid w'
    → entry_names w'.tape ≡ hdr.name ∷ entry_names w.tape
names-tar_add refuses reads w w' f hdr h = elim (tar_add_cases refuses reads w w' f hdr h) [
  | inl (_, first) ↦ names-write_header refuses w w' hdr first
  | inr (_, w₁, first, b, _, wrote) ↦
      names-write w₁ w' b wrote ∙ names-write_header refuses w w₁ hdr first
]

names-tar_add_data :
    (refuses : Header → Option Str) (reads : Str → FileRead) (w w' : TarWriter) (hdr : Header)
    (bytes : List ℕ)
    → tar_add_data refuses reads w hdr bytes ≡ laid w'
    → entry_names w'.tape ≡ hdr.name ∷ entry_names w.tape
names-tar_add_data refuses reads w w' hdr bytes h =
    let (w₁, first, wrote) = tar_add_data_parts refuses reads w w' hdr bytes h in
    names-write w₁ w' bytes wrote ∙ names-write_header refuses w w₁ hdr first

-- The names that the name sinks keep are those of the tar files.
abbrev SameEntries : (ℕ → TarWriter) → (ℕ → List Str) → Type 0
SameEntries ws names = (i : ℕ) → entry_names (ws i).tape ≡ names i

same_pushed :
    (ws : ℕ → TarWriter) (names : ℕ → List Str) (i : ℕ) (w : TarWriter) (name : Str)
    → SameEntries ws names
    → entry_names w.tape ≡ name ∷ entry_names (ws i).tape
    → SameEntries (set_at ws i w) (push_name names i name)
unfolding set_at
same_pushed ws names i w name same e j = elim (Bool-cases (i == j)) [
  | inl here ↦ rw here (e ∙ ap (λ l. name ∷ l) (same i))
  | inr other ↦ rw other (same j)
]

followed_push :
    (ws : ℕ → TarWriter) (names : ℕ → List Str) (i : ℕ) (name : Str) (x : Layered TarWriter)
    → SameEntries ws names
    → ((w : TarWriter) → x ≡ laid w → entry_names w.tape ≡ name ∷ entry_names (ws i).tape)
    → Follows SameEntries (x >>= λ w. laid (set_at ws i w)) (laid (push_name names i name))
followed_push ws names i name (stopped why) same step = tt
followed_push ws names i name (laid w) same step = same_pushed ws names i w name same (step w refl)

Follows-Parented :
    (names : Layered (ℕ → List Str)) (ws : ℕ → TarWriter) (i : ℕ) (x : Layered (ℕ → TarWriter))
    → Follows SameEntries x names
    → x ≡ laid ws
    → Ends (λ ns. (j : ℕ) → Parented (ns j)) names
    → Parented (entry_names (ws i).tape)
Follows-Parented names ws i (stopped why) same h sound = absurd (cc h)
Follows-Parented (stopped why) ws i (laid vs) same h sound = elim same [ ]
Follows-Parented (laid ns) ws i (laid vs) same h sound =
    let here : vs ≡ ws = laid_inj vs ws h in
    subst (λ x. Parented (entry_names (x i).tape)) here
      (subst (λ l. Parented l) (sym (same i)) (sound i))

-- Where each file of the walk follows its directory, then in every layer that is written the entry of
-- a file or of a directory follows an entry for the directory that it lies in.
pub split_layers-Parented :
    (refuses : Header → Option Str) (reads : Str → FileRead) (diffs : ImagePackage → List ℕ)
    (groups : List Group) (headers : Headers) (files : List Walked) (ws : ℕ → TarWriter)
    → InOrder headers [] files
    → split_layers refuses reads diffs groups headers files ≡ laid ws
    → (i : ℕ) → Parented (entry_names (ws i).tape)
unfolding split_layers
split_layers-Parented refuses reads diffs groups headers files ws order h i =
    let names =
      partition_layers name_sinks diffs groups (length groups + 1) (λ j. []) headers files in
    let same =
      partition_layers-Alike (tar_sinks refuses reads) name_sinks SameEntries
        (λ vs ns j f hdr s.
          followed_push vs ns j hdr.name (tar_add refuses reads (vs j) f hdr) s
            (λ w e. names-tar_add refuses reads (vs j) w f hdr e))
        (λ vs ns j hdr bytes s.
          followed_push vs ns j hdr.name (tar_add_data refuses reads (vs j) hdr bytes) s
            (λ w e. names-tar_add_data refuses reads (vs j) w hdr bytes e))
        diffs groups (length groups + 1) (λ j. fresh_writer) (λ j. []) headers files (λ j. refl) in
    Follows-Parented names ws i (split_layers refuses reads diffs groups headers files) same h
      (partition_layers-Parented headers diffs groups (length groups + 1) files order)
