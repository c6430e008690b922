-- ===== src/Layers/Writer.antt =====
-- What pkg/build/layers.go and pkg/build/layer_plan.go use of archive/tar and of the build's file
-- system: headers, a writer that counts the bytes that are due, and the reading of a file. The
-- header's fields that no step looks at are one text of attributes.
use apko.Base.{
  arith, ℕ, ◌-◌, ◌≡◌, refl, Bool, true, false, ◌&&◌, List, [], ◌∷◌, Option, none, some, ltb,
  if◌then◌else◌, Str, length,
}

pub data Typeflag : Type 0 where
  type_reg : Typeflag
  type_link : Typeflag
  type_symlink : Typeflag
  type_char : Typeflag
  type_block : Typeflag
  type_dir : Typeflag
  type_fifo : Typeflag

pub record Header : Type 0 where
  pub name : Str
  pub typeflag : Typeflag
  pub size : ℕ
  pub mod_time : ℕ
  pub attributes : Str

pub data TarError : Type 0 where
  missed_writing : ℕ → TarError
  unencodable : Str → TarError
  write_too_long : TarError

pub data LayerError : Type 0 where
  walking : Str → LayerError
  wrong_sinks : ℕ → ℕ → LayerError
  no_layer : Str → Str → LayerError
  writing_header : Str → TarError → LayerError
  writing : TarError → LayerError
  copying_fails : Str → TarError → LayerError
  opening : Str → Str → LayerError
  copying : Str → Str → LayerError
  closing : Str → Str → LayerError
  no_content : Str → LayerError
  naming : Str → Str → LayerError
  hashing : Str → Str → LayerError

pub data Layered (A : Type 0) : Type 0 where
  stopped : LayerError → Layered A
  laid : A → Layered A

infixl 5 ◌>>=◌
abbrev pub ◌>>=◌ : {A B : Type 0} → Layered A → (A → Layered B) → Layered B
stopped why >>= step = stopped why
laid built >>= step = step built

-- What a tar.Writer has been given, newest first, and how many bytes of the last file are due.
pub data Piece : Type 0 where
  header_piece : Header → Piece
  data_piece : List ℕ → Piece

pub record TarWriter : Type 0 where
  pub tape : List Piece
  pub due : ℕ

abbrev pub fresh_writer : TarWriter
fresh_writer = record { tape = []; due = 0 }

abbrev pub is_regular : Typeflag → Bool
is_regular flag = elim flag [ type_reg ↦ true | _ ↦ false ]

-- hasContent
unfoldable pub has_content : Header → Bool
has_content hdr = is_regular hdr.typeflag && ltb 0 hdr.size

-- tar.Writer.WriteHeader, where `refuses` says which headers the format cannot hold.
unfoldable pub write_header : (Header → Option Str) → TarWriter → Header → Layered TarWriter
write_header refuses w hdr =
    if ltb 0 w.due
    then stopped (writing_header hdr.name (missed_writing w.due))
    else (elim (refuses hdr) [
      | some why ↦ stopped (writing_header hdr.name (unencodable why))
      | none ↦ laid (record {
        tape = header_piece hdr ∷ w.tape;
        due = if is_regular hdr.typeflag then hdr.size else 0;
      })
    ])

-- tar.Writer.Write, which does not take more than is due.
unfoldable pub write : TarWriter → List ℕ → Option TarWriter
write w [] = some w
write w (b ∷ bs) =
    if ltb w.due (length (b ∷ bs))
    then none
    else some (record { tape = data_piece (b ∷ bs) ∷ w.tape; due = w.due - length (b ∷ bs) })

-- What comes of opening a file of the build, reading it to its end and closing it.
pub data FileRead : Type 0 where
  open_fails : Str → FileRead
  read_fails : Str → FileRead
  close_fails : List ℕ → Str → FileRead
  contents : List ℕ → FileRead

-- io.CopyBuffer behind Open, and Close; the errors carry the name they are wrapped with.
unfoldable pub copy_file : TarWriter → Str → Str → FileRead → Layered TarWriter
copy_file w path name (open_fails why) = stopped (opening path why)
copy_file w path name (read_fails why) = stopped (copying name why)
copy_file w path name (close_fails bytes why) = elim (write w bytes) [
  | none ↦ stopped (copying_fails name write_too_long)
  | some w' ↦ stopped (closing name why)
]
copy_file w path name (contents bytes) = elim (write w bytes) [
  | none ↦ stopped (copying_fails name write_too_long)
  | some w' ↦ laid w'
]

pub bind-laid :
    {A B : Type 0} (x : Layered A) (step : A → Layered B) (b : B)
    → (x >>= step) ≡ laid b
    → (a : A) × (x ≡ laid a) × (step a ≡ laid b)
bind-laid (stopped why) step b h = cc h
bind-laid (laid a) step b h = (a, refl, h)

pub laid-bind :
    {A B : Type 0} (x : Layered A) (step : A → Layered B) (a : A) (y : Layered B)
    → x ≡ laid a
    → step a ≡ y
    → (x >>= step) ≡ y
laid-bind x step a y e h = rw e h

pub laid_inj : {A : Type 0} (a b : A) → ◌≡◌ {A = Layered A} (laid a) (laid b) → a ≡ b
laid_inj a b h = cc h

-- What is copied is contents, whatever the names for errors are.
pub copied :
    (w w' : TarWriter) (path name : Str) (r : FileRead)
    → copy_file w path name r ≡ laid w'
    → (b : List ℕ) × (r ≡ contents b) × (write w b ≡ some w')
unfolding copy_file
copied w w' path name (open_fails why) h = cc h
copied w w' path name (read_fails why) h = cc h
copied w w' path name (close_fails b why) h = absurd (ground arith)
copied w w' path name (contents b) h = (b, refl, ground arith)

pub copy_contents :
    (w w' : TarWriter) (path name : Str) (b : List ℕ)
    → write w b ≡ some w'
    → copy_file w path name (contents b) ≡ laid w'
unfolding copy_file
copy_contents w w' path name b h = rw (h, copy_file) refl

pub data_written :
    (w w' : TarWriter) (b : List ℕ)
    → (elim (write w b) as (λ x. Layered TarWriter) [
      | none ↦ stopped (writing write_too_long)
      | some v ↦ laid v
    ])
      ≡ laid w'
    → write w b ≡ some w'
data_written w w' b h = ground arith
