-- ===== src/Layers/Split/Calls.antt =====
-- The two methods of tarSink in pkg/build/layers.go, where they succeed: what was written.
use apko.Base.{
  ℕ, ◌≡◌, ◌∙◌, ◌⊎◌, inl, inr, true, false, List, Option, none, some, Str, Bool-cases, if◌then◌else◌,
}
use apko.Layers.Writer.{
  Header, stopped, laid, bind-laid, copied, data_written, TarWriter, has_content, write_header,
  write, FileRead, contents, copy_file, writing, write_too_long,
}
use apko.Layers.Split.{File, tar_add, tar_add_data}

-- A header alone, or a header and the contents of the file.
pub tar_add_cases :
    (refuses : Header → Option Str) (reads : Str → FileRead) (w w' : TarWriter) (f : File)
    (hdr : Header)
    → tar_add refuses reads w f hdr ≡ laid w'
    → ((has_content hdr ≡ false) × (write_header refuses w hdr ≡ laid w'))
      ⊎ ((has_content hdr ≡ true)
          × (w₁ : TarWriter) × (write_header refuses w hdr ≡ laid w₁)
          × (b : List ℕ) × (reads f.path ≡ contents b)
          × (write w₁ b ≡ some w'))
unfolding tar_add
tar_add_cases refuses reads w w' f hdr h =
    let (w₁, first, rest) =
      bind-laid (write_header refuses w hdr)
        (λ v. if has_content hdr then copy_file v f.path f.path (reads f.path) else laid v) w' h in
    elim (Bool-cases (has_content hdr)) [
      | inl e ↦
          let (b, read, wrote) = copied w₁ w' f.path f.path (reads f.path) (rw e at rest) in
          inr (e, w₁, first, b, read, wrote)
      | inr e ↦ inl (e, first ∙ rw e at rest)
    ]

pub tar_add_data_parts :
    (refuses : Header → Option Str) (reads : Str → FileRead) (w w' : TarWriter) (hdr : Header)
    (bytes : List ℕ)
    → tar_add_data refuses reads w hdr bytes ≡ laid w'
    → (w₁ : TarWriter) × (write_header refuses w hdr ≡ laid w₁) × (write w₁ bytes ≡ some w')
unfolding tar_add_data
tar_add_data_parts refuses reads w w' hdr bytes h =
    let (w₁, first, rest) =
      bind-laid (write_header refuses w hdr)
        (λ v. elim (write v bytes) [ none ↦ stopped (writing write_too_long) | some v' ↦ laid v' ])
        w' h in
    (w₁, first, data_written w₁ w' bytes rest)
