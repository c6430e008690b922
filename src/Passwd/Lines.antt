-- ===== src/Passwd/Lines.antt =====
-- The loops of the Load and Write methods of pkg/passwd, for entries of any kind.
use apko.Base.{
  ℕ, ◌≡◌, refl, ap, ◌∙◌, ◌≢◌, ◌<◌, false, not, List, [], ◌∷◌, map, reverse, reverse-cons,
  reverse-reverse, ◌++◌, subst, arith, ◌==◌, if◌then◌else◌, Str, all_in, all_in-append, split,
  add_head, All, length,
}
use apko.Passwd.{
  Reading, entry, trailing_space, join, drop_last_empty, lines_of, drop_cr, max_token, load_lines,
  write_lines,
}
use apko.Passwd.Fields.{Lacks, split-append}

pub Lacks-join :
    (sep c : ℕ) (xs : List Str) → (sep == c) ≡ false → All (Lacks c) xs → Lacks c (join sep xs)
unfolding join all_in
Lacks-join sep c [] h a = refl
Lacks-join sep c (x ∷ []) h (hx, _) = hx
Lacks-join sep c (x ∷ y ∷ xs) h (hx, hs) = ground (
  arith,
  all_in-append (λ d. not (d == c)) x (sep ∷ join sep (y ∷ xs)),
  Lacks-join sep c (y ∷ xs) h hs,
)

drop_cr-append : (s : Str) (c : ℕ) → (c == 13) ≡ false → drop_cr (s ++ c ∷ []) ≡ s ++ c ∷ []
unfolding drop_cr
drop_cr-append [] c h = rw h refl
drop_cr-append (a ∷ []) c h = rw h refl
drop_cr-append (a ∷ b ∷ s) c h = rw (drop_cr-append (b ∷ s) c h) refl

drop_cr-reverse : (s : Str) → trailing_space s ≡ 0 → drop_cr (reverse s) ≡ reverse s
unfolding trailing_space
drop_cr-reverse [] h = unfold drop_cr in refl
drop_cr-reverse (c ∷ []) h = rw (reverse-cons c []) (drop_cr-append (reverse []) c (ground arith))
drop_cr-reverse (c ∷ d ∷ []) h =
    rw (reverse-cons c (d ∷ [])) (drop_cr-append (reverse (d ∷ [])) c (ground arith))
drop_cr-reverse (c ∷ d ∷ e ∷ s) h =
    rw (reverse-cons c (d ∷ e ∷ s)) (drop_cr-append (reverse (d ∷ e ∷ s)) c (ground arith))

drop_cr_lem : (s : Str) → trailing_space (reverse s) ≡ 0 → drop_cr s ≡ s
drop_cr_lem s h = subst (λ t. drop_cr t ≡ t) (reverse-reverse s) (drop_cr-reverse (reverse s) h)

split-ne-nil : (sep : ℕ) (s : Str) → split sep s ≢ []
unfolding split add_head
split-ne-nil sep [] = λ h. cc
split-ne-nil sep (c ∷ s) =
    elim (split sep s) as (λ l. (if c == sep then [] ∷ l else add_head c l) ≢ []) [
      | [] ↦ λ h. ground arith
      | x ∷ xs ↦ λ h. ground arith
    ]

drop_last_empty-cons :
    (x : Str) (l : List Str) → l ≢ [] → drop_last_empty (x ∷ l) ≡ x ∷ drop_last_empty l
unfolding drop_last_empty
drop_last_empty-cons x [] h = absurd (h refl)
drop_last_empty-cons x (y ∷ l) h = refl

module _ {A : Type 0} (parse : Str → Reading A) (line : A → Str) (again : A → A) where
  -- An entry whose line is read again.
  pub record IsLine (e : A) : Type 0 where
    pub parsed : parse (line e) ≡ entry (again e)
    pub one_line : Lacks 10 (line e)
    pub ending : trailing_space (reverse (line e)) ≡ 0
    pub fits : length (line e) < max_token

  lines_of-write_lines :
      (es : List A) → All IsLine es → lines_of (write_lines line es) ≡ map line es
  unfolding lines_of write_lines drop_last_empty
  lines_of-write_lines [] h = unfold split in refl
  lines_of-write_lines (e ∷ es) (r, h) =
      ap drop_last_empty (split-append 10 (line e) (write_lines line es) r.one_line)
      ∙ (drop_last_empty-cons (line e) _ (split-ne-nil 10 (write_lines line es))
          ∙ ap (◌∷◌ (line e)) (lines_of-write_lines es h))

  load_lines-map : (l : List A) → All IsLine l → load_lines parse (map line l) ≡ entry (map again l)
  unfolding load_lines
  load_lines-map [] a = refl
  load_lines-map (e ∷ l) (r, a) =
      rw (drop_cr_lem (line e) r.ending, r.parsed, load_lines-map l a) (ground (arith, r.fits))

  pub load_lines-write_lines :
      (es : List A)
      → All IsLine es
      → load_lines parse (lines_of (write_lines line es)) ≡ entry (map again es)
  load_lines-write_lines es h =
      ap (load_lines parse) (lines_of-write_lines es h) ∙ load_lines-map es h
