-- ===== src/Passwd/White.antt =====
-- White space at the ends of a text: the characters of unicode.IsSpace, as UTF-8 encodes them.
use apko.Base.{
  ℕ, ◌+◌, ◌-◌, ◌*◌, ◌/◌, ◌%◌, ◌≤◌, ◌≡◌, refl, sym, ap, ◌∙◌, subst, ◌≢◌, ◌⊎◌, inl, inr, true, ltb,
  if◌then◌else◌, [], ◌∷◌, ◌++◌, reverse, reverse-append, reverse-reverse, reverse_aux-eq, arith,
  Str, Bool-cases,
}
use apko.Passwd.{is_space, is_space_pair, is_space_triple, leading_space, trailing_space}

-- The white space of Unicode, by its code points.
abbrev pub IsWhite : ℕ → Type 0
IsWhite r =
    ((9 ≤ r) × (r ≤ 13))
    ⊎ (r ≡ 32)
    ⊎ (r ≡ 133)
    ⊎ (r ≡ 160)
    ⊎ (r ≡ 5760)
    ⊎ ((8192 ≤ r) × (r ≤ 8202))
    ⊎ (r ≡ 8232)
    ⊎ (r ≡ 8233)
    ⊎ (r ≡ 8239)
    ⊎ (r ≡ 8287)
    ⊎ (r ≡ 12288)

-- The UTF-8 encoding of a code point below 2 ^ 16.
abbrev pub utf8 : ℕ → Str
utf8 r =
    if ltb r 128
    then r ∷ []
    else if ltb r 2048
    then (192 + r / 64) ∷ (128 + r % 64) ∷ []
    else (224 + r / 4096) ∷ (128 + (r / 64) % 64) ∷ (128 + r % 64) ∷ []

abbrev pub BeginsWhite : Str → Type 0
BeginsWhite s = (r : ℕ) × (t : Str) × IsWhite r × (s ≡ utf8 r ++ t)

abbrev pub EndsWhite : Str → Type 0
EndsWhite s = (r : ℕ) × (t : Str) × IsWhite r × (s ≡ t ++ utf8 r)

-- The bytes of an encoding.
is_space-IsWhite : (c : ℕ) → is_space c ≡ true → IsWhite c × (utf8 c ≡ c ∷ [])
is_space-IsWhite c h = (ground (arith, h), ground (arith, h))

is_space_pair-IsWhite :
    (c d : ℕ) → is_space_pair c d ≡ true → (r : ℕ) × IsWhite r × (utf8 r ≡ c ∷ d ∷ [])
is_space_pair-IsWhite c d h = (d, ground (arith, h), ground (arith, h))

en_quad : (k : ℕ) → k ≤ 10 → utf8 (8192 + k) ≡ 226 ∷ 128 ∷ (128 + k) ∷ []
en_quad k h = ground (arith, h)

is_space_triple-IsWhite :
    (c d e : ℕ) → is_space_triple c d e ≡ true → (r : ℕ) × IsWhite r × (utf8 r ≡ c ∷ d ∷ e ∷ [])
is_space_triple-IsWhite c d e h =
    ((c - 224) * 4096 + (d - 128) * 64 + (e - 128), ground (arith, h), ground (arith, h))

begins_byte : (c : ℕ) (s : Str) → is_space c ≡ true → BeginsWhite (c ∷ s)
begins_byte c s h = let (w, e) = is_space-IsWhite c h in (c, s, w, ap (λ x. x ++ s) (sym e))

begins_pair : (c d : ℕ) (s : Str) → is_space_pair c d ≡ true → BeginsWhite (c ∷ d ∷ s)
begins_pair c d s h =
    let (r, w, e) = is_space_pair-IsWhite c d h in (r, s, w, ap (λ x. x ++ s) (sym e))

begins_triple : (c d e : ℕ) (s : Str) → is_space_triple c d e ≡ true → BeginsWhite (c ∷ d ∷ e ∷ s)
begins_triple c d e s h =
    let (r, w, k) = is_space_triple-IsWhite c d e h in (r, s, w, ap (λ x. x ++ s) (sym k))

-- A text that does not begin with a white space character has none that is trimmed.
pub leading_space-none : (s : Str) → ¬ BeginsWhite s → leading_space s ≡ 0
unfolding leading_space
leading_space-none [] n = refl
leading_space-none (c ∷ []) n = elim (Bool-cases (is_space c)) [
  | inl h ↦ absurd (n (begins_byte c [] h))
  | inr h ↦ rw h refl
]
leading_space-none (c ∷ d ∷ []) n = elim (Bool-cases (is_space c)) [
  | inl h ↦ absurd (n (begins_byte c (d ∷ []) h))
  | inr h ↦ elim (Bool-cases (is_space_pair c d)) [
    | inl k ↦ absurd (n (begins_pair c d [] k))
    | inr k ↦ ground (arith, h, k)
  ]
]
leading_space-none (c ∷ d ∷ e ∷ s) n = elim (Bool-cases (is_space c)) [
  | inl h ↦ absurd (n (begins_byte c (d ∷ e ∷ s) h))
  | inr h ↦ elim (Bool-cases (is_space_pair c d)) [
    | inl k ↦ absurd (n (begins_pair c d (e ∷ s) k))
    | inr k ↦ elim (Bool-cases (is_space_triple c d e)) [
      | inl l ↦ absurd (n (begins_triple c d e s l))
      | inr l ↦ ground (arith, h, k, l)
    ]
  ]
]

utf8-IsWhite :
    (r : ℕ)
    → IsWhite r
    → ((is_space r ≡ true) × (utf8 r ≡ r ∷ []))
      ⊎ ((is_space_pair (192 + r / 64) (128 + r % 64) ≡ true)
          × (utf8 r ≡ (192 + r / 64) ∷ (128 + r % 64) ∷ []))
      ⊎ ((is_space_triple (224 + r / 4096) (128 + (r / 64) % 64) (128 + r % 64) ≡ true)
          × (utf8 r ≡ (224 + r / 4096) ∷ (128 + (r / 64) % 64) ∷ (128 + r % 64) ∷ []))
utf8-IsWhite r w = ground (arith, w)

ends_byte : (c : ℕ) (s : Str) → is_space c ≡ true → EndsWhite (reverse (c ∷ s))
ends_byte c s h =
    let (w, e) = is_space-IsWhite c h in
    (c, reverse s, w, reverse_aux-eq s (c ∷ []) ∙ ap (◌++◌ (reverse s)) (sym e))

ends_pair : (c d : ℕ) (s : Str) → is_space_pair d c ≡ true → EndsWhite (reverse (c ∷ d ∷ s))
ends_pair c d s h =
    let (r, w, e) = is_space_pair-IsWhite d c h in
    (r, reverse s, w, reverse_aux-eq s (d ∷ c ∷ []) ∙ ap (◌++◌ (reverse s)) (sym e))

ends_triple :
    (c d e : ℕ) (s : Str) → is_space_triple e d c ≡ true → EndsWhite (reverse (c ∷ d ∷ e ∷ s))
ends_triple c d e s h =
    let (r, w, k) = is_space_triple-IsWhite e d c h in
    (r, reverse s, w, reverse_aux-eq s (e ∷ d ∷ c ∷ []) ∙ ap (◌++◌ (reverse s)) (sym k))

trailing_none : (u : Str) → ¬ EndsWhite (reverse u) → trailing_space u ≡ 0
unfolding trailing_space
trailing_none [] n = refl
trailing_none (c ∷ []) n = elim (Bool-cases (is_space c)) [
  | inl h ↦ absurd (n (ends_byte c [] h))
  | inr h ↦ rw h refl
]
trailing_none (c ∷ d ∷ []) n = elim (Bool-cases (is_space c)) [
  | inl h ↦ absurd (n (ends_byte c (d ∷ []) h))
  | inr h ↦ elim (Bool-cases (is_space_pair d c)) [
    | inl k ↦ absurd (n (ends_pair c d [] k))
    | inr k ↦ ground (arith, h, k)
  ]
]
trailing_none (c ∷ d ∷ e ∷ s) n = elim (Bool-cases (is_space c)) [
  | inl h ↦ absurd (n (ends_byte c (d ∷ e ∷ s) h))
  | inr h ↦ elim (Bool-cases (is_space_pair d c)) [
    | inl k ↦ absurd (n (ends_pair c d (e ∷ s) k))
    | inr k ↦ elim (Bool-cases (is_space_triple e d c)) [
      | inl l ↦ absurd (n (ends_triple c d e s l))
      | inr l ↦ ground (arith, h, k, l)
    ]
  ]
]

-- A text that does not end with a white space character has none at its end that is trimmed.
pub trailing_space-none : (s : Str) → ¬ EndsWhite s → trailing_space (reverse s) ≡ 0
trailing_space-none s n =
    trailing_none (reverse s) (subst (λ t. ¬ EndsWhite t) (sym (reverse-reverse s)) n)

leading_byte : (c : ℕ) (s : Str) → is_space c ≡ true → leading_space (c ∷ s) ≢ 0
unfolding leading_space
leading_byte c [] h k = ground (arith, h, k)
leading_byte c (d ∷ []) h k = ground (arith, h, k)
leading_byte c (d ∷ e ∷ s) h k = ground (arith, h, k)

leading_pair : (c d : ℕ) (s : Str) → is_space_pair c d ≡ true → leading_space (c ∷ d ∷ s) ≢ 0
unfolding leading_space
leading_pair c d [] h k = ground (arith, h, k)
leading_pair c d (e ∷ s) h k = ground (arith, h, k)

leading_triple :
    (c d e : ℕ) (s : Str) → is_space_triple c d e ≡ true → leading_space (c ∷ d ∷ e ∷ s) ≢ 0
unfolding leading_space
leading_triple c d e s h k = ground (arith, h, k)

-- A text of which nothing is trimmed does not begin with a white space character.
pub leading_space-BeginsWhite : (s : Str) → leading_space s ≡ 0 → ¬ BeginsWhite s
leading_space-BeginsWhite s z (r, t, w, e) = elim (utf8-IsWhite r w) [
  | inl (h, k) ↦ leading_byte _ t h (ap leading_space (sym (e ∙ ap (λ x. x ++ t) k)) ∙ z)
  | inr (inl (h, k)) ↦ leading_pair _ _ t h (ap leading_space (sym (e ∙ ap (λ x. x ++ t) k)) ∙ z)
  | inr (inr (h, k)) ↦
      leading_triple _ _ _ t h (ap leading_space (sym (e ∙ ap (λ x. x ++ t) k)) ∙ z)
]

trailing_byte : (c : ℕ) (s : Str) → is_space c ≡ true → trailing_space (c ∷ s) ≢ 0
unfolding trailing_space
trailing_byte c [] h k = ground (arith, h, k)
trailing_byte c (d ∷ []) h k = ground (arith, h, k)
trailing_byte c (d ∷ e ∷ s) h k = ground (arith, h, k)

trailing_pair : (c d : ℕ) (s : Str) → is_space_pair d c ≡ true → trailing_space (c ∷ d ∷ s) ≢ 0
unfolding trailing_space
trailing_pair c d [] h k = ground (arith, h, k)
trailing_pair c d (e ∷ s) h k = ground (arith, h, k)

trailing_triple :
    (c d e : ℕ) (s : Str) → is_space_triple e d c ≡ true → trailing_space (c ∷ d ∷ e ∷ s) ≢ 0
unfolding trailing_space
trailing_triple c d e s h k = ground (arith, h, k)

reverse-ends :
    (s t u v : Str)
    → s ≡ t ++ u
    → u ≡ v
    → trailing_space (reverse s) ≡ 0
    → trailing_space (reverse v ++ reverse t) ≡ 0
reverse-ends s t u v e k z =
    ap trailing_space (sym (ap reverse (e ∙ ap (◌++◌ t) k) ∙ reverse-append t v)) ∙ z

-- A text at whose end nothing is trimmed does not end with a white space character.
pub trailing_space-EndsWhite : (s : Str) → trailing_space (reverse s) ≡ 0 → ¬ EndsWhite s
trailing_space-EndsWhite s z (r, t, w, e) = elim (utf8-IsWhite r w) [
  | inl (h, k) ↦ trailing_byte _ (reverse t) h (reverse-ends s t _ _ e k z)
  | inr (inl (h, k)) ↦ trailing_pair _ _ (reverse t) h (reverse-ends s t _ _ e k z)
  | inr (inr (h, k)) ↦ trailing_triple _ _ _ (reverse t) h (reverse-ends s t _ _ e k z)
]
