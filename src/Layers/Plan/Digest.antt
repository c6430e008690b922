-- ===== src/Layers/Plan/Digest.antt =====
-- LayerPlan.Digest of pkg/build/layer_plan.go: what of a plan is hashed. The header blocks that
-- archive/tar writes and the hash are arguments.
use apko.Base.{
  ℕ, zero, suc, ◌*◌, ◌/◌, ◌%◌, ◌^◌, ◌<◌, ◌≡◌, refl, sym, ap, ◌∙◌, subst, List, [], ◌∷◌, ◌++◌, map,
  Str, codes, length, arith, All,
}
use apko.Layers.Writer.{Header, Layered, laid, ◌>>=◌, bind-laid, laid_inj}
use apko.Layers.Plan.{PlanEntry}

abbrev pub plan_version : Str
plan_version = codes "apko layer plan/1"

-- The bytes of a number, the greatest first, before others.
unfoldable pub big_endian : ℕ → ℕ → List ℕ → List ℕ
big_endian zero n rest = rest
big_endian (suc k) n rest = big_endian k (n / 256) (n % 256 ∷ rest)

-- field: the length in eight bytes, and the bytes.
unfoldable pub field : List ℕ → List ℕ → List ℕ
field b rest = big_endian 8 (length b) (b ++ rest)

unfoldable pub fields : List (List ℕ) → List ℕ
fields [] = []
fields (b ∷ bs) = field b (fields bs)

module _ (encode : Header → Layered (List ℕ)) where
  -- The fields of the entries: the blocks of the header, and the digest.
  unfoldable pub entry_fields : List PlanEntry → Layered (List (List ℕ))
  entry_fields [] = laid []
  entry_fields (e ∷ es) = do
    blocks ← encode e.header
    rest ← entry_fields es
    laid (blocks ∷ e.digest ∷ rest)

  -- What the digest tells of an entry.
  abbrev pub key : PlanEntry → Layered (List ℕ) × Str
  key e = (encode e.header, e.digest)

  -- LayerPlan.Digest
  unfoldable pub plan_digest : (List ℕ → List ℕ) → List PlanEntry → Layered (List ℕ)
  plan_digest sha256 es = do fs ← entry_fields es; laid (sha256 (fields (plan_version ∷ fs)))

-- A bound for the numbers of k bytes.
abbrev bound : ℕ → ℕ
bound zero = 1
bound (suc k) = 256 * bound k

cons_inj : (x y : ℕ) (l m : List ℕ) → x ∷ l ≡ y ∷ m → (x ≡ y) × (l ≡ m)
cons_inj x y l m e = (cc e, cc e)

big_endian_inj :
    (k n m : ℕ) (r s : List ℕ)
    → n < bound k
    → m < bound k
    → big_endian k n r ≡ big_endian k m s
    → (n ≡ m) × (r ≡ s)
unfolding big_endian
big_endian_inj zero n m r s h k e = (omega arith, e)
big_endian_inj (suc k) n m r s h l e =
    let (high, both) =
      big_endian_inj k (n / 256) (m / 256) (n % 256 ∷ r) (m % 256 ∷ s) (omega arith) (omega arith)
        e in
    let (low, rest) = cons_inj (n % 256) (m % 256) r s both in (omega (arith, high, low), rest)

append_inj : (b c r s : List ℕ) → length b ≡ length c → b ++ r ≡ c ++ s → (b ≡ c) × (r ≡ s)
append_inj [] [] r s l e = (refl, e)
append_inj [] (x ∷ c) r s l e = absurd (omega (arith, l))
append_inj (x ∷ b) [] r s l e = absurd (omega (arith, l))
append_inj (x ∷ b) (y ∷ c) r s l e =
    let (head, tail) = cons_inj x y (b ++ r) (c ++ s) e in
    let (same, rest) = append_inj b c r s (omega (arith, l)) tail in
    (ap (λ z. z ∷ b) head ∙ ap (λ t. y ∷ t) same, rest)

abbrev pub Short : List ℕ → Type 0
Short b = length b < 2 ^ 64

field_inj : (b c r s : List ℕ) → Short b → Short c → field b r ≡ field c s → (b ≡ c) × (r ≡ s)
unfolding field
field_inj b c r s h k e =
    let (l, rest) =
      big_endian_inj 8 (length b) (length c) (b ++ r) (c ++ s) (omega arith) (omega arith) e in
    append_inj b c r s l rest

fields_inj : (bs cs : List (List ℕ)) → All Short bs → All Short cs → fields bs ≡ fields cs → bs ≡ cs
unfolding fields field big_endian
fields_inj [] [] hb hc e = refl
fields_inj [] (c ∷ cs) hb hc e = cc e
fields_inj (b ∷ bs) [] hb hc e = cc e
fields_inj (b ∷ bs) (c ∷ cs) (h, hb) (k, hc) e =
    let (same, rest) = field_inj b c (fields bs) (fields cs) h k e in
    ap (λ x. x ∷ bs) same ∙ ap (λ l. c ∷ l) (fields_inj bs cs hb hc rest)

module _ (encode : Header → Layered (List ℕ))
    (short : (hdr : Header) (b : List ℕ) → encode hdr ≡ laid b → Short b) where
  entry_fields_cons :
      (e : PlanEntry) (es : List PlanEntry) (fs : List (List ℕ))
      → entry_fields encode (e ∷ es) ≡ laid fs
      → (blocks : List ℕ) × (rest : List (List ℕ)) × (encode e.header ≡ laid blocks)
        × (entry_fields encode es ≡ laid rest)
        × (blocks ∷ e.digest ∷ rest ≡ fs)
  unfolding entry_fields
  entry_fields_cons e es fs h =
      let (blocks, first, others) =
        bind-laid (encode e.header)
          (λ b. entry_fields encode es >>= λ rest. laid (b ∷ e.digest ∷ rest)) fs h in
      let (rest, second, all) =
        bind-laid (entry_fields encode es) (λ rest. laid (blocks ∷ e.digest ∷ rest)) fs others in
      (blocks, rest, first, second, laid_inj (blocks ∷ e.digest ∷ rest) fs all)

  entry_fields-Short :
      (es : List PlanEntry) (fs : List (List ℕ))
      → All (λ e. Short e.digest) es
      → entry_fields encode es ≡ laid fs
      → All Short fs
  unfolding entry_fields
  entry_fields-Short [] fs hs h = subst (λ x. All Short x) (laid_inj [] fs h) tt
  entry_fields-Short (e ∷ es) fs (d, hs) h =
      let (blocks, rest, first, second, all) = entry_fields_cons e es fs h in
      subst (λ x. All Short x) all
        (short e.header blocks first, (d, entry_fields-Short es rest hs second))

  entry_fields_inj :
      (es es' : List PlanEntry) (fs : List (List ℕ))
      → entry_fields encode es ≡ laid fs
      → entry_fields encode es' ≡ laid fs
      → map (key encode) es ≡ map (key encode) es'
  unfolding entry_fields
  entry_fields_inj [] [] fs h h' = refl
  entry_fields_inj [] (e' ∷ es') fs h h' =
      let (blocks', rest', first', second', all') = entry_fields_cons e' es' fs h' in
      absurd (cc (laid_inj [] fs h, all'))
  entry_fields_inj (e ∷ es) [] fs h h' =
      let (blocks, rest, first, second, all) = entry_fields_cons e es fs h in
      absurd (cc (laid_inj [] fs h', all))
  entry_fields_inj (e ∷ es) (e' ∷ es') fs h h' =
      let (blocks, rest, first, second, all) = entry_fields_cons e es fs h in
      let (blocks', rest', first', second', all') = entry_fields_cons e' es' fs h' in
      let same : blocks ∷ e.digest ∷ rest ≡ blocks' ∷ e'.digest ∷ rest' = all ∙ sym all' in
      let head : blocks ≡ blocks' = cc same in
      let digest : e.digest ≡ e'.digest = cc same in
      let tail : rest ≡ rest' = cc same in
      let keys : key encode e ≡ key encode e' =
        ap (λ x. (x, e.digest)) (first ∙ ap (λ b. laid b) head ∙ sym first')
        ∙ ap (λ d. (encode e'.header, d)) digest in
      ap (λ k. k ∷ map (key encode) es) keys
      ∙ ap (λ l. key encode e' ∷ l)
          (entry_fields_inj es es' rest' (second ∙ ap (λ r. laid r) tail) second')

  -- Where the hash does not collide, and header blocks and digests are shorter than 2 ^ 64 bytes, plans
  -- with the same digest have, entry by entry, the same header blocks and the same content digests.
  pub plan_digest_inj :
      (sha256 : List ℕ → List ℕ)
      → ((a b : List ℕ) → sha256 a ≡ sha256 b → a ≡ b)
      → (es es' : List PlanEntry) (d : List ℕ) → All (λ e. Short e.digest) es
      → All (λ e. Short e.digest) es'
      → plan_digest encode sha256 es ≡ laid d
      → plan_digest encode sha256 es' ≡ laid d
      → map (key encode) es ≡ map (key encode) es'
  unfolding plan_digest
  plan_digest_inj sha256 distinct es es' d hs hs' h h' =
      let hashed : List (List ℕ) → List ℕ = λ fs. sha256 (fields (plan_version ∷ fs)) in
      let (fs, first, hash) = bind-laid (entry_fields encode es) (λ fs. laid (hashed fs)) d h in
      let (fs', first', hash') =
        bind-laid (entry_fields encode es') (λ fs. laid (hashed fs)) d h' in
      let bytes =
        distinct (fields (plan_version ∷ fs)) (fields (plan_version ∷ fs'))
          (laid_inj (hashed fs) (hashed fs') (hash ∙ sym hash')) in
      let version : Short plan_version = omega arith in
      let all =
        fields_inj (plan_version ∷ fs) (plan_version ∷ fs')
          (version, entry_fields-Short es fs hs first)
          (version, entry_fields-Short es' fs' hs' first') bytes in
      let same : fs ≡ fs' = cc all in
      entry_fields_inj es es' fs first (first' ∙ ap (λ x. laid x) (sym same))
