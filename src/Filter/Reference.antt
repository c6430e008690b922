-- ===== src/Filter/Reference.antt =====
-- filterPackages of pkg/apk/apk/version.go against a description of the packages that it keeps.
use apko.Base.{
  ◌≡◌, refl, sym, subst, ◌≢◌, ◌↔◌, ◌⊎◌, inl, inr, Bool, true, false, List, [], ◌∷◌, ◌++◌,
  append_assoc, append-nil, Option, none, some, arith, Str, str_eq, str_eq_iff, is_empty, In,
  keep_if, In-keep_if, Bool-cases,
}
use apko.Version.{Version, VersionDependency, version_any, satisfies}
use apko.Version.Parse.{OrError, value, error, parse_version, VersionError}
use apko.Constraint.{resolve_package_name_version_pin}
use apko.Package.{RepositoryPackage, url, PinnedPackage, Disqualified, is_disqualified}
use apko.Filter.{
  FilterOptions, is_any, installed_elsewhere, pin_rejected, version_satisfies, provides_satisfy,
  package_satisfies, Verdict, pass, stop, verdict, filter_loop, filter_packages,
}

-- The pin rules: no pin, the allowed or the preferred pin, or installed from the same place.
abbrev pub PinAllowed : FilterOptions → PinnedPackage → Type 0
PinAllowed o p =
    (p.pinned_name ≡ [])
    ⊎ ((p.pinned_name ≡ o.allow_pin)
        ⊎ ((p.pinned_name ≡ o.prefer_pin)
            ⊎ ((i : RepositoryPackage) × (o.installed ≡ some i)
                × (url i ≡ url p.repository_package))))

-- A text that can be parsed as a version that the constraint accepts.
abbrev pub Offers : VersionDependency → Version → Str → Type 0
Offers compare required s =
    (v : Version) × (parse_version s ≡ value v) × (satisfies compare v required ≡ true)

-- A package offers a version by its own version or by a provide, whatever name it provides; a
-- package whose own version cannot be parsed offers nothing.
abbrev pub PackageOffers : VersionDependency → Version → PinnedPackage → Type 0
PackageOffers compare required p =
    ((v : Version) × (parse_version p.version ≡ value v))
    × (Offers compare required p.version
        ⊎ ((prov : Str) × In prov p.provides
            × ((resolve_package_name_version_pin prov).version ≢ [])
            × Offers compare required (resolve_package_name_version_pin prov).version))

pub record Kept (o : FilterOptions) (dq : Disqualified) (p : PinnedPackage) : Type 0 where
  pub qualified : is_disqualified dq p.repository_package ≡ false
  pub pin : PinAllowed o p
  pub version :
      (o.compare ≡ version_any)
      ⊎ ((r : Version) × (parse_version o.version ≡ value r) × PackageOffers o.compare r p)

abbrev is_pass : Verdict → Bool
is_pass pass = true
is_pass _ = false

filter_loop-keep_if :
    (o : FilterOptions) (dq : Disqualified) (pkgs passed : List PinnedPackage)
    → ((p : PinnedPackage) → verdict o dq p ≢ stop)
    → filter_loop o dq pkgs passed ≡ passed ++ keep_if (λ p. is_pass (verdict o dq p)) pkgs
unfolding filter_loop keep_if
filter_loop-keep_if o dq [] passed h = sym (append-nil passed)
filter_loop-keep_if o dq (p ∷ pkgs) passed h = ground (
  arith,
  h p,
  filter_loop-keep_if o dq pkgs passed h,
  filter_loop-keep_if o dq pkgs (passed ++ p ∷ []) h,
  append_assoc passed (p ∷ []) (keep_if (λ q. is_pass (verdict o dq q)) pkgs),
)

is_any_iff : (d : VersionDependency) → (is_any d ≡ true) ↔ (d ≡ version_any)
is_any_iff version_any = ((λ h. refl), λ e. refl)
is_any_iff _ = ((λ h. cc), λ e. cc)

is_empty_iff : (s : Str) → (is_empty s ≡ true) ↔ (s ≡ [])
is_empty_iff [] = ((λ h. refl), λ e. refl)
is_empty_iff (c ∷ s) = ((λ h. cc), λ e. cc)

verdict_unparsable :
    (o : FilterOptions) (dq : Disqualified) (p : PinnedPackage) (e : VersionError)
    → o.compare ≢ version_any
    → parse_version o.version ≡ error e
    → is_pass (verdict o dq p) ≡ false
unfolding verdict
verdict_unparsable o dq p e h k = ground (arith, is_any_iff o.compare)

filter_loop_unparsable :
    (o : FilterOptions) (dq : Disqualified) (pkgs : List PinnedPackage)
    → ((p : PinnedPackage) → is_pass (verdict o dq p) ≡ false)
    → filter_loop o dq pkgs [] ≡ []
unfolding filter_loop
filter_loop_unparsable o dq [] h = refl
filter_loop_unparsable o dq (p ∷ pkgs) h = ground (arith, h p, filter_loop_unparsable o dq pkgs h)

-- A constraint with an operator whose version cannot be parsed keeps nothing.
pub filter_packages_unparsable :
    (pkgs : List PinnedPackage) (dq : Disqualified) (o : FilterOptions) (e : VersionError)
    → o.compare ≢ version_any
    → parse_version o.version ≡ error e
    → filter_packages pkgs dq o ≡ []
unfolding filter_packages
filter_packages_unparsable pkgs dq o e h k =
    filter_loop_unparsable o dq pkgs (λ p. verdict_unparsable o dq p e h k)

-- The constraint asks for no version, or for one that can be parsed.
abbrev pub Parsable : FilterOptions → Type 0
Parsable o = (o.compare ≡ version_any) ⊎ ((r : Version) × (parse_version o.version ≡ value r))

verdict-ne-stop :
    (o : FilterOptions) (dq : Disqualified) (p : PinnedPackage) → Parsable o → verdict o dq p ≢ stop
unfolding verdict
verdict-ne-stop o dq p h = ground (arith, is_any_iff o.compare)

url-cases :
    (i : Option RepositoryPackage) (p : RepositoryPackage)
    → (installed_elsewhere i p ≡ false) ↔ ((q : RepositoryPackage) × (i ≡ some q) × (url q ≡ url p))
unfolding installed_elsewhere
url-cases none p = ((λ h. cc), λ h. cc (h.1))
url-cases (some q) p = (
  (λ h. (q, refl, ground (arith, str_eq_iff (url q) (url p)))),
  λ (r, e, u). ground (arith, str_eq_iff (url q) (url p), e, u),
)

PinAllowed-iff :
    (o : FilterOptions) (p : PinnedPackage) → (pin_rejected o p ≡ false) ↔ PinAllowed o p
unfolding pin_rejected
PinAllowed-iff o p = (
  (λ h. elim (Bool-cases (is_empty p.pinned_name)) [
    | inl e ↦ inl ((is_empty_iff p.pinned_name).0 e)
    | inr e ↦ elim (Bool-cases (str_eq p.pinned_name o.allow_pin)) [
      | inl f ↦ inr (inl ((str_eq_iff _ _).0 f))
      | inr f ↦ elim (Bool-cases (str_eq p.pinned_name o.prefer_pin)) [
        | inl g ↦ inr (inr (inl ((str_eq_iff _ _).0 g)))
        | inr g ↦ inr (inr (inr ((url-cases o.installed p.repository_package).0 (ground arith))))
      ]
    ]
  ]),
  λ h. elim h [
    | inl e ↦ ground (arith, is_empty_iff p.pinned_name)
    | inr (inl e) ↦ ground (arith, str_eq_iff p.pinned_name o.allow_pin)
    | inr (inr (inl e)) ↦ ground (arith, str_eq_iff p.pinned_name o.prefer_pin)
    | inr (inr (inr q)) ↦ ground (arith, (url-cases o.installed p.repository_package).1 q)
  ],
)

version_satisfies_iff :
    (d : VersionDependency) (r : Version) (s : Str)
    → (version_satisfies d r s ≡ true) ↔ Offers d r s
unfolding version_satisfies
version_satisfies_iff d r s = by_result (parse_version s) refl
  where
    by_result :
        (x : OrError Version)
        → parse_version s ≡ x
        → (version_satisfies d r s ≡ true) ↔ Offers d r s
    by_result (value v) e = ((λ h. (v, e, ground arith)), λ (w, f, h). ground (arith, e, f, h))
    by_result (error x) e =
        ((λ h. absurd (ground arith)), λ (w, f, h). absurd (ground (arith, e, f)))

provides_satisfy_iff :
    (d : VersionDependency) (r : Version) (provs : List Str)
    → (provides_satisfy d r provs ≡ true) ↔ (
        (prov : Str) × In prov provs
        × ((resolve_package_name_version_pin prov).version ≢ [])
        × Offers d r (resolve_package_name_version_pin prov).version)
unfolding provides_satisfy
provides_satisfy_iff d r [] = ((λ h. cc), λ (q, i, n, o). elim i [ ])
provides_satisfy_iff d r (prov ∷ provs) =
    let v = (resolve_package_name_version_pin prov).version in
    let (down, up) = provides_satisfy_iff d r provs in
    (
      (λ h. elim (Bool-cases (is_empty v)) [
        | inl e ↦ let (q, i, n, o) = down (ground arith) in (q, inr i, n, o)
        | inr e ↦ elim (Bool-cases (version_satisfies d r v)) [
          | inl f ↦ (
            prov,
            inl refl,
            (λ k. absurd (ground (arith, is_empty_iff v))),
            (version_satisfies_iff d r v).0 f,
          )
          | inr f ↦ let (q, i, n, o) = down (ground arith) in (q, inr i, n, o)
        ]
      ]),
      λ (q, i, n, o). elim i [
        | inl e ↦
            let n' : v ≢ [] = subst (λ x. (resolve_package_name_version_pin x).version ≢ []) e n in
            let o' : Offers d r v =
              subst (λ x. Offers d r (resolve_package_name_version_pin x).version) e o in
            ground (arith, is_empty_iff v, (version_satisfies_iff d r v).1 o')
        | inr j ↦ ground (arith, up (q, j, n, o))
      ],
    )

package_satisfies_iff :
    (d : VersionDependency) (r : Version) (p : PinnedPackage)
    → (package_satisfies d r p ≡ true) ↔ PackageOffers d r p
package_satisfies_iff d r p = by_result (parse_version p.version) refl
  where
    by_result :
        (x : OrError Version)
        → parse_version p.version ≡ x
        → (package_satisfies d r p ≡ true) ↔ PackageOffers d r p
    by_result (error x) e =
        unfold package_satisfies in
        ((λ h. absurd (ground arith)), λ ((w, f), h). absurd (ground (arith, e, f)))
    by_result (value v) e =
        unfold package_satisfies in
        (
          (λ h. elim (Bool-cases (satisfies d v r)) [
            | inl s ↦ ((v, e), inl (v, e, s))
            | inr s ↦ ((v, e), inr ((provides_satisfy_iff d r p.provides).0 (ground arith)))
          ]),
          λ (w, h). elim h [
            | inl (u, f, s) ↦ ground (arith, e, f, s)
            | inr q ↦ ground (arith, (provides_satisfy_iff d r p.provides).1 q)
          ],
        )

verdict_iff :
    (o : FilterOptions) (dq : Disqualified) (p : PinnedPackage)
    → Parsable o
    → (is_pass (verdict o dq p) ≡ true) ↔ Kept o dq p
unfolding verdict
verdict_iff o dq p h = (
  (λ k. record {
    qualified = ground arith;
    pin = (PinAllowed-iff o p).0 (ground arith);
    version = elim h [
      | inl a ↦ inl a
      | inr (r, e) ↦ elim (Bool-cases (is_any o.compare)) [
        | inl a ↦ inl ((is_any_iff o.compare).0 a)
        | inr a ↦ inr (r, e, (package_satisfies_iff o.compare r p).0 (ground arith))
      ]
    ];
  }),
  λ k. elim k.version [
    | inl a ↦ ground (arith, k.qualified, (PinAllowed-iff o p).1 k.pin, is_any_iff o.compare)
    | inr (r, e, q) ↦ ground (
      arith,
      k.qualified,
      (PinAllowed-iff o p).1 k.pin,
      e,
      (package_satisfies_iff o.compare r p).1 q,
    )
  ],
)

-- For a constraint that can be parsed, the packages that are kept are exactly those of the given
-- ones that are not disqualified, that the pin rules allow and that offer an accepted version.
pub filter_packages_iff :
    (pkgs : List PinnedPackage) (dq : Disqualified) (o : FilterOptions) (p : PinnedPackage)
    → Parsable o
    → In p (filter_packages pkgs dq o) ↔ (In p pkgs × Kept o dq p)
unfolding filter_packages
filter_packages_iff pkgs dq o p h =
    let e = filter_loop-keep_if o dq pkgs [] (λ q. verdict-ne-stop o dq q h) in
    let (down, up) = In-keep_if (λ q. is_pass (verdict o dq q)) pkgs p in
    let (to, from) = verdict_iff o dq p h in
    ((λ i. let (j, k) = down (rw e at i) in (j, to k)), λ (j, k). rw e (up (j, from k)))
