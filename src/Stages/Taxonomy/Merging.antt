-- ===== src/Stages/Taxonomy/Merging.antt =====
-- What the merged taxonomy of an industry holds (voclyp/taxonomy.py).
use voclyp_dev.Prelude.{
  ◌≡◌, refl, sym, ap, subst, ◌∙◌, String, true, false, Bool-cases, Option-cases, inl, inr, Option,
  some, List, [], ◌∷◌, ◌++◌, append_assoc, append-nil, arith, if◌then◌else◌, eq_iff, All,
}
use voclyp_dev.Contracts.{SignalType}
use voclyp_dev.Stages.Taxonomy.{
  Pattern, Spec, Pack, Taxonomy, same_type, universal, has_type, extend, merge, base_of, merged,
  load_taxonomy, patterns_of,
}

pub same_type→eq : (a b : SignalType) → same_type a b ≡ true → a ≡ b
unfolding same_type
same_type→eq (SignalType.other a) (SignalType.other b) h = ap SignalType.other ((eq_iff a b).0 h)
same_type→eq a b h = ground arith

pub same_type_refl : (a : SignalType) → same_type a a ≡ true
unfolding same_type
same_type_refl (SignalType.other a) = (eq_iff a a).1 refl
same_type_refl a = ground arith

-- No two entries have one type.
abbrev Distinct : List (SignalType × Spec) → Type 0
Distinct [] = Unit
Distinct ((t, spec) ∷ signals) = (has_type t signals ≡ false) × Distinct signals

patterns_of-absent :
    (t : SignalType) (signals : List (SignalType × Spec))
    → has_type t signals ≡ false
    → patterns_of t signals ≡ []
unfolding has_type patterns_of
patterns_of-absent t [] h = refl
patterns_of-absent t ((u, spec) ∷ signals) h = ground (arith, patterns_of-absent t signals)

has_type-extend :
    (t u : SignalType) (patterns : List Pattern) (signals : List (SignalType × Spec))
    → has_type u (extend t patterns signals) ≡ has_type u signals
unfolding has_type extend
has_type-extend t u patterns [] = refl
has_type-extend t u patterns ((v, spec) ∷ signals) =
    ground (arith, has_type-extend t u patterns signals)

extend-Distinct :
    (t : SignalType) (patterns : List Pattern) (signals : List (SignalType × Spec))
    → Distinct signals
    → Distinct (extend t patterns signals)
unfolding extend
extend-Distinct t patterns [] h = tt
extend-Distinct t patterns ((u, spec) ∷ signals) h = elim (Bool-cases (same_type u t)) [
  | inl e ↦ rw e h
  | inr e ↦
      rw e (has_type-extend t u patterns signals ∙ h.0, extend-Distinct t patterns signals h.1)
]

clash : (v t u : SignalType) → same_type t u ≡ true → same_type v u ≡ true → same_type v t ≡ true
clash v t u h k = rw (same_type→eq v u k, sym (same_type→eq t u h)) (same_type_refl t)

patterns_of-extend :
    (t u : SignalType) (patterns : List Pattern) (signals : List (SignalType × Spec))
    → Distinct signals
    → has_type t signals ≡ true
    → patterns_of u (extend t patterns signals)
      ≡ (if same_type t u then patterns_of u signals ++ patterns else patterns_of u signals)
unfolding has_type extend patterns_of
patterns_of-extend t u patterns [] d h = absurd (ground arith)
patterns_of-extend t u patterns ((v, spec) ∷ signals) d h = elim (Bool-cases (same_type v t)) [
  | inl e ↦
      let same : v ≡ t = same_type→eq v t e in
      elim (Bool-cases (same_type t u)) [
        | inl k ↦
            let none_left : patterns_of u signals ≡ [] =
              patterns_of-absent u signals
                (subst (λ w. has_type w signals ≡ false) (same ∙ same_type→eq t u k) d.0) in
            let third : same_type v u ≡ true = rw same k in
            rw
              (
                e,
                k,
                third,
                none_left,
                append-nil (spec.patterns ++ patterns),
                append-nil spec.patterns,
              )
              refl
        | inr k ↦ let third : same_type v u ≡ false = rw same k in rw (e, k, third) refl
      ]
  | inr e ↦
      let inner : has_type t signals ≡ true = ground arith in
      ground (arith, clash v t u, patterns_of-extend t u patterns signals d.1 inner)
]

merge-patterns_of :
    (u : SignalType) (source signals out : List (SignalType × Spec))
    → Distinct signals
    → merge source signals ≡ some out
    → patterns_of u out ≡ patterns_of u signals ++ patterns_of u source
unfolding merge patterns_of
merge-patterns_of u [] signals out d e =
    let same : signals ≡ out = ground arith in
    subst (λ s. patterns_of u s ≡ patterns_of u signals ++ []) same
      (sym (append-nil (patterns_of u signals)))
merge-patterns_of u ((t, spec) ∷ source) signals out d e = elim (Bool-cases (has_type t signals)) [
  | inr absent ↦ absurd (ground arith)
  | inl present ↦
      let rest =
        merge-patterns_of u source (extend t spec.patterns signals) out
          (extend-Distinct t spec.patterns signals d) (ground arith) in
      ground (
        arith,
        rest,
        patterns_of-extend t u spec.patterns signals d present,
        append_assoc (patterns_of u signals) spec.patterns (patterns_of u source),
      )
]

-- No entry names a speaker.
abbrev pub Speakerless : List (SignalType × Spec) → Type 0
Speakerless signals = All (λ e. e.1.speaker ≡ []) signals

extend-Speakerless :
    (t : SignalType) (patterns : List Pattern) (signals : List (SignalType × Spec))
    → Speakerless signals
    → Speakerless (extend t patterns signals)
unfolding extend
extend-Speakerless t patterns [] h = tt
extend-Speakerless t patterns ((u, spec) ∷ signals) h = elim (Bool-cases (same_type u t)) [
  | inl e ↦ rw e h
  | inr e ↦ rw e (h.0, extend-Speakerless t patterns signals h.1)
]

merge-Speakerless :
    (source signals out : List (SignalType × Spec))
    → Speakerless signals
    → merge source signals ≡ some out
    → Speakerless out
unfolding merge
merge-Speakerless [] signals out h e =
    let same : signals ≡ out = ground arith in subst Speakerless same h
merge-Speakerless ((t, spec) ∷ source) signals out h e = elim (Bool-cases (has_type t signals)) [
  | inr absent ↦ absurd (ground arith)
  | inl present ↦
      merge-Speakerless source (extend t spec.patterns signals) out
        (extend-Speakerless t spec.patterns signals h) (ground arith)
]

universal-Distinct : Distinct universal
unfolding universal has_type same_type
universal-Distinct = (refl, (refl, (refl, (refl, (refl, (refl, tt))))))

universal-Speakerless : Speakerless universal
unfolding universal
universal-Speakerless = (refl, (refl, (refl, (refl, (refl, (refl, tt))))))

patterns_of-universal : (u : SignalType) → patterns_of u universal ≡ []
unfolding universal patterns_of
patterns_of-universal u = ground arith

merge-Distinct :
    (source signals out : List (SignalType × Spec))
    → Distinct signals
    → merge source signals ≡ some out
    → Distinct out
unfolding merge
merge-Distinct [] signals out h e = let same : signals ≡ out = ground arith in subst Distinct same h
merge-Distinct ((t, spec) ∷ source) signals out h e = elim (Bool-cases (has_type t signals)) [
  | inr absent ↦ absurd (ground arith)
  | inl present ↦
      merge-Distinct source (extend t spec.patterns signals) out
        (extend-Distinct t spec.patterns signals h) (ground arith)
]

module _ (load_pack : String → Option Pack) where
  -- The merged signals of a taxonomy that was loaded.
  loaded :
      (industry : String) (pack base : Pack) (tax : Taxonomy)
      → load_pack industry ≡ some pack
      → base_of load_pack industry pack ≡ some base
      → load_taxonomy load_pack industry ≡ some tax
      → (mid : List (SignalType × Spec)) × (merge base.signals universal ≡ some mid)
        × (merge pack.signals mid ≡ some tax.signals)
  unfolding load_taxonomy merged
  loaded industry pack base tax e b l = elim (Option-cases (merge base.signals universal)) [
    | inl raised ↦ absurd (ground arith)
    | inr (mid, first) ↦ elim (Option-cases (merge pack.signals mid)) [
      | inl raised ↦ absurd (ground arith)
      | inr (out, second) ↦ (mid, first, ground arith)
    ]
  ]

  -- The patterns that a loaded taxonomy has for a signal type are those of the pack's base, then
  -- those of the pack; and no entry names a speaker, whatever the packs say.
  pub load_taxonomy-merges :
      (industry : String) (pack base : Pack) (tax : Taxonomy)
      → load_pack industry ≡ some pack
      → base_of load_pack industry pack ≡ some base
      → load_taxonomy load_pack industry ≡ some tax
      → ((u : SignalType)
          → patterns_of u tax.signals ≡ patterns_of u base.signals ++ patterns_of u pack.signals)
        × Speakerless tax.signals
  load_taxonomy-merges industry pack base tax e b l =
      let (mid, first, second) = loaded industry pack base tax e b l in
      (
        λ u.
            merge-patterns_of u pack.signals mid tax.signals
              (merge-Distinct base.signals universal mid universal-Distinct first) second
            ∙ ap (λ ps. ps ++ patterns_of u pack.signals)
                (merge-patterns_of u base.signals universal mid universal-Distinct first
                  ∙ ap (λ ps. ps ++ patterns_of u base.signals) (patterns_of-universal u)),
        merge-Speakerless pack.signals mid tax.signals
            (merge-Speakerless base.signals universal mid universal-Speakerless first) second,
      )
