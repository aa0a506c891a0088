-- ===== src/Prelude/Texts.antt =====
-- Texts that the program takes apart, as lists of their character codes, with Python's
-- `split(sep, n)`, `split(sep)`, `partition(sep)` and `join` for a separator of one character.
use Prim.Native.Nat.{ℕ, zero, suc}
use Prim.Native.Char.{code}
use Prim.Native.String.{String}
use mathlib.Core.Path.{◌≡◌, refl, ap}
use mathlib.Core.Logic.{◌↔◌}
use mathlib.Core.Bool.{Bool, true, false, not, ◌&&◌}
use mathlib.Core.Option.{Option, none, some}
use mathlib.Core.List.{List, [], ◌∷◌, ◌++◌}
use native.Mathlib.Omega.{arith}
use voclyp_dev.Prelude.Tests.{◌==◌, if◌then◌else◌}
use voclyp_dev.Prelude.Lists.{All}

abbrev pub Text : Type 0
Text = List ℕ

abbrev pub codes : String → Text
codes String.[] = []
codes (String.◌∷◌ c s) = code c ∷ codes s

abbrev pub text_eq : Text → Text → Bool
text_eq [] [] = true
text_eq (a ∷ s) (b ∷ t) = (a == b) && text_eq s t
text_eq _ _ = false

pub text_eq→eq : (s t : Text) → text_eq s t ≡ true → s ≡ t
text_eq→eq [] [] h = refl
text_eq→eq [] (b ∷ t) h = cc
text_eq→eq (a ∷ s) [] h = cc
text_eq→eq (a ∷ s) (b ∷ t) h = ground (arith, text_eq→eq s t)

pub text_eq_refl : (s : Text) → text_eq s s ≡ true
text_eq_refl [] = refl
text_eq_refl (a ∷ s) = ground (arith, text_eq_refl s)

pub text_eq_iff : (s t : Text) → (text_eq s t ≡ true) ↔ (s ≡ t)
text_eq_iff s t = (text_eq→eq s t, λ e. rw e (text_eq_refl t))

-- The character does not occur in the text.
abbrev pub absent : ℕ → Text → Bool
absent sep [] = true
absent sep (c ∷ s) = not (c == sep) && absent sep s

abbrev before : ℕ → Option (Text × Text) → Option (Text × Text)
before c none = none
before c (some (a, b)) = some (c ∷ a, b)

-- `s.partition(sep)`, or `none` where the separator does not occur
abbrev pub partition : ℕ → Text → Option (Text × Text)
partition sep [] = none
partition sep (c ∷ s) = if c == sep then some ([], s) else before c (partition sep s)

-- `s.split(sep, n)`
abbrev pub split_max : ℕ → ℕ → Text → List Text
split_max sep zero s = s ∷ []
split_max sep (suc n) s = elim (partition sep s) [
  | none ↦ s ∷ []
  | some (a, b) ↦ a ∷ split_max sep n b
]

abbrev prepend : ℕ → List Text → List Text
prepend c [] = (c ∷ []) ∷ []
prepend c (p ∷ ps) = (c ∷ p) ∷ ps

-- `s.split(sep)`
abbrev pub split : ℕ → Text → List Text
split sep [] = [] ∷ []
split sep (c ∷ s) = if c == sep then [] ∷ split sep s else prepend c (split sep s)

-- `sep.join(parts)`
abbrev pub join : ℕ → List Text → Text
join sep [] = []
join sep (p ∷ []) = p
join sep (p ∷ q ∷ ps) = p ++ (sep ∷ join sep (q ∷ ps))

pub partition-append :
    (sep : ℕ) (a b : Text) → absent sep a ≡ true → partition sep (a ++ sep ∷ b) ≡ some (a, b)
partition-append sep [] b h = ground arith
partition-append sep (c ∷ a) b h = ground (arith, partition-append sep a b)

pub partition-absent : (sep : ℕ) (a : Text) → absent sep a ≡ true → partition sep a ≡ none
partition-absent sep [] h = refl
partition-absent sep (c ∷ a) h = ground (arith, partition-absent sep a)

pub split-absent : (sep : ℕ) (a : Text) → absent sep a ≡ true → split sep a ≡ a ∷ []
split-absent sep [] h = refl
split-absent sep (c ∷ a) h = ground (arith, split-absent sep a)

pub split-append :
    (sep : ℕ) (a b : Text) → absent sep a ≡ true → split sep (a ++ sep ∷ b) ≡ a ∷ split sep b
split-append sep [] b h = ground arith
split-append sep (c ∷ a) b h = ground (arith, split-append sep a b)

-- Splitting what was joined gives the parts back, where no part holds the separator.
pub split-join :
    (sep : ℕ) (p : Text) (ps : List Text)
    → All (λ t. absent sep t ≡ true) (p ∷ ps)
    → split sep (join sep (p ∷ ps)) ≡ p ∷ ps
split-join sep p [] h = split-absent sep p h.0
split-join sep p (q ∷ ps) h =
    rw (split-append sep p (join sep (q ∷ ps)) h.0) (ap (λ l. p ∷ l) (split-join sep q ps h.1))

-- A text without the separator, then the separator, then any text: both parts are determined.
pub append-injective :
    (sep : ℕ) (a b c d : Text)
    → absent sep a ≡ true
    → absent sep c ≡ true
    → a ++ sep ∷ b ≡ c ++ sep ∷ d
    → (a ≡ c) × (b ≡ d)
append-injective sep a b c d h k e =
    let same : ◌≡◌ {A = Option (Text × Text)} (some (a, b)) (some (c, d)) =
      ground
        (arith, partition-append sep a b h, partition-append sep c d k, ap (partition sep) e) in
    (ground arith, ground arith)
