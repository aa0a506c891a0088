-- ===== src/Stages/Taxonomy.antt =====
-- voclyp/taxonomy.py: an industry's pack is merged with the pack that it extends. The JSON files
-- under configs/taxonomy are an argument, a look-up by industry.
mod Tests
pub mod Merging
use Prim.Native.String.{◌++◌ as str_append}
use voclyp_dev.Prelude.{
  String, Bool, true, false, ◌||◌, Option, none, some, List, [], ◌∷◌, ◌++◌, if◌then◌else◌, str_eq,
  Text,
}
use voclyp_dev.Contracts.{
  SignalType, intent, demand, promise, objection, price_reaction, competitor_mention,
}

pub record Pattern : Type 0 where
  pub subtype : String
  pub phrases : List Text

-- an entry of `signals`; the speaker is empty where the file has none
pub record Spec : Type 0 where
  pub speaker : Text
  pub patterns : List Pattern

-- an entry of `summary_fields`
pub data From : Type 0 where
  signal_count signal_present signal_quotes other_source : From

pub record Field : Type 0 where
  pub name : String
  pub source : From
  pub signal : SignalType
  pub subtype : Option String

-- a file of configs/taxonomy
pub record Pack : Type 0 where
  pub extends : String
  pub version : Option String
  pub signals : List (SignalType × Spec)
  pub summary_fields : List Field

pub record Taxonomy : Type 0 where
  pub industry : String
  pub version : String
  pub signals : List (SignalType × Spec)
  pub summary_fields : List Field

-- `==` on the names of signal types
unfoldable pub same_type : SignalType → SignalType → Bool
same_type intent intent = true
same_type demand demand = true
same_type promise promise = true
same_type objection objection = true
same_type price_reaction price_reaction = true
same_type competitor_mention competitor_mention = true
same_type (SignalType.other a) (SignalType.other b) = str_eq a b
same_type _ _ = false

abbrev no_patterns : Spec
no_patterns = record { speaker = []; patterns = [] }

-- `UNIVERSAL_SIGNAL_TYPES`, each with no pattern yet
unfoldable pub universal : List (SignalType × Spec)
universal =
    (objection, no_patterns)
    ∷ (intent, no_patterns)
    ∷ (demand, no_patterns)
    ∷ (competitor_mention, no_patterns)
    ∷ (price_reaction, no_patterns)
    ∷ (promise, no_patterns)
    ∷ []

-- `sig_type in signals`
unfoldable pub has_type : SignalType → List (SignalType × Spec) → Bool
unfolding same_type
has_type t [] = false
has_type t ((u, spec) ∷ signals) = same_type u t || has_type t signals

-- `signals[sig_type]["patterns"].extend(patterns)`
unfoldable pub extend :
    SignalType → List Pattern → List (SignalType × Spec) → List (SignalType × Spec)
extend t patterns [] = []
extend t patterns ((u, spec) ∷ signals) =
    if same_type u t
    then (u, record spec { patterns = spec.patterns ++ patterns }) ∷ signals
    else (u, spec) ∷ extend t patterns signals

-- the inner loop over one source; `none` is a TaxonomyError
unfoldable pub merge :
    List (SignalType × Spec) → List (SignalType × Spec) → Option (List (SignalType × Spec))
merge [] signals = some signals
merge ((t, spec) ∷ source) signals =
    let rest = merge source (extend t spec.patterns signals) in
    if has_type t signals then rest else none

abbrev or_mark : Option String → String
or_mark none = "?"
or_mark (some v) = v

-- the base of a pack that extends nothing, where it is the base itself
unfoldable pub own_base : Pack → Pack
own_base pack = record {
  extends = "";
  version = elim pack.version [ none ↦ some "1.0" | some v ↦ some v ];
  signals = [];
  summary_fields = [];
}

module _ (load_pack : String → Option Pack) where
  -- the pack that is merged under this one
  unfoldable pub base_of : String → Pack → Option Pack
  unfolding own_base
  base_of industry pack =
      if str_eq pack.extends ""
      then if str_eq industry "base" then some (own_base pack) else load_pack "base"
      else load_pack pack.extends

  unfoldable pub merged : String → Pack → Pack → Option Taxonomy
  unfolding merge universal
  merged industry base pack = elim (merge base.signals universal) [
    | none ↦ none
    | some signals ↦ elim (merge pack.signals signals) [
      | none ↦ none
      | some signals' ↦ some (record {
        industry = industry;
        version = str_append "base-" (
            str_append (or_mark base.version)
              (str_append "+" (str_append industry (str_append "-" (or_mark pack.version)))));
        signals = signals';
        summary_fields = base.summary_fields ++ pack.summary_fields;
      })
    ]
  ]

  -- `load_taxonomy(industry)`; `none` is a TaxonomyError
  unfoldable pub load_taxonomy : String → Option Taxonomy
  unfolding merged
  load_taxonomy industry = elim (load_pack industry) [
    | none ↦ none
    | some pack ↦ elim (base_of industry pack) [
      | none ↦ none
      | some base ↦ merged industry base pack
    ]
  ]

-- The patterns that a list of entries has for a type, in their order.
pub patterns_of : SignalType → List (SignalType × Spec) → List Pattern
patterns_of t [] = []
patterns_of t ((u, spec) ∷ signals) =
    let rest = patterns_of t signals in if same_type u t then spec.patterns ++ rest else rest
