-- ===== src/Stages/Taxonomy/Tests.antt =====
-- A pack on top of the base pack (voclyp/taxonomy.py).
use voclyp_dev.Prelude.{
  ◌≡◌, refl, String, Option, none, some, List, [], ◌∷◌, ◌++◌, if◌then◌else◌, str_eq, codes,
}
use voclyp_dev.Contracts.{SignalType, demand, objection}
use voclyp_dev.Stages.Taxonomy.{
  Pattern, Spec, signal_count, Pack, Taxonomy, base_of, load_taxonomy, patterns_of, merged, merge,
  extend, has_type, same_type, universal,
}
use voclyp_dev.Stages.Taxonomy.Merging.{Speakerless, load_taxonomy-merges}

abbrev base_pack : Pack
base_pack = record {
  extends = "";
  version = some "1.2";
  signals =
      (
        objection,
        record {
          speaker = [];
          patterns = record { subtype = "too_expensive"; phrases = codes "mehenga" ∷ [] } ∷ [];
        },
      )
      ∷ [];
  summary_fields =
      record { name = "objection_count"; source = signal_count; signal = objection; subtype = none }
      ∷ [];
}

abbrev shop_pack : Pack
shop_pack = record {
  extends = "";
  version = none;
  signals =
      (
        objection,
        record {
          speaker = codes "any";
          patterns = record { subtype = "stock"; phrases = codes "stock" ∷ [] } ∷ [];
        },
      )
      ∷ [];
  summary_fields = [];
}

abbrev load_pack : String → Option Pack
load_pack industry =
    if str_eq industry "base"
    then some base_pack
    else if str_eq industry "fmcg"
    then some shop_pack
    else none

abbrev bare : List Pattern → Spec
bare patterns = record { speaker = []; patterns = patterns }

abbrev loaded : Taxonomy
loaded = record {
  industry = "fmcg";
  version = "base-1.2+fmcg-?";
  signals =
      (
        objection,
        bare (
            record { subtype = "too_expensive"; phrases = codes "mehenga" ∷ [] }
            ∷ record { subtype = "stock"; phrases = codes "stock" ∷ [] }
            ∷ []),
      )
      ∷ (SignalType.intent, bare [])
      ∷ (demand, bare [])
      ∷ (SignalType.competitor_mention, bare [])
      ∷ (SignalType.price_reaction, bare [])
      ∷ (SignalType.promise, bare [])
      ∷ [];
  summary_fields =
      record { name = "objection_count"; source = signal_count; signal = objection; subtype = none }
      ∷ [];
}

is_base : base_of load_pack "fmcg" shop_pack ≡ some base_pack
unfolding base_of
is_base = refl

is_loaded : load_taxonomy load_pack "fmcg" ≡ some loaded
unfolding load_taxonomy merged merge extend has_type same_type universal base_of
is_loaded = refl

load_taxonomy-merges_example :
    ((u : SignalType)
      → patterns_of u loaded.signals
        ≡ patterns_of u base_pack.signals ++ patterns_of u shop_pack.signals)
    × Speakerless loaded.signals
load_taxonomy-merges_example =
    load_taxonomy-merges load_pack "fmcg" shop_pack base_pack loaded refl is_base is_loaded
