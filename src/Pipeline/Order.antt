-- ===== src/Pipeline/Order.antt =====
-- The privacy order of a pipeline that was accepted (voclyp/pipeline/registry.py).
use text.Mathlib.TextPositions.{eq_refl}
use voclyp_dev.Prelude.{
  ℕ, ◌≤◌, ◌≡◌, refl, sym, ◌∙◌, subst, String, true, false, Option, none, some, List, [], ◌∷◌, ◌++◌,
  map, arith, str_eq, eq_iff, member,
}
use voclyp_dev.Pipeline.{
  StageSpec, required_roles, index, positions, sorted, insert_sorted, same_list, missing,
  check_roles, check_required, check_order, validate_pipeline_config,
}

-- Neighbours are in order.
abbrev IsSorted : List ℕ → Type 0
IsSorted [] = Unit
IsSorted (a ∷ []) = Unit
IsSorted (a ∷ b ∷ l) = (a ≤ b) × IsSorted (b ∷ l)

insert_sorted-IsSorted : (n : ℕ) (l : List ℕ) → IsSorted l → IsSorted (insert_sorted n l)
unfolding insert_sorted
insert_sorted-IsSorted n [] h = tt
insert_sorted-IsSorted n (m ∷ []) h = ground arith
insert_sorted-IsSorted n (m ∷ k ∷ l) h = ground (arith, insert_sorted-IsSorted n (k ∷ l) h.1)

sorted-IsSorted : (l : List ℕ) → IsSorted (sorted l)
unfolding sorted
sorted-IsSorted [] = tt
sorted-IsSorted (n ∷ l) = insert_sorted-IsSorted n (sorted l) (sorted-IsSorted l)

same_list→eq : (l m : List ℕ) → same_list l m ≡ true → l ≡ m
unfolding same_list
same_list→eq [] [] h = refl
same_list→eq [] (b ∷ m) h = cc
same_list→eq (a ∷ l) [] h = cc
same_list→eq (a ∷ l) (b ∷ m) h = ground (arith, same_list→eq l m)

-- A role whose first place is not behind a place of another role stands before that place.
index-before :
    (a b : String) (xs ys : List String)
    → str_eq b a ≡ false
    → index a (xs ++ b ∷ ys) ≤ index b (xs ++ b ∷ ys)
    → member a xs ≡ true
index-before a b [] ys n h = absurd (ground (arith, eq_refl b))
index-before a b (x ∷ xs) ys n h =
    ground (arith, eq_iff x a, eq_iff x b, eq_iff b a, index-before a b xs ys)

-- The places of the required roles ascend.
abbrev Ordered : List String → Type 0
Ordered roles =
    (index "asr" roles ≤ index "pii_redaction" roles)
    × (index "pii_redaction" roles ≤ index "audio_deletion" roles)
    × (index "audio_deletion" roles ≤ index "signal_extraction" roles)
    × (index "signal_extraction" roles ≤ index "summarization" roles)

positions-Ordered :
    (roles : List String)
    → missing required_roles roles ≡ none
    → same_list (positions required_roles roles) (sorted (positions required_roles roles)) ≡ true
    → Ordered roles
unfolding missing positions
positions-Ordered roles none_missing in_order =
    let places : List ℕ =
      index "asr" roles
      ∷ index "pii_redaction" roles
      ∷ index "audio_deletion" roles
      ∷ index "signal_extraction" roles
      ∷ index "summarization" roles
      ∷ [] in
    let all_there : positions required_roles roles ≡ places = ground arith in
    let rises : IsSorted places =
      subst IsSorted (sym (same_list→eq _ _ in_order) ∙ all_there)
        (sorted-IsSorted (positions required_roles roles)) in
    (rises.0, rises.1.0, rises.1.1.0, rises.1.1.1.0)

check_order-Ordered :
    (roles : List String)
    → missing required_roles roles ≡ none
    → check_order roles ≡ none
    → Ordered roles
unfolding check_order
check_order-Ordered roles m h = positions-Ordered roles m (ground arith)

check_required-Ordered :
    (o : Option String) (roles : List String)
    → missing required_roles roles ≡ o
    → check_required o roles ≡ none
    → Ordered roles
unfolding check_required
check_required-Ordered none roles m h = check_order-Ordered roles m h
check_required-Ordered (some r) roles m h = cc

check_roles-Ordered : (roles : List String) → check_roles roles ≡ none → Ordered roles
unfolding check_roles
check_roles-Ordered roles h =
    check_required-Ordered (missing required_roles roles) roles refl (ground arith)

accepted-Ordered :
    (registry specs : List StageSpec)
    → validate_pipeline_config registry specs ≡ none
    → Ordered (map StageSpec.role specs)
unfolding validate_pipeline_config
accepted-Ordered registry specs h = check_roles-Ordered (map StageSpec.role specs) (ground arith)

-- The first of two roles must have run when the second does: speech is transcribed before it is
-- redacted, redacted before the audio is destroyed, and the audio is destroyed before analysis.
pub data Precedes : String → String → Type 0 where
  transcribed : Precedes "asr" "pii_redaction"
  redacted : Precedes "pii_redaction" "audio_deletion"
  destroyed : Precedes "audio_deletion" "signal_extraction"
  extracted : Precedes "signal_extraction" "summarization"

Precedes-index :
    {a b : String} (roles : List String)
    → Precedes a b
    → Ordered roles
    → (str_eq b a ≡ false) × (index a roles ≤ index b roles)
Precedes-index roles transcribed h = (refl, h.0)
Precedes-index roles redacted h = (refl, h.1)
Precedes-index roles destroyed h = (refl, h.2)
Precedes-index roles extracted h = (refl, h.3)

-- In a configuration that was accepted, wherever a stage of the later role stands, a stage of the
-- role that must precede it stands before: no analysis is configured ahead of the destruction of
-- the audio, and no destruction ahead of redaction.
pub accepted-Precedes :
    {a b : String} (registry specs : List StageSpec) (before after : List String)
    → Precedes a b
    → validate_pipeline_config registry specs ≡ none
    → map StageSpec.role specs ≡ before ++ b ∷ after
    → member a before ≡ true
accepted-Precedes {a} {b} registry specs before after p h e =
    let (differ, places) =
      Precedes-index (before ++ b ∷ after) p
        (subst Ordered e (accepted-Ordered registry specs h)) in
    index-before a b before after differ places
