-- ===== src/Pipeline.antt =====
-- voclyp/pipeline/registry.py and base.py: the checks on a pipeline configuration, and the runner.
-- The registry of implementations is an argument, since the stages fill it when they are imported;
-- a stage itself is any function on the conversation's context.
mod Tests
pub mod Order
pub mod Lineage
use voclyp_dev.Prelude.{
  ℕ, zero, suc, ◌+◌, String, Bool, true, false, not, ◌&&◌, ◌||◌, Option, none, some, List, [], ◌∷◌,
  map, if◌then◌else◌, leb, ◌==◌, str_eq, length, member, add, insert,
}

-- one entry of `stages` in the configuration
pub record StageSpec : Type 0 where
  pub role : String
  pub impl : String

pub data ConfigError : Type 0 where
  unknown_stage duplicate_roles privacy_order : ConfigError
  missing_role : String → ConfigError

-- `REQUIRED_ROLES`, and the same roles as `_PRIVACY_ORDER`
abbrev pub required_roles : List String
required_roles =
    "asr" ∷ "pii_redaction" ∷ "audio_deletion" ∷ "signal_extraction" ∷ "summarization" ∷ []

-- `(role, impl) in _REGISTRY`
abbrev pub registered : List StageSpec → StageSpec → Bool
registered [] spec = false
registered (r ∷ rs) spec =
    (str_eq r.role spec.role && str_eq r.impl spec.impl) || registered rs spec

abbrev all_registered : List StageSpec → List StageSpec → Bool
all_registered registry [] = true
all_registered registry (s ∷ specs) = registered registry s && all_registered registry specs

-- `set(roles)`
distinct : List String → List String
distinct [] = []
distinct (r ∷ roles) = add r (distinct roles)

-- the first required role that is not there
missing : List String → List String → Option String
missing [] roles = none
missing (r ∷ required) roles = if member r roles then missing required roles else some r

-- `roles.index(r)`, where `r` is one of the roles
abbrev pub index : String → List String → ℕ
index r [] = 0
index r (x ∷ roles) = if str_eq x r then 0 else suc (index r roles)

-- `[roles.index(r) for r in _PRIVACY_ORDER if r in roles]`
positions : List String → List String → List ℕ
positions [] roles = []
positions (r ∷ order) roles =
    if member r roles then index r roles ∷ positions order roles else positions order roles

-- `sorted`
insert_sorted : ℕ → List ℕ → List ℕ
insert_sorted n [] = n ∷ []
insert_sorted n (m ∷ l) = if leb n m then n ∷ m ∷ l else m ∷ insert_sorted n l

sorted : List ℕ → List ℕ
sorted [] = []
sorted (n ∷ l) = insert_sorted n (sorted l)

same_list : List ℕ → List ℕ → Bool
same_list [] [] = true
same_list (a ∷ l) (b ∷ m) = (a == b) && same_list l m
same_list _ _ = false

check_order : List String → Option ConfigError
check_order roles =
    let at = positions required_roles roles in
    if same_list at (sorted at) then none else some privacy_order

check_required : Option String → List String → Option ConfigError
check_required (some r) roles = some (missing_role r)
check_required none roles = check_order roles

-- the checks on the list of roles, below the one on the registry
check_roles : List String → Option ConfigError
check_roles roles =
    if length (distinct roles) == length roles
    then check_required (missing required_roles roles) roles
    else some duplicate_roles

-- `none` is the return of `validate_pipeline_config`, an error what it raises
pub validate_pipeline_config : List StageSpec → List StageSpec → Option ConfigError
unfolding check_roles check_required check_order missing positions sorted insert_sorted same_list
    distinct
validate_pipeline_config registry specs =
    if all_registered registry specs
    then check_roles (map StageSpec.role specs)
    else some unknown_stage

-- `Stage`: its name, its version, and what `run` makes of the context
pub record Stage {ℓ} (Ctx : Type ℓ) : Type ℓ where
  pub name : String
  pub version : String
  pub run : Ctx → Ctx

pub data Built {ℓ} (A : Type ℓ) : Type ℓ where
  built : A → Built A
  refused : ConfigError → Built A

module _ {ℓ} {Ctx : Type ℓ} where
  -- `factory` looks an implementation up in the registry and makes the stage
  pub build_pipeline :
      List StageSpec → (StageSpec → Stage Ctx) → List StageSpec → Built (List (Stage Ctx))
  build_pipeline registry factory specs = elim (validate_pipeline_config registry specs) [
    | none ↦ built (map factory specs)
    | some e ↦ refused e
  ]

  -- `PipelineRunner.run`, on the context and its `stage_versions`; the timings are not modelled
  unfoldable pub run_pipeline :
      List (Stage Ctx) → Ctx × List (String × String) → Ctx × List (String × String)
  run_pipeline [] state = state
  run_pipeline (stage ∷ stages) (ctx, versions) =
      run_pipeline stages (stage.run ctx, insert stage.name stage.version versions)
