-- ===== src/Enterprise/Extraction/Worker.antt =====
-- `BedrockExtractor.handle` (voclyp/enterprise/extraction/bedrock_worker.py), and `update_fields`
-- of the store on one row.
use voclyp_dev.Prelude.{
  ℕ, suc, String, Bool, true, false, ◌||◌, Option, none, some, [], ◌∷◌, if◌then◌else◌, ltb, Text,
}
use voclyp_dev.Enterprise.States.{extracting}
use voclyp_dev.Enterprise.Extraction.{Extraction}
use voclyp_dev.Enterprise.Conversations.{
  Conversation, extraction_failed, Schemas, Outcome, updated, illegal_transition, get_conversation,
  set_state, update_fields,
}

-- the event `insight.extracted`
pub record InsightExtracted : Type 0 where
  pub conversation_id : String
  pub tenant_id : String
  pub requires_human_verification : Bool

-- a call of the handler: an illegal transition is raised, all other exceptions are caught
pub data Handled : Type 0 where
  raised : Handled
  done : Schemas → Option InsightExtracted → Handled

-- `a or b`
abbrev or_else_text : Option Text → Text → Text
or_else_text none b = b
or_else_text (some []) b = b
or_else_text (some (c ∷ a)) b = c ∷ a

-- `transcript_english or transcript_codemix or ""`
abbrev pub transcript_of : Conversation → Text
transcript_of c = or_else_text c.transcript_english (or_else_text c.transcript_codemix [])

abbrev has_any : ℕ → Bool
has_any ℕ.zero = false
has_any (suc n) = true

-- `bool(emi_commitments) or confidence < confidence_threshold`
unfoldable pub requires_verification : ℕ → Extraction → Bool
requires_verification threshold e = has_any e.emi_commitments || ltb e.overall_confidence threshold

abbrev pub with_extraction : ℕ → Extraction → Conversation → Conversation
with_extraction threshold e c = record c {
  extraction = some e;
  extraction_confidence = some e.overall_confidence;
  requires_human_verification = requires_verification threshold e;
}

-- `extract` gives `none` where it raises, with the text of the exception beside it
module _ (now threshold : ℕ) (extract : Text → Option Extraction) (failure : Text)
    (bus_raises : Bool) where
  abbrev pub failed : String → Schemas → Schemas
  failed id s = update_fields now id (λ c. record c { error_detail = extraction_failed failure }) s

  -- the body of the `try`
  unfoldable pub attempt : String → Conversation → Schemas → Option Extraction → Handled
  attempt id conv s none = done (failed id s) none
  attempt id conv s (some e) =
      let s' = update_fields now id (with_extraction threshold e) s in
      if bus_raises
      then done (failed id s') none
      else done s' (
          some (record {
            conversation_id = id;
            tenant_id = conv.tenant_id;
            requires_human_verification = requires_verification threshold e;
          }))

  unfoldable pub from_state : String → Conversation → Outcome → Handled
  unfolding attempt
  from_state id conv illegal_transition = raised
  from_state id conv (updated s) = attempt id conv s (extract (transcript_of conv))

  -- `handle(event)` for the event's conversation
  unfoldable pub handle_transcript : String → Schemas → Handled
  unfolding from_state
  handle_transcript conversation_id schemas = elim (get_conversation conversation_id schemas) [
    | none ↦ done schemas none
    | some conv ↦
        from_state conversation_id conv (set_state now conversation_id extracting (λ c. c) schemas)
  ]
