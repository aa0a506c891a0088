-- ===== src/Enterprise/Routing/Payloads.antt =====
-- The payloads of voclyp/enterprise/routing/dispatcher.py (`_build_payloads`, `_summarize`,
-- `_whatsapp_body`) and the idempotency key. The digest, the JSON text of a payload and the digits
-- of a number come from Python's library and are arguments.
use voclyp_dev.Prelude.{ℕ, zero, suc, String, Bool, List, [], ◌∷◌, ◌++◌, take, Text, codes}
pub use voclyp_dev.Enterprise.Extraction.{Extraction}
use voclyp_dev.Enterprise.Routing.{Channel, push, whatsapp, zoho, Payload, lead, message, notice}

-- `sep.join(parts)`
abbrev join_with : Text → List Text → Text
join_with sep [] = []
join_with sep (p ∷ []) = p
join_with sep (p ∷ q ∷ ps) = p ++ (sep ++ join_with sep (q ∷ ps))

-- `if items: bits.append(f"{label}{', '.join(items)}")`
listed : Text → List Text → List Text
listed label [] = []
listed label (i ∷ items) = (label ++ join_with (codes ", ") (i ∷ items)) ∷ []

emi_bit : (ℕ → Text) → ℕ → List Text
emi_bit digits zero = []
emi_bit digits (suc n) = (codes "EMI mentioned (" ++ (digits (suc n) ++ codes ") — verify")) ∷ []

next_bit : Text → List Text
next_bit [] = []
next_bit (c ∷ action) = (codes "Next: " ++ (c ∷ action)) ∷ []

-- `text or default`
abbrev pub or_text : Text → Text → Text
or_text [] default = default
or_text (c ∷ text) default = c ∷ text

pub summarize : (ℕ → Text) → Extraction → Text
unfolding listed emi_bit next_bit
summarize digits e =
    or_text
      (join_with (codes " | ") (
        listed (codes "Posture: ") e.posture_issues
        ++ (listed (codes "Objections: ") e.pricing_objections
            ++ (listed (codes "Competitors: ") e.competitor_mentions
                ++ (emi_bit digits e.emi_commitments ++ next_bit e.action)))))
      (codes "Showroom conversation processed.")

pub whatsapp_body : Extraction → Text
whatsapp_body e =
    take 300 (or_text e.talking_point (or_text e.action (codes "Thank you for visiting!")))

-- `_build_payloads`, in the order of its dict
unfoldable pub build_payloads :
    (ℕ → Text) → String → String → Extraction → Bool → List (Channel × Payload)
unfolding summarize whatsapp_body
build_payloads digits conversation_id agent_id e requires_verification =
    (zoho, lead conversation_id (summarize digits e))
    ∷ (whatsapp, message conversation_id [] (whatsapp_body e) requires_verification)
    ∷ (push, notice conversation_id agent_id requires_verification (take 240 (summarize digits e)))
    ∷ []

abbrev pub channel_text : Channel → Text
channel_text push = codes "push"
channel_text whatsapp = codes "whatsapp"
channel_text zoho = codes "zoho"

pub idempotency_key : (Text → Text) → (Payload → Text) → String → Channel → Payload → Text
idempotency_key sha256 canonical conversation_id channel payload =
    sha256
      (codes conversation_id ++ (31 ∷ (channel_text channel ++ (31 ∷ sha256 (canonical payload)))))
