-- ===== src/Enterprise/States.antt =====
-- The conversation state machine of voclyp/enterprise/store.py.
use voclyp_dev.Prelude.{
  ◌≡◌, refl, ap, ◌∙◌, ◌⊎◌, inl, inr, Bool, true, false, ◌||◌, List, [], ◌∷◌, arith,
}

-- `CONVERSATION_STATES`
pub data State : Type 0 where
  consent_logged audio_uploaded transcribing extracting dispatching purged error_purged : State

-- `old == new`
pub same_state : State → State → Bool
same_state consent_logged consent_logged = true
same_state audio_uploaded audio_uploaded = true
same_state transcribing transcribing = true
same_state extracting extracting = true
same_state dispatching dispatching = true
same_state purged purged = true
same_state error_purged error_purged = true
same_state _ _ = false

-- `new in ALLOWED_TRANSITIONS.get(old)`
pub allowed : State → State → Bool
allowed consent_logged audio_uploaded = true
allowed consent_logged error_purged = true
allowed audio_uploaded transcribing = true
allowed audio_uploaded error_purged = true
allowed transcribing extracting = true
allowed transcribing error_purged = true
allowed extracting dispatching = true
allowed extracting error_purged = true
allowed dispatching purged = true
allowed dispatching error_purged = true
allowed _ _ = false

-- `TERMINAL_STATES`, which the SQL spells `state IN ('purged','error_purged')`
abbrev pub terminal : State → Bool
terminal purged = true
terminal error_purged = true
terminal _ = false

-- `assert_transition` returns exactly if this holds; else it raises IllegalTransition
unfoldable pub legal : State → State → Bool
unfolding same_state allowed
legal old new = same_state old new || allowed old new

-- A history of states in which each is legal after the one before, and differs from it.
abbrev pub IsHistory : State → List State → Type 0
IsHistory s [] = Unit
IsHistory s (t ∷ rest) = (legal s t ≡ true) × (same_state s t ≡ false) × IsHistory t rest

abbrev pub final : State → List State → State
final s [] = s
final s (t ∷ rest) = final t rest

-- A terminal state is never left.
pub terminal-legal : (s t : State) → terminal s ≡ true → legal s t ≡ true → t ≡ s
unfolding legal
terminal-legal s t h k = ground arith

no_step : (s t : State) → terminal s ≡ true → legal s t ≡ true → same_state s t ≡ false → ⊥
unfolding legal
no_step s t h k n = ground arith

terminal-history :
    (s : State) (rest : List State) → terminal s ≡ true → IsHistory s rest → rest ≡ []
terminal-history s [] h k = refl
terminal-history s (t ∷ rest) h k = absurd (no_step s t h k.0 k.1)

-- The states that are ahead of a state on the way to `purged`.
ladder : State → List State
ladder consent_logged = audio_uploaded ∷ transcribing ∷ extracting ∷ dispatching ∷ purged ∷ []
ladder audio_uploaded = transcribing ∷ extracting ∷ dispatching ∷ purged ∷ []
ladder transcribing = extracting ∷ dispatching ∷ purged ∷ []
ladder extracting = dispatching ∷ purged ∷ []
ladder dispatching = purged ∷ []
ladder _ = []

ladder-step :
    (s t : State)
    → legal s t ≡ true
    → same_state s t ≡ false
    → (t ≡ error_purged) ⊎ (t ∷ ladder t ≡ ladder s)
unfolding legal ladder
ladder-step s t h n = ground arith

ladder-history :
    (s : State) (rest : List State) → IsHistory s rest → final s rest ≡ purged → rest ≡ ladder s
ladder-history s [] h e = rw e (unfold ladder in refl)
ladder-history s (t ∷ rest) h e = elim (ladder-step s t h.0 h.1) [
  | inl failed ↦
      let stuck : rest ≡ [] = terminal-history t rest (rw failed refl) h.2 in
      absurd (cc (rw (stuck, failed) at e))
  | inr step ↦ ap (λ l. t ∷ l) (ladder-history t rest h.2 e) ∙ step
]

-- A history of legal state changes from `consent_logged` that ends as `purged` went through every
-- stage of the ladder, in order and once.
pub purged_history :
    (rest : List State)
    → IsHistory consent_logged rest
    → final consent_logged rest ≡ purged
    → rest ≡ audio_uploaded ∷ transcribing ∷ extracting ∷ dispatching ∷ purged ∷ []
unfolding ladder
purged_history rest h e = ladder-history consent_logged rest h e
