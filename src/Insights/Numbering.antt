-- ===== src/Insights/Numbering.antt =====
-- The sequence numbers of a resource's events (voclyp/store.py, `save_insight_with_event`).
use mathlib.Core.Option
use voclyp_dev.Prelude.{
  ℕ, zero, suc, ◌+◌, String, ◌≡◌, refl, ◌∙◌, inl, inr, Bool, Bool-cases, Option-cases, ◌&&◌, List,
  [], ◌∷◌, ◌++◌, arith, if◌then◌else◌, str_eq, eq_iff, find, select, update, map, select-append,
}
use voclyp_dev.Prelude.Keys.{find-append}
use voclyp_dev.Contracts.Insight.{Insight}
use voclyp_dev.Webhooks.{Event}
use voclyp_dev.Insights.{
  Ledger, init, Sequence, sequence_of, bump_sequence, seq_in, seq_of, save_insight,
  delete_conversation, save_insight_with_event,
}

-- The same resource of the same tenant.
abbrev pub same_resource : String → String → String → String → Bool
same_resource t r t' r' = str_eq t t' && str_eq r r'

abbrev pub event_of : String → String → Event → Bool
event_of t r e = str_eq e.tenant_id t && str_eq e.resource_id r

-- 1, 2, …, n
abbrev pub up_to : ℕ → List ℕ
up_to zero = []
up_to (suc n) = up_to n ++ suc n ∷ []

find-bumped :
    (t r t' r' : String) (rows : List Sequence)
    → find (sequence_of t' r') (update (sequence_of t r) (λ x. record x { seq = x.seq + 1 }) rows)
      ≡ (if same_resource t r t' r'
          then Option.map
              (λ (x : Sequence). record x { seq = x.seq + 1 })
              (find (sequence_of t' r') rows)
          else find (sequence_of t' r') rows)
find-bumped t r t' r' [] = ground arith
find-bumped t r t' r' (x ∷ rows) = ground (
  arith,
  eq_iff t t',
  eq_iff r r',
  eq_iff x.tenant_id t,
  eq_iff x.resource_id r,
  eq_iff x.tenant_id t',
  eq_iff x.resource_id r',
  find-bumped t r t' r' rows,
)

-- A bump counts its own resource up by one, from 0 where it had no number, and no other.
seq_of-bump_sequence :
    (t r t' r' : String) (rows : List Sequence)
    → seq_of t' r' (bump_sequence t r rows)
      ≡ (if same_resource t r t' r' then suc (seq_of t' r' rows) else seq_of t' r' rows)
unfolding seq_of bump_sequence seq_in
seq_of-bump_sequence t r t' r' rows = elim (Option-cases (find (sequence_of t r) rows)) [
  | inr (x, old) ↦ ground (arith, old, find-bumped t r t' r' rows, eq_iff t t', eq_iff r r')
  | inl new ↦ ground (
    arith,
    new,
    eq_iff t t',
    eq_iff r r',
    find-append (sequence_of t' r') rows (record { tenant_id = t; resource_id = r; seq = 1 }),
  )
]

-- One call that writes insights.
pub data Step : Ledger → Ledger → Type 0 where
  saved_with_event :
      (now : ℕ) (event_id event_type status t r : String) (doc : Insight) (s : Ledger)
      → Step s (save_insight_with_event now event_id event_type status t r doc s)
  saved : (t r : String) (doc : Insight) (s : Ledger) → Step s (save_insight t r doc s)
  deleted : (t r : String) (s : Ledger) → Step s (delete_conversation t r s).0

pub data Reach (s : Ledger) : Ledger → Type 0 where
  here : Reach s s
  next : {a b : Ledger} → Reach s a → Step a b → Reach s b

-- The numbers of the events of each resource, in the order in which they were emitted.
abbrev pub numbers : String → String → Ledger → List ℕ
numbers t r s = map Event.sequence (select (event_of t r) s.outbox)

map-append_one :
    (es : List Event) (e : Event)
    → map Event.sequence (es ++ e ∷ []) ≡ map Event.sequence es ++ e.sequence ∷ []
map-append_one [] e = refl
map-append_one (x ∷ es) e = cc (map-append_one es e)

numbers-append :
    (p : Event → Bool) (es : List Event) (e : Event)
    → map Event.sequence (select p (es ++ e ∷ [])) ≡ (
        if p e
        then map Event.sequence (select p es) ++ e.sequence ∷ []
        else map Event.sequence (select p es))
numbers-append p es e = elim (Bool-cases (p e)) [
  | inl t ↦ rw (select-append, t) (map-append_one (select p es) e)
  | inr t ↦ rw (select-append, t) refl
]

numbers-saved :
    (now : ℕ) (event_id event_type status t r t' r' : String) (doc : Insight) (s : Ledger)
    → numbers t' r' (save_insight_with_event now event_id event_type status t r doc s) ≡ (
        if same_resource t r t' r'
        then numbers t' r' s ++ seq_of t r (bump_sequence t r s.sequences) ∷ []
        else numbers t' r' s)
unfolding save_insight_with_event
numbers-saved now event_id event_type status t r t' r' doc s =
    numbers-append (event_of t' r') s.outbox _

Step-numbers :
    {a b : Ledger} (t' r' : String)
    → Step a b
    → numbers t' r' a ≡ up_to (seq_of t' r' a.sequences)
    → numbers t' r' b ≡ up_to (seq_of t' r' b.sequences)
unfolding save_insight delete_conversation
Step-numbers t' r' (saved t r doc s) h = h
Step-numbers t' r' (deleted t r s) h = h
Step-numbers t' r' (saved_with_event now event_id event_type status t r doc s) h =
    numbers-saved now event_id event_type status t r t' r' doc s
    ∙ unfold save_insight_with_event in
      ground (
        arith,
        h,
        eq_iff t t',
        eq_iff r r',
        seq_of-bump_sequence t r t' r' s.sequences,
        seq_of-bump_sequence t r t r s.sequences,
        eq_iff t t,
        eq_iff r r,
      )

-- After any calls, the events of each resource carry the numbers 1, 2, 3, … in the order in which
-- they were emitted, without a gap or a repetition, up to the number that the table holds.
pub Reach-numbers :
    {s : Ledger} (t r : String) → Reach init s → numbers t r s ≡ up_to (seq_of t r s.sequences)
unfolding seq_of seq_in
Reach-numbers t r here = refl
Reach-numbers t r (next reach st) = Step-numbers t r st (Reach-numbers t r reach)
