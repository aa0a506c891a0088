-- ===== src/Insights/View.antt =====
-- The insights table as a map (voclyp/store.py): what a sequence of writes leaves to be read.
use mathlib.Core.Path.{fun_ext}
use voclyp_dev.Prelude.{
  ℕ, String, ◌≡◌, refl, ap, ◌∙◌, Option, none, some, List, [], ◌∷◌, arith, if◌then◌else◌, eq_iff,
  find, delete,
}
use voclyp_dev.Prelude.Keys.{find-append}
use voclyp_dev.Contracts.Insight.{Insight}
use voclyp_dev.Insights.{
  Ledger, Row, row_of, insight_row, put_row, body_of, save_insight, get_insight,
  delete_conversation, save_insight_with_event,
}
use voclyp_dev.Insights.Numbering.{same_resource}
use voclyp_dev.Webhooks.{Event}

-- The writes of the store.
pub data Write : Type 0 where
  save : String → String → Insight → Write
  save_with_event : ℕ → String → String → String → String → String → Insight → Write
  remove : String → String → Write

pub apply : Write → Ledger → Ledger
apply (save t c doc) s = save_insight t c doc s
apply (save_with_event now id type status t c doc) s =
    save_insight_with_event now id type status t c doc s
apply (remove t c) s = (delete_conversation t c s).0

pub apply_all : List Write → Ledger → Ledger
apply_all [] s = s
apply_all (w ∷ writes) s = apply_all writes (apply w s)

-- The abstract store: a map from tenants and conversations to insights.
abbrev pub View : Type 0
View = String → String → Option Insight

abbrev pub assign : String → String → Option Insight → View → View
assign t c o v = λ t' c'. if same_resource t c t' c' then o else v t' c'

abbrev pub meant : Write → View → View
meant (save t c doc) v = assign t c (some doc) v
meant (save_with_event now id type status t c doc) v = assign t c (some doc) v
meant (remove t c) v = assign t c none v

abbrev pub meant_all : List Write → View → View
meant_all [] v = v
meant_all (w ∷ writes) v = meant_all writes (meant w v)

find-deleted :
    (t c t' c' : String) (rows : List Row)
    → find (row_of t' c') (delete (row_of t c) rows)
      ≡ (if same_resource t c t' c' then none else find (row_of t' c') rows)
find-deleted t c t' c' [] = ground arith
find-deleted t c t' c' (x ∷ rows) = ground (
  arith,
  eq_iff t t',
  eq_iff c c',
  eq_iff x.tenant_id t,
  eq_iff x.conversation_id c,
  eq_iff x.tenant_id t',
  eq_iff x.conversation_id c',
  find-deleted t c t' c' rows,
)

find-put_row :
    (t c t' c' : String) (doc : Insight) (rows : List Row)
    → body_of (find (row_of t' c') (put_row t c doc rows))
      ≡ (if same_resource t c t' c' then some doc else body_of (find (row_of t' c') rows))
unfolding put_row insight_row body_of
find-put_row t c t' c' doc rows = ground (
  arith,
  find-append (row_of t' c') (delete (row_of t c) rows) (insight_row t c doc),
  find-deleted t c t' c' rows,
  eq_iff t t',
  eq_iff c c',
)

apply-meant :
    (w : Write) (s : Ledger) (t' c' : String)
    → get_insight t' c' (apply w s) ≡ meant w (λ t c. get_insight t c s) t' c'
unfolding apply get_insight save_insight delete_conversation save_insight_with_event
apply-meant (save t c doc) s t' c' = find-put_row t c t' c' doc s.insights
apply-meant (save_with_event now id type status t c doc) s t' c' =
    find-put_row t c t' c' doc s.insights
apply-meant (remove t c) s t' c' =
    ap body_of (find-deleted t c t' c' s.insights) ∙ unfold body_of in ground arith

-- The table refines the map: after any sequence of writes, saved with their events or without, and
-- deletions, what is read for each conversation of each tenant is what the map holds after them.
pub apply_all-meant_all :
    (writes : List Write) (s : Ledger) (t c : String)
    → get_insight t c (apply_all writes s) ≡ meant_all writes (λ t c. get_insight t c s) t c
unfolding apply_all
apply_all-meant_all [] s t c = refl
apply_all-meant_all (w ∷ writes) s t c =
    apply_all-meant_all writes (apply w s) t c
    ∙ ap (λ v. meant_all writes v t c) (fun_ext (λ t'. fun_ext (λ c'. apply-meant w s t' c')))

-- What was saved with its event is what is read.
pub get_insight-saved :
    (now : ℕ) (id type status t c : String) (doc : Insight) (s : Ledger)
    → get_insight t c (save_insight_with_event now id type status t c doc s) ≡ some doc
unfolding get_insight save_insight_with_event
get_insight-saved now id type status t c doc s =
    find-put_row t c t c doc s.insights ∙ ground (arith, eq_iff t t, eq_iff c c)

-- The outbox is not read.
pub get_insight-outbox :
    (t c : String) (s : Ledger) (outbox : List Event)
    → get_insight t c (record s { outbox = outbox }) ≡ get_insight t c s
unfolding get_insight
get_insight-outbox t c s outbox = refl
