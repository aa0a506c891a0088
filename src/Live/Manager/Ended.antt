-- ===== src/Live/Manager/Ended.antt =====
-- A visit that has ended (voclyp/live/session.py, `complete`).
use voclyp_dev.Prelude.{
  ℕ, String, ◌≡◌, refl, sym, ap, ◌∙◌, subst, inl, inr, Option-cases, true, false, ◌&&◌, Option,
  none, some, arith, str_eq, eq_iff, find-holds, Text, length, ltb, is_some,
}
use voclyp_dev.Ingestion.Tables.{Intake}
use voclyp_dev.Ingestion.{Settings, Call, Result, ok, err, submit}
use voclyp_dev.Ingestion.Again.{submit-consented}
use voclyp_dev.Live.{
  Session, Visits, Status, identity, active, processing, complete, at, get_live_session,
  set_live_session_status, with_status, list_session_chunks,
}
use voclyp_dev.Live.Manager.{
  State, Recognizer, Paths, queued, not_completable, complete_session, end_session, submitted,
  completable, metadata_of, audio_or, read_chunks,
}
use voclyp_dev.Live.Manager.Entities.{find-updated}

with_status-at :
    (now : ℕ) (status : Status) (id : String) (t i : String) (x : Session)
    → at t i (with_status now status false (some id) x) ≡ at t i x
with_status-at now identity id t i x = ground arith
with_status-at now active id t i x = ground arith
with_status-at now processing id t i x = ground arith
with_status-at now complete id t i x = ground arith

with_status-status :
    (now : ℕ) (o : Option String) (x : Session)
    → (with_status now processing false o x).status ≡ processing
with_status-status now none x = refl
with_status-status now (some id) x = ground arith

set-processing :
    (now : ℕ) (t id cid : String) (v : Visits) (x : Session)
    → get_live_session t id v ≡ some x
    → get_live_session t id (set_live_session_status now t id processing false (some cid) v)
      ≡ some (with_status now processing false (some cid) x)
unfolding get_live_session set_live_session_status
set-processing now t id cid v x there =
    find-updated (at t id) (with_status now processing false (some cid)) v.sessions
      (λ y. with_status-at now processing cid t id y)
    ∙ rw there refl

module _ {Asr : Type 0} (r : Recognizer Asr) (paths : Paths) where
  -- The visit was there, waiting to be ended, with consent, and with enough audio; it now is being
  -- processed.
  pub record Ended (t id : String) (s s' : State Asr) : Type 0 where
    pub session : Session
    pub there : get_live_session t id s.visits ≡ some session
    pub waited : completable session.status ≡ true
    pub consented : is_some session.consent_at ≡ true
    pub after : Session
    pub ended : get_live_session t id s'.visits ≡ some after
    pub is_processed : after.status ≡ processing

  submitted-queued :
      (now : ℕ) (t id : String) (res : Result) (s s' : State Asr) (cid : String)
      → submitted r paths now t id res s ≡ (s', queued cid)
      → (intake : Intake) × (res ≡ ok intake cid)
        × (s'.visits ≡ set_live_session_status now t id processing false (some cid) s.visits)
  unfolding submitted
  submitted-queued now t id (err e) s s' cid h = cc (ap (λ p. p.1) h)
  submitted-queued now t id (ok intake c) s s' cid h =
      let own : c ≡ cid = cc (ap (λ p. p.1) h) in
      (intake, rw own refl, sym (ap (λ p. p.0.visits) h) ∙ rw own refl)

  end_session-Ended :
      (settings : Settings) (call : Call) (t id : String) (audio : Text) (x : Session)
      (s s' : State Asr) (cid : String)
      → get_live_session t id s.visits ≡ some x
      → end_session r paths settings call t audio (some x) s ≡ (s', queued cid)
      → Ended t id s s'
  unfolding end_session
  end_session-Ended settings call t id audio x s s' cid there h =
      let waited : completable x.status ≡ true = ground arith in
      let bytes =
        audio_or paths audio
          (read_chunks (list_session_chunks t x.session_id s.visits) s.intake.files) in
      let long : ltb (length bytes) 8000 ≡ false = ground arith in
      let (intake, sent, made) =
        submitted-queued call.now t x.session_id
          (submit settings call t bytes (metadata_of paths x) s.intake) s s' cid (ground arith) in
      let own : str_eq x.tenant_id t && str_eq x.session_id id ≡ true =
        find-holds (at t id) s.visits.sessions {x = x} (unfold get_live_session in there) in
      let own_id : x.session_id ≡ id = ground (arith, own, eq_iff x.session_id id) in
      record {
        session = x;
        there = there;
        waited = waited;
        consented =
            submit-consented settings call t bytes (metadata_of paths x) s.intake intake cid sent;
        after = with_status call.now processing false (some cid) x;
        ended =
            ap (get_live_session t id) made
            ∙ subst
                (λ i.
                  get_live_session t id
                    (set_live_session_status call.now t i processing false (some cid) s.visits)
                  ≡ some (with_status call.now processing false (some cid) x))
                (sym own_id) (set-processing call.now t id cid s.visits x there);
        is_processed = with_status-status call.now (some cid) x;
      }

  -- A visit whose end was accepted had the customer's consent.
  pub complete_session-Ended :
      (settings : Settings) (call : Call) (t id : String) (audio : Text) (s s' : State Asr)
      (cid : String)
      → complete_session r paths settings call t id audio s ≡ (s', queued cid)
      → Ended t id s s'
  unfolding complete_session end_session submitted
  complete_session-Ended settings call t id audio s s' cid h =
      elim (Option-cases (get_live_session t id s.visits)) [
        | inl gone ↦ ground (arith, gone)
        | inr (x, there) ↦
            end_session-Ended settings call t id audio x s s' cid there
              (rw (complete_session, there) at h)
      ]

  -- A visit whose end was accepted is not ended again, whatever the call: that raises, and changes
  -- nothing.
  pub complete_session-again :
      (settings settings' : Settings) (call call' : Call) (t id : String) (audio audio' : Text)
      (s s' : State Asr) (cid : String)
      → complete_session r paths settings call t id audio s ≡ (s', queued cid)
      → complete_session r paths settings' call' t id audio' s' ≡ (s', not_completable processing)
  unfolding complete_session end_session
  complete_session-again settings settings' call call' t id audio audio' s s' cid h =
      let e = complete_session-Ended settings call t id audio s s' cid h in
      rw (e.ended, e.is_processed) refl
