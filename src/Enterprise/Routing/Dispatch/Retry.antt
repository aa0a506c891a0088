-- ===== src/Enterprise/Routing/Dispatch/Retry.antt =====
-- No route is retried for ever (voclyp/enterprise/routing/dispatcher.py, `_deliver_one`).
use voclyp_dev.Prelude.{
  ℕ, ◌+◌, ◌≤◌, ◌<◌, String, ◌≡◌, refl, sym, ◌∙◌, inl, inr, Bool-cases, true, false, Option, none,
  some, List, [], ◌∷◌, ◌++◌, arith, if◌then◌else◌, ltb, eq_iff, find, Text, find-holds, subst,
  length,
}
use voclyp_dev.Prelude.Keys.{with_key, find-update_by, find-delete_by}
use voclyp_dev.Enterprise.Routing.{
  delivering, delivered, skipped, Row, Failed, Tables, Payload, retried, update_routing,
  move_to_dlq, dead_row,
}
use voclyp_dev.Enterprise.Routing.Dispatch.{
  World, Reply, accepted, refused, raised, unsent, sent, with_client, deliver_one,
}

-- The row of an id.
abbrev pub row_of : String → Tables → Option Row
row_of id t = find (with_key Row.id id) t.outbox

-- The row of the id, if it is still to be tried, is delivered once.
pub attempt_route : World → ℕ → String → Tables → Tables
attempt_route w now id t = elim (row_of id t) [
  | none ↦ t
  | some row ↦ if retried row.status then deliver_one w now row t else t
]

-- One attempt for each time in the list; the clients may answer differently in each.
pub attempts_at : List (World × ℕ) → String → Tables → Tables
attempts_at [] id t = t
attempts_at ((w, now) ∷ rounds) id t = attempts_at rounds id (attempt_route w now id t)

-- The route needs no more attempts: it was delivered, it has no client, or it has left the outbox
-- and the dead-letter table holds its conversation and channel.
pub data Finished (r : Row) (id : String) (t : Tables) : Type 0 where
  was_delivered : (x : Row) → row_of id t ≡ some x → x.status ≡ delivered → Finished r id t
  was_skipped : (x : Row) → row_of id t ≡ some x → x.status ≡ skipped → Finished r id t
  was_dead_lettered :
      (f : Failed) (before : List Failed)
      → row_of id t ≡ none
      → t.dead ≡ before ++ f ∷ []
      → f.conversation_id ≡ r.conversation_id
      → f.channel ≡ r.channel
      → r.max_attempts < f.attempts
      → Finished r id t

row_of-update :
    (now : ℕ) (id : String) (fields : Row → Row) (t : Tables) (row : Row)
    → ((r : Row) → (fields r).id ≡ r.id)
    → row_of id t ≡ some row
    → row_of id (update_routing now id fields t)
      ≡ some (let r' = fields row in record r' { updated_at = now })
unfolding update_routing
row_of-update now id fields t row same h = ground (
  arith,
  eq_iff id id,
  find-update_by Row.id id id (λ r. let r' = fields r in record r' { updated_at = now }) t.outbox
      same,
)

-- What one attempt leads to: the end, or one attempt more behind the same route.
data After (r : Row) (id : String) (t : Tables) : Type 0 where
  ended : Finished r id t → After r id t
  again :
      (x : Row)
      → row_of id t ≡ some x
      → retried x.status ≡ true
      → x.attempts ≡ r.attempts + 1
      → x.attempts ≤ x.max_attempts
      → x.max_attempts ≡ r.max_attempts
      → x.conversation_id ≡ r.conversation_id
      → x.channel ≡ r.channel
      → After r id t

module _ (w : World) (now : ℕ) (r : Row) (t : Tables) (there : row_of r.id t ≡ some r) where
  abbrev taken : Tables
  taken = update_routing now r.id (λ x. record x { status = delivering }) t

  abbrev taken_row : Row
  taken_row = record r { status = delivering; updated_at = now }

  row_of-taken : row_of r.id taken ≡ some taken_row
  row_of-taken =
      row_of-update now r.id (λ x. record x { status = delivering }) t r (λ x. refl) there

  After-move_to_dlq :
      (n : ℕ) (reason : Text) (dlq_id : String)
      → r.max_attempts < n
      → Finished r r.id (move_to_dlq now dlq_id r.id n reason taken)
  unfolding move_to_dlq dead_row
  After-move_to_dlq n reason dlq_id h =
      was_dead_lettered (dead_row now dlq_id n reason taken_row) taken.dead
        (rw (move_to_dlq, row_of-taken)
          (find-delete_by Row.id r.id r.id taken.outbox ∙ rw ((eq_iff r.id r.id).1 refl) refl))
        (rw (move_to_dlq, row_of-taken) refl) refl refl h

  After-unsent :
      (detail : Option Text) → After r r.id (unsent w now r (r.attempts + 1) detail taken)
  unfolding unsent
  After-unsent detail = elim (Bool-cases (ltb r.max_attempts (r.attempts + 1))) [
    | inl over ↦ rw over (ended (After-move_to_dlq (r.attempts + 1) _ _ (ground arith)))
    | inr more ↦ rw more (
        again _ (row_of-update now r.id _ taken taken_row (λ x. refl) row_of-taken) refl refl
          (ground arith) refl refl refl)
  ]

  After-sent : (reply : Reply) → After r r.id (sent w now r (r.attempts + 1) reply taken)
  unfolding sent
  After-sent (accepted response detail) =
      ended
        (was_delivered _ (row_of-update now r.id _ taken taken_row (λ x. refl) row_of-taken) refl)
  After-sent (refused detail) = After-unsent detail
  After-sent (raised name) = After-unsent (some name)

  After-with_client : (o : Option (Payload → Text → Reply)) → After r r.id (with_client w now r o t)
  unfolding with_client
  After-with_client none =
      ended (was_skipped _ (row_of-update now r.id _ t r (λ x. refl) there) refl)
  After-with_client (some send) = After-sent (send r.payload _)

  After-deliver_one : After r r.id (deliver_one w now r t)
  unfolding deliver_one
  After-deliver_one = After-with_client (w.clients r.channel)

idle :
    (w : World) (now : ℕ) (id : String) (t : Tables) (x : Row)
    → row_of id t ≡ some x
    → retried x.status ≡ false
    → attempt_route w now id t ≡ t
unfolding attempt_route
idle w now id t x h e = rw (attempt_route, h, e) refl

Finished-attempt_route :
    (w : World) (now : ℕ) (r : Row) (id : String) (t : Tables)
    → Finished r id t
    → attempt_route w now id t ≡ t
unfolding attempt_route
Finished-attempt_route w now r id t (was_delivered x h e) = idle w now id t x h (rw e refl)
Finished-attempt_route w now r id t (was_skipped x h e) = idle w now id t x h (rw e refl)
Finished-attempt_route w now r id t (was_dead_lettered f before h d c k m) =
    rw (attempt_route, h) refl

Finished-attempts_at :
    (rounds : List (World × ℕ)) (r : Row) (id : String) (t : Tables)
    → Finished r id t
    → Finished r id (attempts_at rounds id t)
unfolding attempts_at
Finished-attempts_at [] r id t f = f
Finished-attempts_at ((w, now) ∷ rounds) r id t f =
    Finished-attempts_at rounds r id _ (rw (Finished-attempt_route w now r id t f) f)

Finished-same :
    (x r : Row) (id : String) (t : Tables)
    → x.max_attempts ≡ r.max_attempts
    → x.conversation_id ≡ r.conversation_id
    → x.channel ≡ r.channel
    → Finished x id t
    → Finished r id t
Finished-same x r id t m c k (was_delivered y h e) = was_delivered y h e
Finished-same x r id t m c k (was_skipped y h e) = was_skipped y h e
Finished-same x r id t m c k (was_dead_lettered f before h d fc fk fm) =
    was_dead_lettered f before h d (fc ∙ c) (fk ∙ k) (omega (arith, m))

attempt_route-retried :
    (w : World) (now : ℕ) (id : String) (t : Tables) (r : Row)
    → row_of id t ≡ some r
    → retried r.status ≡ true
    → attempt_route w now id t ≡ deliver_one w now r t
unfolding attempt_route
attempt_route-retried w now id t r h e = rw (attempt_route, h, e) refl

After-attempt_route :
    (w : World) (now : ℕ) (id : String) (t : Tables) (r : Row)
    → row_of id t ≡ some r
    → retried r.status ≡ true
    → After r id (attempt_route w now id t)
After-attempt_route w now id t r h e =
    let own : r.id ≡ id = (eq_iff r.id id).0 (find-holds (with_key Row.id id) t.outbox h) in
    rw (attempt_route-retried w now id t r h e) (
      subst (λ i. After r i (deliver_one w now r t)) own
        (After-deliver_one w now r t (subst (λ i. row_of i t ≡ some r) (sym own) h)))

-- A route that is still to be tried, and has not used more than its attempts, is finished after one
-- attempt more than it has left, whatever the clients answer and whenever the attempts are made: it
-- is delivered, or has no client, or has moved to the dead-letter table with its attempts exceeded.
pub attempts_at-Finished :
    (rounds : List (World × ℕ)) (id : String) (t : Tables) (r : Row)
    → row_of id t ≡ some r
    → retried r.status ≡ true
    → r.attempts ≤ r.max_attempts
    → r.max_attempts < r.attempts + length rounds
    → Finished r id (attempts_at rounds id t)
unfolding attempts_at
attempts_at-Finished [] id t r h e v enough = absurd (omega arith)
attempts_at-Finished ((w, now) ∷ rounds) id t r h e v enough =
    elim (After-attempt_route w now id t r h e) [
      | ended f ↦ Finished-attempts_at rounds r id _ f
      | again x there live n within m c k ↦
          Finished-same x r id _ m c k
            (attempts_at-Finished rounds id _ x there live within (omega (arith, m, n)))
    ]
