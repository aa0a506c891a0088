-- ===== src/Webhooks/Dispatch/Fanout.antt =====
-- The fan-out reaches every subscriber, once (voclyp/delivery.py, `fan_out`).
use voclyp_dev.Prelude.{
  ℕ, ◌≡◌, refl, ◌∙◌, ap, subst, String, Bool, Option-cases, inl, inr, true, false, ◌&&◌, ◌||◌, List,
  [], ◌∷◌, ◌++◌, arith, is_some, str_eq, eq_iff, All, All-weaken, find,
}
use text.Mathlib.TextPositions.{eq_refl}
use voclyp_dev.Webhooks.{
  Endpoint, Event, Delivery, same_delivery, Store, unfanned_events, mark_fanned_out, endpoints_for,
  create_delivery,
}
use voclyp_dev.Webhooks.Dispatch.{create_for, fan_out_all, fan_out}

-- There is a delivery of the event to the endpoint.
pub has_delivery : String → String → Store → Bool
has_delivery endpoint_id event_id s =
    is_some (find (same_delivery endpoint_id event_id) s.deliveries)

-- In `s`, each of the endpoints has a delivery of the event.
abbrev pub Reached : String → Store → List Endpoint → Type 0
Reached event_id s es = All (λ e. has_delivery e.id event_id s ≡ true) es

-- In `s'`, each listed event has a delivery to every endpoint that was active and subscribed in `s`.
abbrev pub AllReached : Store → Store → List Event → Type 0
AllReached s s' vs = All (λ v. Reached v.event_id s' (endpoints_for v.tenant_id v.event_type s)) vs

found-append :
    (p : Delivery → Bool) (ds : List Delivery) (row : Delivery)
    → is_some (find p (ds ++ row ∷ [])) ≡ (is_some (find p ds) || p row)
found-append p [] row = ground arith
found-append p (d ∷ ds) row = ground (arith, found-append p ds row)

or_comm : (a b : Bool) → (a || b) ≡ (b || a)
or_comm a b = ground arith

-- What `a` implies absorbs it.
absorb : (a b : Bool) → (a ≡ true → b ≡ true) → b ≡ (a || b)
absorb true b h = h refl
absorb false b h = refl

same_pair :
    (e v i j : String) → (str_eq e i && str_eq v j) ≡ true → ◌≡◌ {A = String × String} (i, j) (e, v)
same_pair e v i j h = ground (arith, eq_iff e i, eq_iff v j)

module _ (stamp now : ℕ) where
  -- A created delivery is there, and what was there is still there.
  has_delivery-create :
      (t e v i j : String) (s : Store)
      → has_delivery i j (create_delivery stamp now t e v s)
        ≡ ((str_eq e i && str_eq v j) || has_delivery i j s)
  unfolding has_delivery create_delivery
  has_delivery-create t e v i j s = elim (Option-cases (find (same_delivery e v) s.deliveries)) [
    | inl new ↦ rw new (
        found-append (same_delivery i j) s.deliveries _
        ∙ or_comm (is_some (find (same_delivery i j) s.deliveries)) (str_eq e i && str_eq v j))
    | inr (d, old) ↦ rw old (
        absorb (str_eq e i && str_eq v j) (has_delivery i j s) λ t.
          ap (λ (x : String × String). is_some (find (same_delivery x.0 x.1) s.deliveries))
            (same_pair e v i j t)
          ∙ ap is_some old)
  ]

  endpoints_for-create :
      (t e v a b : String) (s : Store)
      → endpoints_for a b (create_delivery stamp now t e v s) ≡ endpoints_for a b s
  unfolding endpoints_for create_delivery
  endpoints_for-create t e v a b s = ground arith

  endpoints_for-create_for :
      (v : Event) (es : List Endpoint) (a b : String) (s : Store)
      → endpoints_for a b (create_for stamp now v es s) ≡ endpoints_for a b s
  unfolding create_for
  endpoints_for-create_for v [] a b s = refl
  endpoints_for-create_for v (e ∷ es) a b s =
      endpoints_for-create_for v es a b _ ∙ endpoints_for-create v.tenant_id e.id v.event_id a b s

  -- Creating deliveries removes none.
  has_delivery-create_for :
      (v : Event) (es : List Endpoint) (i j : String) (s : Store)
      → has_delivery i j s ≡ true
      → has_delivery i j (create_for stamp now v es s) ≡ true
  unfolding create_for
  has_delivery-create_for v [] i j s h = h
  has_delivery-create_for v (e ∷ es) i j s h =
      has_delivery-create_for v es i j _
        (ground (arith, has_delivery-create v.tenant_id e.id v.event_id i j s))

  create_for-Reached :
      (v : Event) (es : List Endpoint) (s : Store)
      → Reached v.event_id (create_for stamp now v es s) es
  unfolding create_for
  create_for-Reached v [] s = tt
  create_for-Reached v (e ∷ es) s = (
    has_delivery-create_for v es e.id v.event_id _ (
        has_delivery-create v.tenant_id e.id v.event_id e.id v.event_id s
        ∙ rw (eq_refl e.id, eq_refl v.event_id)),
    create_for-Reached v es _,
  )

  has_delivery-fan_out_all :
      (vs : List Event) (i j : String) (s : Store) (n : ℕ)
      → has_delivery i j s ≡ true
      → has_delivery i j (fan_out_all stamp now vs s n).0 ≡ true
  unfolding fan_out_all mark_fanned_out
  has_delivery-fan_out_all [] i j s n h = h
  has_delivery-fan_out_all (v ∷ vs) i j s n h = has_delivery-fan_out_all vs i j _ _ (
      unfold has_delivery in
      has_delivery-create_for v (endpoints_for v.tenant_id v.event_type s) i j s h)

  endpoints_for-fanned :
      (v : Event) (es : List Endpoint) (a b : String) (s : Store)
      → endpoints_for a b (mark_fanned_out v.event_id (create_for stamp now v es s))
        ≡ endpoints_for a b s
  unfolding mark_fanned_out
  endpoints_for-fanned v es a b s = unfold endpoints_for in endpoints_for-create_for v es a b s

  kept-Reached :
      (vs : List Event) (event_id : String) (es : List Endpoint) (s : Store) (n : ℕ)
      → Reached event_id s es
      → Reached event_id (fan_out_all stamp now vs s n).0 es
  kept-Reached vs event_id [] s n h = tt
  kept-Reached vs event_id (e ∷ es) s n h =
      (has_delivery-fan_out_all vs e.id event_id s n h.0, kept-Reached vs event_id es s n h.1)

  fan_out_all-Reached :
      (vs : List Event) (s : Store) (n : ℕ) → AllReached s (fan_out_all stamp now vs s n).0 vs
  unfolding fan_out_all
  fan_out_all-Reached [] s n = tt
  fan_out_all-Reached (v ∷ vs) s n =
      let es = endpoints_for v.tenant_id v.event_type s in
      let s' = mark_fanned_out v.event_id (create_for stamp now v es s) in
      (
        kept-Reached vs v.event_id es s' _
            (unfold has_delivery mark_fanned_out in create_for-Reached v es s),
        All-weaken vs
            (λ x r.
              subst (Reached x.event_id _) (endpoints_for-fanned v es x.tenant_id x.event_type s) r)
            (fan_out_all-Reached vs s' _),
      )

  -- After a fan-out, every event that it took up has a delivery to every endpoint of its tenant
  -- that is active and subscribed to its type.
  pub fan_out-AllReached :
      (s : Store) → AllReached s (fan_out stamp now s).0 (unfanned_events 100 s)
  unfolding fan_out
  fan_out-AllReached s = fan_out_all-Reached (unfanned_events 100 s) s 0

  create_delivery-again :
      (t e v : String) (s : Store)
      → has_delivery e v s ≡ true
      → create_delivery stamp now t e v s ≡ s
  unfolding create_delivery has_delivery
  create_delivery-again t e v s h = rw h

  create_for-present :
      (v : Event) (es : List Endpoint) (s : Store)
      → Reached v.event_id s es
      → create_for stamp now v es s ≡ s
  unfolding create_for
  create_for-present v [] s h = refl
  create_for-present v (e ∷ es) s h =
      ap (create_for stamp now v es) (create_delivery-again v.tenant_id e.id v.event_id s h.0)
      ∙ create_for-present v es s h.1

  -- Fanning an event out once more, as after a crash before it was marked, changes nothing.
  pub create_for-again :
      (v : Event) (es : List Endpoint) (s : Store)
      → create_for stamp now v es (create_for stamp now v es s) ≡ create_for stamp now v es s
  create_for-again v es s =
      create_for-present v es (create_for stamp now v es s) (create_for-Reached v es s)
