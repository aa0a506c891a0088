-- ===== src/Live/Manager/Entities.antt =====
-- What a person has typed in is not overwritten by what is heard (voclyp/live/session.py,
-- `process_chunk`).
use mathlib.Core.Option
use voclyp_dev.Prelude.{
  ℕ, String, ◌≡◌, refl, ◌∙◌, inl, inr, Bool, Bool-cases, Option, none, some, List, [], ◌∷◌, arith,
  str_eq, find, update, Text,
}
use voclyp_dev.Live.{
  Session, Visits, manual, asr, at, get_live_session, update_live_session_customer,
  update_live_session_transcript, append_session_chunk, set_phone,
}
use voclyp_dev.Live.Manager.{
  State, Recognizer, Paths, Partial, hear, hear_name, hear_phone, process_chunk, not_manual,
  phone_source_of,
}

pub find-updated {ℓ} :
    {A : Type ℓ} (p : A → Bool) (f : A → A) (xs : List A)
    → ((x : A) → p (f x) ≡ p x)
    → find p (update p f xs) ≡ Option.map f (find p xs)
find-updated p f [] h = ground arith
find-updated p f (x ∷ xs) h = ground (arith, h x, find-updated p f xs h)

module _ (t id : String) where
  -- The session is there and its name was typed in.
  abbrev pub Typed : Option String → Visits → Type 0
  Typed name v =
      (x : Session) × (get_live_session t id v ≡ some x)
      × (x.name_source ≡ some manual)
      × (x.customer_name ≡ name)

  Typed-update :
      (f : Session → Session) (v : Visits) (x : Session)
      → ((y : Session) → at t id (f y) ≡ at t id y)
      → get_live_session t id v ≡ some x
      → get_live_session t id (record v { sessions = update (at t id) f v.sessions }) ≡ some (f x)
  unfolding get_live_session
  Typed-update f v x same there = find-updated (at t id) f v.sessions same ∙ rw there refl

  hear_name-Typed :
      (name : Option String) (heard : String) (v : Visits)
      → Typed name v
      → Typed name (hear_name t id heard v).0
  unfolding hear_name
  hear_name-Typed name heard v (x, there, typed, same) = elim (Bool-cases (str_eq heard "")) [
    | inl silent ↦ rw silent (x, there, typed, same)
    | inr some_name ↦ rw (some_name, there, typed) (x, there, typed, same)
  ]

  hear_phone-Typed :
      (name : Option String) (heard : String) (v : Visits)
      → Typed name v
      → Typed name (hear_phone t id heard v).0
  unfolding hear_phone update_live_session_customer
  hear_phone-Typed name heard v (x, there, typed, same) = elim (Bool-cases (str_eq heard "")) [
    | inl silent ↦ rw silent (x, there, typed, same)
    | inr some_phone ↦ elim (Bool-cases (not_manual (phone_source_of (get_live_session t id v)))) [
      | inr kept ↦ rw (some_phone, kept) (x, there, typed, same)
      | inl heard_first ↦
          rw (some_phone, heard_first)
            (
              set_phone (some heard) asr x,
              Typed-update (λ y. set_phone (some heard) asr y) v x (λ y. refl) there,
              typed,
              same,
            )
    ]
  ]

  hear-Typed :
      (name : Option String) (p : Option Partial) (v : Visits)
      → Typed name v
      → Typed name (hear t id p v).0
  unfolding hear update_live_session_transcript
  hear-Typed name none v h = h
  hear-Typed name (some p) v (x, there, typed, same) =
      let written : Typed name (update_live_session_transcript t id p.text v) = (
        record x { partial_transcript = p.text },
        Typed-update (λ y. record y { partial_transcript = p.text }) v x (λ y. refl) there,
        typed,
        same,
      ) in
      hear_phone-Typed name p.phone _ (hear_name-Typed name p.name _ written)

-- A customer's name that was typed in stays as it is, whatever the recognizer hears in a chunk.
pub process_chunk-Typed :
    {Asr : Type 0} (r : Recognizer Asr) (paths : Paths) (now : ℕ) (t id : String) (seq : ℕ)
    (bytes : Text) (s : State Asr) (name : Option String)
    → Typed t id name s.visits
    → Typed t id name (process_chunk r paths now t id seq bytes s).0.visits
unfolding process_chunk append_session_chunk get_live_session
process_chunk-Typed r paths now t id seq bytes s name h = hear-Typed t id name _ _ h
