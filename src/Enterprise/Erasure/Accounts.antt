-- ===== src/Enterprise/Erasure/Accounts.antt =====
-- What one run of the erasure worker makes of each conversation that it takes up
-- (voclyp/enterprise/erasure/worker.py).
use voclyp_dev.Prelude.{
  ℕ, ◌+◌, ◌≤◌, String, ◌≡◌, ◌≢◌, refl, sym, ◌∙◌, Bool, Bool-cases, inl, inr, ◌⊎◌, true, false, not,
  some, List, [], ◌∷◌, arith, str_eq, eq_iff, count, count-delete, count-delete_self, All,
  All-weaken,
}
use voclyp_dev.Enterprise.States.{terminal}
use voclyp_dev.Enterprise.Conversations.{
  Conversation, Schemas, get_conversation, due_erasures, erasure_due,
}
use voclyp_dev.Enterprise.Conversations.Due.{due_erasures-due}
use voclyp_dev.Enterprise.Erasure.{Depot, Report, erase_one, erase_all, run_once}
use voclyp_dev.Enterprise.Erasure.Run.{erase_one-settles}

-- Each is what is stored under its id, and no two have one id.
abbrev pub Stored : Schemas → List Conversation → Type 0
Stored s due = All (λ c. get_conversation c.id s ≡ some c) due

abbrev pub Apart : List Conversation → Type 0
Apart [] = Unit
Apart (c ∷ due) = All (λ e. c.id ≢ e.id) due × Apart due

other : (a b : String) → a ≢ b → str_eq a b ≡ false
other a b h = elim (Bool-cases (str_eq a b)) [
  | inl same ↦ absurd (h ((eq_iff a b).0 same))
  | inr apart ↦ apart
]

-- The audio of the conversation is gone, and its row is terminal with the time of the run.
pub record Erased (now : ℕ) (d : Depot) (c : Conversation) : Type 0 where
  pub row : Conversation
  pub stored : get_conversation c.id d.schemas ≡ some row
  pub ended : terminal row.state ≡ true
  pub stamped : row.erased_at ≡ some now
  pub gone : count (λ k. str_eq k c.s3_key) d.objects ≡ 0

module _ (raises : String → Bool) (now : ℕ) where
  -- What became of a conversation: the deletion of its audio raised and its row is as it was, or it
  -- is erased.
  abbrev pub Accounted : Depot → Conversation → Type 0
  Accounted d c =
      ((raises c.s3_key ≡ true) × (get_conversation c.id d.schemas ≡ some c))
      ⊎ ((raises c.s3_key ≡ false) × Erased now d c)

  -- What a list of rounds does, to the conversations that they take up and to others.
  pub record Accounts (due : List Conversation) (d : Depot) (r : Report) (d' : Depot) (r' : Report)
      : Type 0 where
    pub accounts : All (Accounted d') due
    pub erased : r'.erased ≡ r.erased + count (λ c. not (raises c.s3_key)) due
    pub errors : r'.errors ≡ r.errors + count (λ c. raises c.s3_key) due
    pub others :
        (j : String)
        → All (λ c. c.id ≢ j) due
        → get_conversation j d'.schemas ≡ get_conversation j d.schemas
    pub fewer :
        (k : String) → count (λ x. str_eq x k) d'.objects ≤ count (λ x. str_eq x k) d.objects

  one :
      (c : Conversation) (d : Depot) (r : Report)
      → get_conversation c.id d.schemas ≡ some c
      → terminal c.state ≡ false
      → (d' : Depot) × (r' : Report) × (erase_one raises now c d r ≡ (d', r'))
        × Accounts (c ∷ []) d r d' r'
  unfolding erase_one
  one c d r there live = elim (Bool-cases (raises c.s3_key)) [
    | inl loud ↦ (
      d,
      record r { errors = r.errors + 1 },
      rw (erase_one, loud) refl,
      record {
        accounts = (inl (loud, there), tt);
        erased = rw loud (omega arith);
        errors = rw loud (omega arith);
        others = λ j h. refl;
        fewer = λ k. omega arith;
      },
    )
    | inr quiet ↦
        let (d', e, objects, st) = erase_one-settles raises now c d r there live quiet in
        let own : get_conversation c.id d'.schemas ≡ some st.row =
          st.stored c.id ∙ rw ((eq_iff c.id c.id).1 refl) refl in
        (
          d',
          record r { erased = r.erased + 1 },
          e,
          record {
            accounts = (
              inr (
                quiet,
                record {
                  row = st.row;
                  stored = own;
                  ended = st.ended;
                  stamped = st.stamped;
                  gone = rw objects (count-delete_self (λ k. str_eq k c.s3_key) d.objects);
                },
              ),
              tt,
            );
            erased = rw quiet (omega arith);
            errors = rw quiet (omega arith);
            others = λ j h. st.stored j ∙ rw (other c.id j h.0) refl;
            fewer =
                λ k. rw objects (count-delete (λ x. str_eq x k) (λ x. str_eq x c.s3_key) d.objects);
          },
        )
  ]

  -- What became of a conversation stays so, through rounds of others.
  Accounted-kept :
      (c : Conversation) (due : List Conversation) (d d' : Depot) (r r' : Report)
      → All (λ e. c.id ≢ e.id) due
      → Accounts due d r d' r'
      → Accounted d c
      → Accounted d' c
  Accounted-kept c due d d' r r' apart a (inl (loud, there)) =
      inl (loud, a.others c.id (All-weaken due (λ e n q. n (sym q)) apart) ∙ there)
  Accounted-kept c due d d' r r' apart a (inr (quiet, e)) =
      let few = a.fewer c.s3_key in
      let gone = e.gone in
      inr (
        quiet,
        record {
          row = e.row;
          stored = a.others c.id (All-weaken due (λ x n q. n (sym q)) apart) ∙ e.stored;
          ended = e.ended;
          stamped = e.stamped;
          gone = omega arith;
        },
      )

  Stored-kept :
      (c : Conversation) (d d' : Depot) (due : List Conversation)
      → ((j : String) → c.id ≢ j → get_conversation j d'.schemas ≡ get_conversation j d.schemas)
      → All (λ e. c.id ≢ e.id) due
      → Stored d.schemas due
      → Stored d'.schemas due
  Stored-kept c d d' [] same apart h = tt
  Stored-kept c d d' (e ∷ due) same apart h =
      (same e.id apart.0 ∙ h.0, Stored-kept c d d' due same apart.1 h.1)

  erase_all-Accounts :
      (due : List Conversation) (d : Depot) (r : Report)
      → Stored d.schemas due
      → Apart due
      → All (λ c. terminal c.state ≡ false) due
      → Accounts due d r (erase_all raises now due d r).0 (erase_all raises now due d r).1
  unfolding erase_all
  erase_all-Accounts [] d r s a l = record {
    accounts = tt;
    erased = omega arith;
    errors = omega arith;
    others = λ j h. refl;
    fewer = λ k. omega arith;
  }
  erase_all-Accounts (c ∷ due) d r s a l =
      let (d', r', e, first) = one c d r s.0 l.0 in
      let rest =
        erase_all-Accounts due d' r'
          (Stored-kept c d d' due (λ j n. first.others j (n, tt)) a.0 s.1) a.1 l.1 in
      rw (erase_all, e)
        (record {
          accounts = (Accounted-kept c due d' _ r' _ a.0 rest first.accounts.0, rest.accounts);
          erased = omega (arith, first.erased, rest.erased);
          errors = omega (arith, first.errors, rest.errors);
          others = λ j h. rest.others j h.1 ∙ first.others j (h.0, tt);
          fewer = λ k. omega (arith, first.fewer k, rest.fewer k);
        })

  -- In a run over conversations that stand under ids of their own, each that the run takes up, which
  -- are the due ones up to the limit, is accounted for: either the deletion of its audio raised and
  -- its row is as it was, or its audio is gone and its row is terminal, with the time of the run. The
  -- former are counted as errors, the latter as erased, and every other conversation is as it was.
  pub run_once-Accounts :
      (limit : ℕ) (d : Depot)
      → Stored d.schemas (due_erasures now limit d.schemas)
      → Apart (due_erasures now limit d.schemas)
      → Accounts
          (due_erasures now limit d.schemas)
          d
          (record { erased = 0; errors = 0 })
          (run_once raises now limit d).0
          (run_once raises now limit d).1
  unfolding run_once
  run_once-Accounts limit d stored apart =
      let due = due_erasures now limit d.schemas in
      erase_all-Accounts due d (record { erased = 0; errors = 0 }) stored apart
        (All-weaken due (λ c h. live c h) (due_erasures-due now limit d.schemas))
    where
      live : (c : Conversation) → erasure_due now c ≡ true → terminal c.state ≡ false
      live c h = ground arith
