-- ===== src/Queue/Candidates.antt =====
-- The candidates of `dequeue`: which heads of deques the loop collects.
use hatchery_core.Common.{
  ℕ, ◌≡◌, ◌⊎◌, refl, sym, ◌∙◌, subst, String, Bool, true, ◌||◌, List, [], ◌∷◌, Option, none, some,
  All, All-append, In, In-append_left, In-append_right, same, leb, arith, name_eq, inl, inr,
}
use hatchery_core.Common.Dict.{Dict, get, get-remove, Distinct, get-cons_self}
use hatchery_core.Protocols.{QueuedJob}
use hatchery_core.Queue.State.{Pin, accepts}
use hatchery_core.Queue.Dequeue.{check_pin, visit, candidates}

-- Every entry of a table is what a lookup of its key finds.
entries-cons {ℓ} :
    {V : Type ℓ} (j : String) (w : V) (d l : Dict V)
    → get j d ≡ none
    → All (λ e. get e.0 d ≡ some e.1) l
    → All (λ e. get e.0 ((j, w) ∷ d) ≡ some e.1) l
unfolding get
entries-cons j w d [] absent h = tt
entries-cons j w d ((k, v) ∷ l) absent h = (ground arith, entries-cons j w d l absent h.1)

pub entries {ℓ} : {V : Type ℓ} (d : Dict V) → Distinct d → All (λ e. get e.0 d ≡ some e.1) d
entries [] h = tt
entries ((j, w) ∷ d) h = (get-cons_self j w d, entries-cons j w d d h.0 (entries d h.1))

-- The table of pins lets the worker have jobs of the session: there is no pin, or it has run out,
-- or the worker owns it.
abbrev pub pin_allows : String → ℕ → Option Pin → Bool
pin_allows worker now none = true
pin_allows worker now (some p) = leb p.expires now || same p.owner worker

module _ (worker : String) (fs : List String) (now : ℕ) (inflight : Dict String) where
  -- The head of its session's deque, which the worker may have.
  pub record IsOffered (queues : Dict (List QueuedJob)) (allow : String → Bool) (job : QueuedJob)
      : Type 0 where
    pub rest : List QueuedJob
    pub head : get job.session_id queues ≡ some (job ∷ rest)
    pub idle : get job.session_id inflight ≡ none
    pub fits : accepts fs job ≡ true
    pub allowed : allow job.session_id ≡ true

  -- Dropping a pin that has run out changes nothing of what the pins allow.
  pub visit-pins :
      (s : String) (dq : List QueuedJob) (pins : Dict Pin) (r : String)
      → pin_allows worker now (get r (visit worker fs now inflight s dq pins).1)
        ≡ pin_allows worker now (get r pins)
  unfolding visit check_pin
  visit-pins s [] pins r = refl
  visit-pins s (job ∷ rest) pins r = ground (arith, get-remove s r pins)

  -- One round offers the head of the deque or nothing.
  visit-nothing-or-head :
      (s : String) (job : QueuedJob) (rest : List QueuedJob) (pins : Dict Pin)
      → ((visit worker fs now inflight s (job ∷ rest) pins).0 ≡ [])
        ⊎ (((visit worker fs now inflight s (job ∷ rest) pins).0 ≡ job ∷ [])
            × (get s inflight ≡ none)
            × (accepts fs job ≡ true)
            × (pin_allows worker now (get s pins) ≡ true))
  unfolding visit check_pin
  visit-nothing-or-head s job rest pins = ground arith

  visit-head :
      (s : String) (job : QueuedJob) (rest : List QueuedJob) (pins : Dict Pin)
      → get s inflight ≡ none
      → accepts fs job ≡ true
      → pin_allows worker now (get s pins) ≡ true
      → (visit worker fs now inflight s (job ∷ rest) pins).0 ≡ job ∷ []
  unfolding visit check_pin
  visit-head s job rest pins idle fits allowed = ground arith

  module _ (queues : Dict (List QueuedJob)) (allow : String → Bool) where
    abbrev Agrees : Dict Pin → Type 0
    Agrees pins = (r : String) → pin_allows worker now (get r pins) ≡ allow r

    abbrev Listed : String × List QueuedJob → Type 0
    Listed e = (get e.0 queues ≡ some e.1) × All (λ job. job.session_id ≡ e.0) e.1

    visit-IsOffered :
        (s : String) (dq : List QueuedJob) (pins : Dict Pin)
        → Agrees pins
        → Listed (s, dq)
        → All (IsOffered queues allow) (visit worker fs now inflight s dq pins).0
    visit-IsOffered s [] pins agree listed = unfold visit in tt
    visit-IsOffered s (job ∷ rest) pins agree (e, own) =
        elim (visit-nothing-or-head s job rest pins) [
          | inl nothing ↦ rw nothing tt
          | inr (found, idle, fits, allowed) ↦ rw found (
            record {
              rest = rest;
              head = subst (λ t. get t queues ≡ some (job ∷ rest)) (sym own.0) e;
              idle = subst (λ t. get t inflight ≡ none) (sym own.0) idle;
              fits = fits;
              allowed = subst (λ t. allow t ≡ true) (sym own.0) (sym (agree s) ∙ allowed);
            },
            tt,
          )
        ]

    -- Every candidate is offered.
    pub candidates-IsOffered :
        (d : Dict (List QueuedJob)) (pins : Dict Pin)
        → Agrees pins
        → All Listed d
        → All (IsOffered queues allow) (candidates worker fs now inflight d pins).0
    unfolding candidates
    candidates-IsOffered [] pins agree h = tt
    candidates-IsOffered ((s, dq) ∷ d) pins agree h =
        All-append (IsOffered queues allow) _ _ (visit-IsOffered s dq pins agree h.0) (
          candidates-IsOffered d (visit worker fs now inflight s dq pins).1
            (λ r. visit-pins s dq pins r ∙ agree r) h.1)

    -- The loop leaves what the pins allow.
    pub candidates-pins :
        (d : Dict (List QueuedJob)) (pins : Dict Pin)
        → Agrees pins
        → Agrees (candidates worker fs now inflight d pins).1
    unfolding candidates
    candidates-pins [] pins agree = agree
    candidates-pins ((s, dq) ∷ d) pins agree =
        candidates-pins d (visit worker fs now inflight s dq pins).1
          (λ r. visit-pins s dq pins r ∙ agree r)

    -- Every head that may be offered is a candidate.
    pub candidates_complete :
        (d : Dict (List QueuedJob)) (pins : Dict Pin) (s : String) (job : QueuedJob)
        (rest : List QueuedJob)
        → Agrees pins
        → get s d ≡ some (job ∷ rest)
        → get s inflight ≡ none
        → accepts fs job ≡ true
        → allow s ≡ true
        → In job (candidates worker fs now inflight d pins).0
    unfolding candidates
    candidates_complete [] pins s job rest agree e idle fits allowed =
        absurd (unfold get in ground arith)
    candidates_complete ((k, dq) ∷ d) pins s job rest agree e idle fits allowed =
        elim (name_eq k s) [
          | yes p ↦
              let found : dq ≡ job ∷ rest = unfold get in ground arith in
              In-append_left job _ _ (
                subst (λ l. In job (visit worker fs now inflight k l pins).0) (sym found)
                  (rw
                    (visit-head k job rest pins (subst (λ t. get t inflight ≡ none) (sym p) idle)
                      fits (agree k ∙ subst (λ t. allow t ≡ true) (sym p) allowed))
                    (inl refl)))
          | no p ↦ In-append_right job _ _ (
              candidates_complete d (visit worker fs now inflight k dq pins).1 s job rest
                (λ r. visit-pins k dq pins r ∙ agree r) (unfold get in ground arith) idle fits
                allowed)
        ]
