-- ===== src/Queue/Requeue.antt =====
-- `_requeue_expired` never raises, gives every late job back to the head of its line, and keeps the
-- lines as they are.
use hatchery_core.Common.{
  ℕ, ◌≡◌, refl, ap, ◌∙◌, String, true, false, List, [], ◌∷◌, Option, none, some, leb, if◌then◌else◌,
  arith, name_eq, ite, if_neg, inl, inr, Option-cases, Bool-cases,
}
use hatchery_core.Common.Dict.{
  Dict, get, remove, is_some, get-remove, Distinct, get-cons_self, remove-cons_self,
}
use hatchery_core.Common.Errors.{ok}
use hatchery_core.Protocols.{QueuedJob}
use hatchery_core.Queue.State
use hatchery_core.Queue.State.{JobQueue}
use hatchery_core.Queue.Dequeue.{release_one, release_all, expired_ids, requeue_expired}
use hatchery_core.Queue.Settle.{drop_lease}
use hatchery_core.Queue.Invariant.{Inv, session_of}
use hatchery_core.Queue.Invariant.Leases.{put_front, drop_lease-Inv, drop_lease-free, put_front-Inv}
use hatchery_core.Queue.Lines.{line}
use hatchery_core.Queue.Lines.Moves.{line-put_front, line-drop_lease}

-- The stashed job of a lease.
pub stash :
    (id : String) (lease : State.Lease) (q : JobQueue)
    → Inv q
    → get id q.inflight ≡ some lease
    → (job : QueuedJob) × (get id q.pending_expired ≡ some job)
      × (job.job_id ≡ id)
      × (job.session_id ≡ lease.session_id)
stash id lease q v e =
    let names = v.stashed lease.session_id id (ap session_of e) in
    elim (Option-cases (get id q.pending_expired)) [
      | inl missing ↦ absurd (ground arith)
      | inr (job, found) ↦ (job, found, ground arith, ground arith)
    ]

-- The job of an ended lease at the head of its deque: the invariant holds and no line changes.
module _ (id : String) (lease : State.Lease) (job : QueuedJob) (q : JobQueue) (v : Inv q)
    (held : get id q.inflight ≡ some lease) (stashed : get id q.pending_expired ≡ some job)
    (named : job.job_id ≡ id) (owned : job.session_id ≡ lease.session_id) where
  dropped-idle : get job.session_id (drop_lease id lease q).inflight_by_session ≡ none
  unfolding drop_lease
  dropped-idle = ground (arith, get-remove lease.session_id job.session_id q.inflight_by_session)

  pub returned-Inv : Inv (put_front job (drop_lease id lease q))
  returned-Inv =
      put_front-Inv job (drop_lease id lease q) (rw named (drop_lease-free id lease q held v))
        (drop_lease-Inv id lease q held v)

  pub line-returned : (s : String) → line s (put_front job (drop_lease id lease q)) ≡ line s q
  line-returned s = ground (
    arith,
    line-put_front job (drop_lease id lease q) s dropped-idle,
    line-drop_lease id lease job q s v held stashed,
  )

  release_one-returned : release_one id q ≡ ok (put_front job (drop_lease id lease q))
  unfolding release_one drop_lease
  release_one-returned = rw (held, stashed, owned)

-- Each name stands once, and names a lease.
abbrev Held : List String → Dict State.Lease → Type 0
Held [] d = Unit {0}
Held (id ∷ ids) d = (is_some (get id d) ≡ true) × Held ids (remove id d)

abbrev remove_all : List String → Dict State.Lease → Dict State.Lease
remove_all [] d = d
remove_all (id ∷ ids) d = remove_all ids (remove id d)

release_all-ok :
    (ids : List String) (q : JobQueue)
    → Inv q
    → Held ids q.inflight
    → (q' : JobQueue) × (release_all ids q ≡ ok q')
      × Inv q'
      × ((s : String) → line s q' ≡ line s q)
      × (q'.inflight ≡ remove_all ids q.inflight)
unfolding release_all drop_lease
release_all-ok [] q v h = (q, refl, v, λ s. refl, refl)
release_all-ok (id ∷ ids) q v h = elim (Option-cases (get id q.inflight)) [
  | inl missing ↦ absurd (ground arith)
  | inr (lease, held) ↦
      let (job, stashed, named, owned) = stash id lease q v held in
      let (q', e, v', same_lines, left) =
        release_all-ok ids (put_front job (drop_lease id lease q))
          (returned-Inv id lease job q v held stashed named owned) h.1 in
      (
        q',
        rw (release_one-returned id lease job q v held stashed named owned) e,
        v',
        λ s. same_lines s ∙ line-returned id lease job q v held stashed named owned s,
        left,
      )
]

-- An entry whose name is not there changes nothing for the others.
Held-cons :
    (ids : List String) (j : String) (l : State.Lease) (d : Dict State.Lease)
    → get j d ≡ none
    → Held ids d
    → Held ids ((j, l) ∷ d)
unfolding get remove
Held-cons [] j l d absent h = tt
Held-cons (id ∷ ids) j l d absent h = elim (name_eq j id) [
  | yes p ↦ absurd (ground arith)
  | no p ↦
      rw (if_neg _ p, if_neg _ p)
        (h.0, Held-cons ids j l (remove id d) (ground (arith, get-remove id j d)) h.1)
]

expired_ids-Held : (now : ℕ) (d : Dict State.Lease) → Distinct d → Held (expired_ids now d) d
unfolding expired_ids
expired_ids-Held now [] h = tt
expired_ids-Held now ((j, l) ∷ d) h = elim (Bool-cases (leb l.deadline now)) [
  | inl late ↦ rw late (
    ap is_some (get-cons_self j l d),
    rw (remove-cons_self j l d h.0) (expired_ids-Held now d h.1),
  )
  | inr early ↦ rw early (Held-cons (expired_ids now d) j l d h.0 (expired_ids-Held now d h.1))
]

-- What is left of a lease table: the leases whose deadline has not come.
abbrev pub unexpired : ℕ → Option State.Lease → Option State.Lease
unexpired now none = none
unexpired now (some l) = if leb l.deadline now then none else some l

get-remove_all_cons :
    (ids : List String) (j id : String) (l : State.Lease) (d : Dict State.Lease)
    → get j d ≡ none
    → Held ids d
    → get id (remove_all ids ((j, l) ∷ d)) ≡ ite (name_eq j id) (some l) (get id (remove_all ids d))
unfolding get remove
get-remove_all_cons [] j id l d absent h = refl
get-remove_all_cons (i ∷ ids) j id l d absent h = elim (name_eq j i) [
  | yes p ↦ absurd (ground arith)
  | no p ↦
      rw (if_neg _ p)
        (get-remove_all_cons ids j id l (remove i d) (ground (arith, get-remove i j d)) h.1)
]

module _ (now : ℕ) (j id : String) (l : State.Lease) (d : Dict State.Lease) where
  late-cons :
      leb l.deadline now ≡ true
      → get j d ≡ none
      → unexpired now (get id d) ≡ unexpired now (get id ((j, l) ∷ d))
  unfolding get
  late-cons late absent = ground arith

  early-cons :
      leb l.deadline now ≡ false
      → ite (name_eq j id) (some l) (unexpired now (get id d)) ≡ unexpired now (get id ((j, l) ∷ d))
  unfolding get
  early-cons early = ground arith

get-expired :
    (now : ℕ) (d : Dict State.Lease)
    → Distinct d
    → (id : String) → get id (remove_all (expired_ids now d) d) ≡ unexpired now (get id d)
unfolding expired_ids
get-expired now [] h id = unfold get in refl
get-expired now ((j, l) ∷ d) h id = elim (Bool-cases (leb l.deadline now)) [
  | inl late ↦ rw late (
      ap (λ t. get id (remove_all (expired_ids now d) t)) (remove-cons_self j l d h.0)
      ∙ get-expired now d h.1 id
      ∙ late-cons now j id l d late h.0)
  | inr early ↦ rw early (
      get-remove_all_cons (expired_ids now d) j id l d h.0 (expired_ids-Held now d h.1)
      ∙ ap (ite (name_eq j id) (some l)) (get-expired now d h.1 id)
      ∙ early-cons now j id l d early)
]

-- Whatever leases have run out, `_requeue_expired` returns; the invariant holds after it, every
-- session's line is what it was, and of the leases exactly those with a later deadline are left.
pub requeue_expired-ok :
    (now : ℕ) (q : JobQueue)
    → Inv q
    → (q' : JobQueue) × (requeue_expired now q ≡ ok q')
      × Inv q'
      × ((s : String) → line s q' ≡ line s q)
      × ((id : String) → get id q'.inflight ≡ unexpired now (get id q.inflight))
unfolding requeue_expired
requeue_expired-ok now q v =
    let (q', e, v', same_lines, left) =
      release_all-ok (expired_ids now q.inflight) q v
        (expired_ids-Held now q.inflight v.distinct) in
    (q', e, v', same_lines, λ id. ap (get id) left ∙ get-expired now q.inflight v.distinct id)
