-- ===== src/Registry/Owners.antt =====
-- The registry against its abstract view: the owner of each session at a time.
use hatchery_core.Common.{
  ℕ, ◌+◌, ◌≤◌, ◌<◌, ◌≡◌, ◌≢◌, ◌↔◌, refl, sym, subst, ◌∙◌, String, List, [], ◌∷◌, Option, none, some,
  ltb, same, All, All-impl, In, if◌then◌else◌, arith, Option-cases, Bool-cases, inl, inr, name_eq,
  ite,
}
use hatchery_core.Common.Dict.{Dict, get, remove, get-insert, get-remove, Distinct}
use hatchery_core.Registry.{
  Entry, SessionRegistry, set_worker, get_worker, remove_session, scan, remove_all,
  get_sessions_for_worker,
}

abbrev pub live : ℕ → Option Entry → Option String
live now none = none
live now (some e) = if ltb e.expires_at now then none else some e.worker_id

-- The worker of a session at a time, if its entry has not run out.
abbrev pub owner : ℕ → String → SessionRegistry → Option String
owner now session_id r = live now (get session_id r.entries)

-- After `set` the session is on the worker up to and including the end of its time to live; `get` answers the owner
-- at its time; and neither `get` nor, for other sessions, `set` and `remove` change an owner at that
-- time or later.
pub owner_lem :
    (now later : ℕ) (s q w : String) (r : SessionRegistry)
    → now ≤ later
    → (owner later s (set_worker now s w r) ≡ (if ltb (now + r.ttl) later then none else some w))
      × ((get_worker now s r).1 ≡ owner now s r)
      × (owner later q (get_worker now s r).0 ≡ owner later q r)
      × (s ≢ q → owner later q (set_worker now s w r) ≡ owner later q r)
      × (owner later q (remove_session s r) ≡ ite (name_eq s q) none (owner later q r))
unfolding set_worker get_worker remove_session
owner_lem now later s q w r h = (
  ground (arith, get-insert s s (record { worker_id = w; expires_at = now + r.ttl }) r.entries),
  elim (Option-cases (get s r.entries)) [ inl e ↦ ground arith | inr (x, e) ↦ ground arith ],
  elim (Option-cases (get s r.entries)) [
    | inl e ↦ ground arith
    | inr (x, e) ↦ elim (name_eq s q) [
      | yes p ↦ ground (arith, get-remove s q r.entries)
      | no d ↦ ground (arith, get-remove s q r.entries)
    ]
  ],
  λ d.
      ground (arith, get-insert s q (record { worker_id = w; expires_at = now + r.ttl }) r.entries),
  ground (arith, get-remove s q r.entries),
)

module _ (now : ℕ) (w : String) where
  -- An entry that has run out.
  abbrev Expired : Dict Entry → String → Type 0
  Expired d sid = (e : Entry) × (get sid d ≡ some e) × (e.expires_at < now)

  Expired-cons :
      (k : String) (e : Entry) (d : Dict Entry) (sid : String)
      → get k d ≡ none
      → Expired d sid
      → Expired ((k, e) ∷ d) sid
  unfolding get
  Expired-cons k e d sid fresh (x, at, gone) = elim (name_eq k sid) [
    | yes p ↦ absurd (clash (sym (subst (λ y. get y d ≡ none) p fresh) ∙ at))
    | no other ↦ (x, ground arith, gone)
  ]
    where
      clash : {y : Entry} → ◌≡◌ {A = Option Entry} none (some y) → ⊥
      clash p = cc

  scan-Expired : (d : Dict Entry) → Distinct d → All (Expired d) (scan now w d).1
  unfolding scan get
  scan-Expired [] u = tt
  scan-Expired ((k, e) ∷ d) u =
      let tail =
        All-impl (Expired d) (Expired ((k, e) ∷ d)) (scan now w d).1
          (λ sid x. Expired-cons k e d sid u.0 x) (scan-Expired d u.1) in
      elim (Bool-cases (ltb e.expires_at now)) [
        | inl gone ↦ rw gone ((e, ground arith, ground arith), tail)
        | inr kept ↦ elim (Bool-cases (same e.worker_id w)) [
          | inl mine ↦ rw (kept, mine) tail
          | inr other ↦ rw (kept, other) tail
        ]
      ]

  -- Every session that is found is the worker's, and every session of the worker is found.
  scan_sound :
      (sid : String) (d : Dict Entry)
      → Distinct d
      → In sid (scan now w d).0
      → live now (get sid d) ≡ some w
  unfolding scan get
  scan_sound sid [] u i = absurd i
  scan_sound sid ((k, e) ∷ d) u i = elim (name_eq k sid) [
    | yes p ↦ elim (Bool-cases (ltb e.expires_at now)) [
      | inl gone ↦ absurd (
          clash (
            sym (ground (arith, subst (λ y. get y d ≡ none) p u.0))
            ∙ scan_sound sid d u.1 (ground arith)))
      | inr kept ↦
          let fresh : get sid d ≡ none = subst (λ y. get y d ≡ none) p u.0 in
          let later_none : live now (get sid d) ≡ none = ground arith in
          let never : In sid (scan now w d).0 → ⊥ =
            λ j. clash (sym later_none ∙ scan_sound sid d u.1 j) in
          ground (arith, never)
    ]
    | no other ↦ ground (arith, scan_sound sid d u.1)
  ]
    where
      clash : ◌≡◌ {A = Option String} none (some w) → ⊥
      clash p = cc

  scan_complete :
      (sid : String) (d : Dict Entry) → live now (get sid d) ≡ some w → In sid (scan now w d).0
  unfolding scan get
  scan_complete sid [] h = ground arith
  scan_complete sid ((k, e) ∷ d) h = ground (arith, scan_complete sid d)

  -- Dropping what has no owner later changes no owner then.
  purge-live :
      (later : ℕ) (q : String) (ids : List String) (d : Dict Entry)
      → All (λ sid. live later (get sid d) ≡ none) ids
      → live later (get q (remove_all ids d)) ≡ live later (get q d)
  unfolding remove_all
  purge-live later q [] d all = refl
  purge-live later q (sid ∷ ids) d (dead, all) =
      purge-live later q ids (remove sid d) (
        All-impl (λ x. live later (get x d) ≡ none) (λ x. live later (get x (remove sid d)) ≡ none)
          ids (λ x e. ground (arith, get-remove sid x d)) all)
      ∙ one_less (name_eq sid q)
    where
      one_less : Dec (sid ≡ q) → live later (get q (remove sid d)) ≡ live later (get q d)
      one_less (yes p) =
          ground (arith, get-remove sid q d, subst (λ y. live later (get y d) ≡ none) p dead)
      one_less (no n) = ground (arith, get-remove sid q d)

  -- The sessions that are answered for a worker are exactly those that it owns now, and the call
  -- changes no owner, now or later.
  pub get_sessions_for_worker-ok :
      (later : ℕ) (q : String) (r : SessionRegistry)
      → now ≤ later
      → Distinct r.entries
      → (In q (get_sessions_for_worker now w r).1 ↔ (owner now q r ≡ some w))
        × (owner later q (get_sessions_for_worker now w r).0 ≡ owner later q r)
  unfolding get_sessions_for_worker
  get_sessions_for_worker-ok later q r h u = (
    (λ i. scan_sound q r.entries u i, λ e. scan_complete q r.entries e),
    purge-live later q (scan now w r.entries).1 r.entries (
        All-impl (Expired r.entries) (λ sid. live later (get sid r.entries) ≡ none)
          (scan now w r.entries).1 (λ sid x. run_out sid x) (scan-Expired r.entries u)),
  )
    where
      run_out : (sid : String) → Expired r.entries sid → live later (get sid r.entries) ≡ none
      run_out sid (e, at, gone) = ground arith
