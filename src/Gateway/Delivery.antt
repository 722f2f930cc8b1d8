-- ===== src/Gateway/Delivery.antt =====
-- What the worker reads of what the gateway enqueued: `_enqueue_job` of hatchery/core/gateway.py and
-- `_read_payload` of hatchery/core/worker.py.
use hatchery_core.Common.{
  ℕ, ◌≡◌, refl, String, Bool, true, false, List, [], ◌∷◌, none, some, leb, length, arith,
  Bool-cases, inl, inr, sym, ap, subst,
}
use hatchery_core.Common.Dict.{get, insert, get-insert_self}
use hatchery_core.Common.Errors.{Result, ok, or_raise, key_error}
use hatchery_core.Protocols.{JobRecord, JobStatus, QueuedJob}
use hatchery_core.Metadata.Jobs.{create_job}
use hatchery_core.Objects.{ObjectStore, put, get_blob}
use hatchery_core.Queue.State.{enqueue}
use hatchery_core.Worker.Payload.{is_msgpack, read_payload}
use hatchery_core.Gateway.State.{Backends, Settings, Answer, answer}
use hatchery_core.Gateway.Jobs.{
  Codec, Routing, enqueue_job, submit, put_payload, sign_payload, payload_key_of, queued_record,
  queued_job,
}

-- The first byte, tested for a marker.
abbrev pub StartsAs : Bool → List ℕ → Type 0
unfolding is_msgpack
StartsAs b [] = ¬ Unit {0}
StartsAs b (x ∷ xs) = is_msgpack x ≡ b

module _ {P : Type 0} (c : Codec P) (unpackb : List ℕ → Result P) (empty_dict : P)
    (decode : List ℕ → Result String) where
  read_payload-inline :
      (s : ObjectStore) (p : P) (bytes : List ℕ)
      → StartsAs true bytes
      → unpackb bytes ≡ ok p
      → read_payload unpackb empty_dict decode bytes s ≡ ok p
  unfolding read_payload
  read_payload-inline s p [] marked e = absurd (marked tt)
  read_payload-inline s p (x ∷ xs) marked e = ground arith

  read_payload-stored :
      (s : ObjectStore) (p : P) (key : String) (blob bytes : List ℕ)
      → StartsAs false bytes
      → decode bytes ≡ ok key
      → get_blob key s ≡ ok blob
      → unpackb blob ≡ ok p
      → read_payload unpackb empty_dict decode bytes s ≡ ok p
  unfolding read_payload
  read_payload-stored s p key blob [] plain d g e = absurd (plain tt)
  read_payload-stored s p key blob (x ∷ xs) plain d g e = rw (plain, d, g, e) refl

  -- The job's record is stored as queued, the job is the one put into the queue, and what the worker
  -- reads for it is this payload.
  pub record IsDelivered (now : ℕ) (p : P) (b : Backends) (out : Backends × Answer JobRecord)
      (r : JobRecord) (job : QueuedJob) : Type 0 where
    pub answered : out.1 ≡ answer r
    pub recorded : get r.job_id out.0.metadata.jobs ≡ some r
    pub status : r.status ≡ JobStatus.queued
    pub ids :
        (job.job_id ≡ r.job_id) × (job.session_id ≡ r.session_id) × (job.user_id ≡ some r.user_id)
    pub lined_up : out.0.queue ≡ enqueue now job b.queue
    pub readable : read_payload unpackb empty_dict decode job.payload out.0.objects ≡ ok p

  -- The backends after the record and the job are in.
  abbrev submitted : ℕ → JobRecord → QueuedJob → ObjectStore → Backends → Backends
  submitted now r job s b = record b {
    metadata = record b.metadata { jobs = insert r.job_id r b.metadata.jobs };
    objects = s;
    queue = enqueue now job b.queue;
  }

  submit_lem :
      (now : ℕ) (r : JobRecord) (job : QueuedJob) (b : Backends)
      → get r.job_id b.metadata.jobs ≡ none
      → submit now r job b ≡ (submitted now r job b.objects b, answer r)
  unfolding submit create_job
  submit_lem now r job b new = rw new refl

  module _ (config : Settings) (signers : List (String → P → P)) (now : ℕ)
      (job_id session_id user_id operation : String) (payload : P) (routing : Routing)
      (b : Backends) where
    abbrev signed : P
    signed = sign_payload signers session_id payload

    abbrev key : String
    key = payload_key_of config job_id

    abbrev row : JobRecord
    row = queued_record now job_id session_id user_id operation

    abbrev job_with : List ℕ → QueuedJob
    job_with transport = queued_job now job_id session_id user_id operation transport routing

    abbrev stored : ObjectStore
    stored = put c.str now key (c.packb signed) "application/octet-stream" none b.objects

    abbrev run : Backends × Answer JobRecord
    run = enqueue_job c config signers now job_id session_id user_id operation payload routing b

    delivered :
        (r : JobRecord) (transport : List ℕ) (s : ObjectStore)
        → r.job_id ≡ job_id
        → r.session_id ≡ session_id
        → r.user_id ≡ user_id
        → r.status ≡ JobStatus.queued
        → read_payload unpackb empty_dict decode transport s ≡ ok signed
        → IsDelivered now signed b
            (submitted now r (job_with transport) s b, answer r)
            r
            (job_with transport)
    delivered r transport s i j k q e = record {
      answered = refl;
      recorded = get-insert_self r.job_id r b.metadata.jobs;
      status = q;
      ids = (sym i, sym j, ap some (sym k));
      lined_up = refl;
      readable = e;
    }

    -- The bytes of a payload begin with the marker of a dictionary, those of a key do not, and both
    -- codecs read what they write. Then a job with a new id is accepted, whether its payload stays in
    -- the job or goes to the object store: its record is stored as queued under its id, it is the one
    -- job put into the queue, for its session and its user, and the worker reads from it the payload
    -- that the signers left.
    pub enqueue_job-IsDelivered :
        StartsAs true (c.packb signed)
        → StartsAs false (c.encode key)
        → unpackb (c.packb signed) ≡ ok signed
        → decode (c.encode key) ≡ ok key
        → get job_id b.metadata.jobs ≡ none
        → (r : JobRecord) × (job : QueuedJob) × IsDelivered now signed b run r job
    unfolding enqueue_job put_payload put get_blob
    enqueue_job-IsDelivered marked plain unpack back new =
        elim (Bool-cases (leb (length (c.packb signed)) config.inline_payload_threshold)) [
          | inl small ↦
              let r = record row { payload_inline = some (c.packb signed) } in
              let job = job_with (c.packb signed) in
              let ran : run ≡ (submitted now r job b.objects b, answer r) =
                rw small (submit_lem now r job b new) in
              (
                r,
                job,
                subst (λ out. IsDelivered now signed b out r job) (sym ran)
                    (delivered r (c.packb signed) b.objects refl refl refl refl
                      (read_payload-inline b.objects signed (c.packb signed) marked unpack)),
              )
          | inr large ↦
              let r = record row { payload_key = some key } in
              let job = job_with (c.encode key) in
              let ran : run ≡ (submitted now r job stored b, answer r) =
                rw large (submit_lem now r job (record b { objects = stored }) new) in
              (
                r,
                job,
                subst (λ out. IsDelivered now signed b out r job) (sym ran)
                    (delivered r (c.encode key) stored refl refl refl refl (
                      read_payload-stored stored signed key (c.packb signed) (c.encode key) plain
                        back
                        (ap (λ o. or_raise o key_error) (get-insert_self key _ b.objects.blobs))
                        unpack)),
              )
        ]
