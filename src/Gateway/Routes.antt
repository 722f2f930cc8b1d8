-- ===== src/Gateway/Routes.antt =====
-- The routes of hatchery/core/gateway.py that answer at once: the sessions, the weights and the jobs of
-- a user.
use Prim.Native.Char.{code}
use Prim.Native.String.{[] as end, ◌∷◌ as char, len, slice as part}
use hatchery_core.Common.{
  ℕ, String, true, not, List, [], ◌∷◌, ◌==◌, map, Option, none, some, same, if◌then◌else◌,
}
use hatchery_core.Common.Dict.{get}
use hatchery_core.Common.Errors.{ok, raise}
use hatchery_core.Common.Sort.{sort_by}
use hatchery_core.Protocols.{SessionStatus}
use hatchery_core.Metadata.Fields.{SessionField}
use hatchery_core.Metadata.Sessions as Sessions
use hatchery_core.Objects.{ObjectStore, delete, exists, list_keys, copy, text_lt}
use hatchery_core.Queue.State.{member}
use hatchery_core.Gateway.State.{
  Settings, answer, refuse, crash, Handler, ◌>>=◌, ◌>>◌, done, on_metadata, text,
}
use hatchery_core.Gateway.Views.{
  SessionView, session_view, SessionItem, session_item, ResumeSessionResponse, resume_response,
  JobView, job_view,
}
use hatchery_core.Gateway.Ownership.{get_owned_session}

unfoldable pub get_session : ℕ → String → String → Handler SessionView
get_session now user_id session_id = do
  r ← get_owned_session now session_id user_id true
  done (session_view r)

unfoldable pub list_sessions : String → ℕ → ℕ → Handler (List SessionItem)
list_sessions user_id limit offset b = (
  b,
  answer (map session_item (Sessions.list_sessions (some user_id) none limit offset b.metadata)),
)

unfoldable pub resume_session : ℕ → String → String → Handler ResumeSessionResponse
resume_session now user_id session_id b = elim (get session_id b.metadata.sessions) [
  | none ↦ (b, refuse 404)
  | some r ↦
      if not (same r.user_id user_id)
      then (b, refuse 403)
      else if Sessions.same_status r.status SessionStatus.terminated
      then (b, refuse 410)
      else (do
        on_metadata (
            Sessions.update_session session_id
              (SessionField.status SessionStatus.active ∷ SessionField.last_accessed now ∷ []))
        done (resume_response r))
          b
]

abbrev pub live_state : Settings → String → String → String
live_state config session_id suffix =
    text (config.sessions_prefix ∷ "/" ∷ session_id ∷ "/live_state/" ∷ suffix ∷ [])

abbrev pub live_files : List String
live_files = "lora_weights.pt" ∷ "optimizer_state.pt" ∷ "grad_accum.pt" ∷ "session_meta.json" ∷ []

-- The loop of the cleanup; `delete` of a key that is not there does not raise.
unfoldable pub delete_files : Settings → String → List String → ObjectStore → ObjectStore
delete_files config session_id [] s = s
delete_files config session_id (f ∷ fs) s =
    delete_files config session_id fs (delete (live_state config session_id f) s)

unfoldable pub delete_session : Settings → ℕ → String → String → Handler (String × String)
unfolding delete_files
delete_session config now user_id session_id = do
  get_owned_session now session_id user_id true
  on_metadata
      (Sessions.update_session session_id (SessionField.status SessionStatus.terminated ∷ []))
  λ b. (
    record b { objects = delete_files config session_id live_files b.objects },
    answer (session_id, "terminated"),
  )

abbrev pub checkpoints_of : Settings → String → String
checkpoints_of config session_id =
    text (config.sessions_prefix ∷ "/" ∷ session_id ∷ "/checkpoints/" ∷ [])

abbrev pub weights_of : Settings → String → String → String
weights_of config session_id name =
    text
      (config.sessions_prefix ∷ "/" ∷ session_id ∷ "/checkpoints/" ∷ name ∷ "/lora_weights.pt" ∷ [])

-- `exists`, and `copy` of a key that is there
unfoldable pub copy_weights : String → String → Handler (Unit {0})
copy_weights src dst b =
    if not (exists src b.objects) then (b, refuse 409) else elim (copy src dst b.objects) [
      | ok s ↦ (record b { objects = s }, answer tt)
      | raise e ↦ (b, crash e)
    ]

unfoldable pub save_weights : Settings → ℕ → String → String → String → Handler String
unfolding copy_weights
save_weights config now user_id session_id name = do
  get_owned_session now session_id user_id true
  copy_weights (live_state config session_id "lora_weights.pt") (weights_of config session_id name)
  done (text ("tinker://" ∷ session_id ∷ "/checkpoints/" ∷ name ∷ []))

-- `rest.split("/", 1)[0]`, of a text with a slash
unfoldable pub before_slash : String → Option String
before_slash end = none
before_slash (char c s) =
    if code c == 47
    then some ""
    else elim (before_slash s) [ none ↦ none | some name ↦ some (char c name) ]

-- The set of the names, in no order that matters: `sorted` follows.
unfoldable pub checkpoint_names : ℕ → List String → List String
unfolding before_slash
checkpoint_names n [] = []
checkpoint_names n (k ∷ ks) =
    let names = checkpoint_names n ks in
    elim (before_slash (part k n (len k))) [
      | none ↦ names
      | some name ↦ if member name names then names else name ∷ names
    ]

unfoldable pub list_checkpoints : Settings → ℕ → String → String → Handler (List String)
unfolding checkpoint_names
list_checkpoints config now user_id session_id = do
  get_owned_session now session_id user_id true
  λ b. (
    b,
    answer (
        sort_by text_lt (
          checkpoint_names (len (checkpoints_of config session_id))
            (list_keys (checkpoints_of config session_id) b.objects))),
  )

unfoldable pub get_job : String → String → Handler JobView
get_job user_id job_id b = elim (get job_id b.metadata.jobs) [
  | none ↦ (b, refuse 404)
  | some r ↦ if not (same r.user_id user_id) then (b, refuse 403) else (b, answer (job_view r))
]
