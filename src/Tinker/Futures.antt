-- ===== src/Tinker/Futures.antt =====
-- `_FutureRegistry`, `_SeqIdTracker` and the responses built on them, in
-- hatchery/core/tinker_compat.py. Fresh ids of the module uuid and the clock's readings are arguments;
-- a sequence number is not negative.
use Prim.Native.String.{◌++◌ as append}
use hatchery_core.Common.{
  ℕ, zero, suc, ◌+◌, ◌-◌, ◌%◌, String, Bool, List, [], ◌∷◌, ◌==◌, Option, none, some, ltb, length,
  filter, take, if◌then◌else◌,
}
use hatchery_core.Common.Dict.{Dict, get, insert, remove, get_or, keys}
use hatchery_core.Common.Sort.{sort_by}
use hatchery_core.Protocols.{SessionRecord}

abbrev pub registry_max_entries : ℕ
registry_max_entries = 100000

-- 3600 s, in milliseconds
abbrev pub registry_max_age : ℕ
registry_max_age = 3600000

-- `Response` and `Contexts` are dictionaries and contexts of hooks.
pub record FutureEntry (Response Contexts : Type 0) : Type 0 where
  pub job_id : String
  pub user_id : String
  pub operation : String
  pub inline_result : Option Response
  pub pre_op_contexts : Option Contexts
  pub session : Option SessionRecord
  pub created_at : ℕ

pub record FutureRegistry (Response Contexts : Type 0) : Type 0 where
  pub entries : Dict (FutureEntry Response Contexts)
  pub reg_count : ℕ

-- A loop of `del` or `pop` over keys
unfoldable pub remove_keys {ℓ} : {V : Type ℓ} → List String → Dict V → Dict V
remove_keys [] d = d
remove_keys (k ∷ ks) d = remove_keys ks (remove k d)

module _ {R C : Type 0} where
  abbrev pub created_before : ℕ → String × FutureEntry R C → Bool
  created_before now e = ltb (e.1.created_at + registry_max_age) now

  abbrev pub older : String × FutureEntry R C → String × FutureEntry R C → Bool
  older a b = ltb a.1.created_at b.1.created_at

  unfoldable pub sweep : ℕ → Dict (FutureEntry R C) → Dict (FutureEntry R C)
  unfolding remove_keys
  sweep now d =
      let fresh = remove_keys (keys (filter (created_before now) d)) d in
      if ltb registry_max_entries (length fresh)
      then remove_keys (take (length fresh - registry_max_entries) (keys (sort_by older fresh)))
          fresh
      else fresh

  -- `future_id` is "fut_" and a fresh number.
  unfoldable pub register : ℕ → String → FutureEntry R C → FutureRegistry R C → FutureRegistry R C
  unfolding sweep
  register now future_id entry r =
      let n = suc r.reg_count in
      let d = if n % 1000 == 0 then sweep now r.entries else r.entries in
      record { entries = insert future_id (record entry { created_at = now }) d; reg_count = n }

  abbrev pub lookup : String → FutureRegistry R C → Option (FutureEntry R C)
  lookup future_id r = get future_id r.entries

-- The envelope that the SDK expects.
pub record FutureResponse : Type 0 where
  pub request_id : String
  pub model_id : Option String
  pub future_id : String
  pub operation : String
  pub status : String

-- A dictionary with numbers as keys
abbrev pub NumberDict : Type 0
NumberDict = List (ℕ × FutureResponse)

unfoldable pub get_number : ℕ → NumberDict → Option FutureResponse
get_number n [] = none
get_number n ((k, v) ∷ d) = if k == n then some v else get_number n d

unfoldable pub insert_number : ℕ → FutureResponse → NumberDict → NumberDict
insert_number n v [] = (n, v) ∷ []
insert_number n v ((k, w) ∷ d) = if k == n then (n, v) ∷ d else (k, w) ∷ insert_number n v d

pub record SeqIdTracker : Type 0 where
  pub seen : Dict NumberDict
  pub ts : Dict ℕ
  pub check_count : ℕ

abbrev pub is_stale : ℕ → String × ℕ → Bool
is_stale now e = ltb (e.1 + registry_max_age) now

unfoldable pub sweep_seen : ℕ → SeqIdTracker → SeqIdTracker
unfolding remove_keys
sweep_seen now t =
    let stale = keys (filter (is_stale now) t.ts) in
    record t { seen = remove_keys stale t.seen; ts = remove_keys stale t.ts }

-- No number, or 0: the client did not set one.
unfoldable pub find_seen : String → Option ℕ → Dict NumberDict → Option FutureResponse
unfolding get_number
find_seen session_id none seen = none
find_seen session_id (some zero) seen = none
find_seen session_id (some (suc n)) seen = elim (get session_id seen) [
  | none ↦ none
  | some d ↦ get_number (suc n) d
]

unfoldable pub check : ℕ → String → Option ℕ → SeqIdTracker → SeqIdTracker × Option FutureResponse
unfolding sweep_seen find_seen
check now session_id seq_id t =
    let n = suc t.check_count in
    let t' = if n % 1000 == 0 then sweep_seen now t else t in
    (record t' { check_count = n }, find_seen session_id seq_id t'.seen)

unfoldable pub record_seen : ℕ → String → Option ℕ → FutureResponse → SeqIdTracker → SeqIdTracker
unfolding insert_number
record_seen now session_id none response t = t
record_seen now session_id (some zero) response t = t
record_seen now session_id (some (suc n)) response t = record t {
  seen =
      insert session_id (insert_number (suc n) response (get_or [] (get session_id t.seen))) t.seen;
  ts = insert session_id now t.ts;
}

-- The two tables of the module.
pub record Tables (R C : Type 0) : Type 0 where
  pub futures : FutureRegistry R C
  pub tracker : SeqIdTracker

-- `f"{operation}::{session_id}"`
abbrev pub scoped : String → String → String
scoped operation session_id = append operation (append "::" session_id)

module _ {R C : Type 0} where
  unfoldable pub future_response :
      ℕ
      → String
      → Option String
      → FutureEntry R C
      → FutureRegistry R C
      → FutureRegistry R C × FutureResponse
  unfolding register
  future_response now future_id model_id entry r = (
    register now future_id entry r,
    record {
      request_id = future_id;
      model_id = model_id;
      future_id = future_id;
      operation = entry.operation;
      status = "pending";
    },
  )

  -- What follows the check: the cached response, or a new one that is put on record.
  unfoldable pub cached_or_new :
      ℕ
      → String
      → String
      → Option ℕ
      → FutureEntry R C
      → FutureRegistry R C
      → SeqIdTracker
      → Option FutureResponse
      → Tables R C × FutureResponse
  unfolding future_response record_seen
  cached_or_new now future_id key seq_id entry futures tracker (some response) =
      (record { futures = futures; tracker = tracker }, response)
  cached_or_new now future_id key seq_id entry futures tracker none =
      let (futures', response) = future_response now future_id none entry futures in
      (
        record { futures = futures'; tracker = record_seen now key seq_id response tracker },
        response,
      )

  unfoldable pub idempotent_future_response :
      ℕ → String → String → Option ℕ → FutureEntry R C → Tables R C → Tables R C × FutureResponse
  unfolding check cached_or_new
  idempotent_future_response now future_id session_id seq_id entry t =
      let key = scoped entry.operation session_id in
      let (tracker, cached) = check now key seq_id t.tracker in
      cached_or_new now future_id key seq_id entry t.futures tracker cached
