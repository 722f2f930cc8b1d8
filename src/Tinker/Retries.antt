-- ===== src/Tinker/Retries.antt =====
-- A repeated request gets the future of the first one: `_idempotent_future_response` of
-- hatchery/core/tinker_compat.py.
use hatchery_core.Common.{ℕ, suc, String, List, [], ◌∷◌, Option}
use hatchery_core.Tinker.Futures.{
  FutureEntry, FutureResponse, check, Tables, scoped, idempotent_future_response, cached_or_new,
}
use hatchery_core.Tinker.Records.{IsRecorded}

-- A call of the function, with its clock reading and the fresh id.
pub record Call (R C : Type 0) : Type 0 where
  pub now : ℕ
  pub future_id : String
  pub session_id : String
  pub seq_id : Option ℕ
  pub entry : FutureEntry R C

module _ {R C : Type 0} where
  abbrev pub respond : Call R C → Tables R C → Tables R C × FutureResponse
  respond c t = idempotent_future_response c.now c.future_id c.session_id c.seq_id c.entry t

  abbrev pub key_of : Call R C → String
  key_of c = scoped c.entry.operation c.session_id

  unfoldable pub respond_all : List (Call R C) → Tables R C → Tables R C
  respond_all [] t = t
  respond_all (c ∷ cs) t = respond_all cs (respond c t).0

  -- What the function does with the answer of the check.
  abbrev answered : Call R C → Tables R C → Option FutureResponse → Tables R C × FutureResponse
  answered c s cached =
      cached_or_new c.now c.future_id (key_of c) c.seq_id c.entry s.futures
        (check c.now (key_of c) c.seq_id s.tracker).0 cached

  module _ (key : String) (n : ℕ) (r : FutureResponse) (t : ℕ) where
    abbrev Recorded : Tables R C → Type 0
    Recorded s = IsRecorded key (suc n) r t s.tracker
