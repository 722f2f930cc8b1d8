-- ===== src/Gateway/State.antt =====
-- What the handlers of hatchery/core/gateway.py share: the backends of their configuration, and what a
-- handler answers. An HTTPException is its status code; the text that comes with it is left out. A
-- handler runs without a pause up to a wait for a job's result, since no method of the backends in
-- memory waits for another task while it holds its lock.
use Prim.Native.String.{◌++◌ as append}
use hatchery_core.Common.{ℕ, String, List, [], ◌∷◌}
use hatchery_core.Common.Errors.{Error, Result, ok, raise}
use hatchery_core.Metadata.Sessions.{MetadataStore}
use hatchery_core.Objects.{ObjectStore}
use hatchery_core.Queue.State.{JobQueue}

-- The stores of `Config` that the handlers write.
pub record Backends : Type 0 where
  pub metadata : MetadataStore
  pub objects : ObjectStore
  pub queue : JobQueue

-- The settings of `Config` that they read.
pub record Settings : Type 0 where
  pub sessions_prefix : String
  pub jobs_prefix : String
  pub inline_payload_threshold : ℕ

-- A return value, an HTTPException with its status code, or another exception.
pub data Answer {ℓ} (A : Type ℓ) : Type ℓ where
  answer : A → Answer A
  refuse : ℕ → Answer A
  crash : Error → Answer A

abbrev pub Handler {ℓ} : Type ℓ → Type ℓ
Handler A = Backends → Backends × Answer A

-- What follows runs where what comes before returns.
abbrev pub then_with {ℓ κ} :
    {A : Type ℓ} {B : Type κ} → Backends × Answer A → (A → Handler B) → Backends × Answer B
then_with (b, answer a) f = f a b
then_with (b, refuse code) f = (b, refuse code)
then_with (b, crash e) f = (b, crash e)

infixl 5 ◌>>=◌
abbrev pub ◌>>=◌ {ℓ κ} : {A : Type ℓ} {B : Type κ} → Handler A → (A → Handler B) → Handler B
(h >>= f) b = then_with (h b) f

infixl 5 ◌>>◌
abbrev pub ◌>>◌ {ℓ κ} : {A : Type ℓ} {B : Type κ} → Handler A → Handler B → Handler B
(h >> k) b = then_with (h b) (λ _. k)

abbrev pub done {ℓ} : {A : Type ℓ} → A → Handler A
done a b = (b, answer a)

abbrev pub of_result {ℓ} : {A : Type ℓ} → Result A → Answer A
of_result (ok a) = answer a
of_result (raise e) = crash e

-- A method of the metadata store, as a step of a handler.
abbrev pub on_metadata : (MetadataStore → MetadataStore × Result (Unit {0})) → Handler (Unit {0})
on_metadata f b = let (m, out) = f b.metadata in (record b { metadata = m }, of_result out)

-- The parts of an f-string
abbrev pub text : List String → String
text [] = ""
text (s ∷ l) = append s (text l)
