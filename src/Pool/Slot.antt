-- ===== src/Pool/Slot.antt =====
-- `PoolSlot` of hatchery/core/model_pool.py, and what the two pools share. Models and tokenizers
-- are objects of torch and transformers: `Model` and `Tok` stand for their types.
use hatchery_core.Common.{
  ℕ, ◌-◌, String, Bool, false, List, [], ◌∷◌, Option, none, some, leb, length, if◌then◌else◌,
}
use hatchery_core.Common.Dict.{Dict}
use hatchery_core.Common.Errors.{Result, ok, ◌>>=◌}

pub record PoolSlot (Model Tok : Type 0) : Type 0 where
  pub base_model_name : String
  pub raw_base : Option Model
  pub peft_model : Option Model
  pub adapters : List String
  pub last_touched : ℕ
  pub load_time : Option ℕ
  pub parallel_applied : Bool
  pub precision_applied : Bool
  pub tokenizer : Option Tok
  pub processor : Option Tok
  pub is_vlm : Bool
  pub vision_token_ids : List ℕ
  pub host_state_dict : Option (Dict Model)
  pub quant_scheme : String
  pub pristine_sd : Option (Dict Model)
  pub active_session_id : Option String

-- What `_load_tokenizer_and_processor` returns.
pub record Tokenizers (Tok : Type 0) : Type 0 where
  pub tokenizer : Option Tok
  pub processor : Option Tok
  pub is_vlm : Bool
  pub vision_token_ids : List ℕ

-- The hooks `loader` and `tokenizer_loader`, and the detection of the scheme; each may raise.
pub record Loader (Model Tok : Type 0) : Type 0 where
  pub load_base : String → Result Model
  pub detect_scheme : Model → String → Result String
  pub load_tokenizer : String → Model → Result (Tokenizers Tok)

-- The clock: at a hit, before and after the base is loaded, and when the slot is made.
pub record Times : Type 0 where
  pub touched : ℕ
  pub started : ℕ
  pub finished : ℕ
  pub made : ℕ

module _ {Model Tok : Type 0} where
  -- The second half of `get_or_load`: the base, its scheme, its tokenizer, the slot.
  unfoldable pub load_slot : Loader Model Tok → Times → String → Result (PoolSlot Model Tok)
  load_slot loader t name = do
    raw ← loader.load_base name
    scheme ← loader.detect_scheme raw name
    toks ← loader.load_tokenizer name raw
    ok (record {
      base_model_name = name;
      raw_base = some raw;
      peft_model = none;
      adapters = [];
      last_touched = t.made;
      load_time = some (t.finished - t.started);
      parallel_applied = false;
      precision_applied = false;
      tokenizer = toks.tokenizer;
      processor = toks.processor;
      is_vlm = toks.is_vlm;
      vision_token_ids = toks.vision_token_ids;
      host_state_dict = none;
      quant_scheme = scheme;
      pristine_sd = none;
      active_session_id = none;
    })

  -- `slot.last_touched = time.time()`
  abbrev pub touch : ℕ → PoolSlot Model Tok → PoolSlot Model Tok
  touch now slot = record slot { last_touched = now }

  -- The loop that makes room in a dictionary of slots: as long as it is full, its first slot is
  -- popped and torn down, by the `_teardown_slot` of the pool. It walks down the slots.
  unfoldable pub make_room :
      (PoolSlot Model Tok → PoolSlot Model Tok)
      → ℕ
      → Dict (PoolSlot Model Tok)
      → List (PoolSlot Model Tok)
      → Dict (PoolSlot Model Tok) × List (PoolSlot Model Tok)
  make_room teardown max [] out = ([], out)
  make_room teardown max ((name, slot) ∷ rest) out =
      let gone = make_room teardown max rest (teardown slot ∷ out) in
      if leb max (length ((name, slot) ∷ rest)) then gone else ((name, slot) ∷ rest, out)
