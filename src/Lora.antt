-- ===== src/Lora.antt =====
-- hatchery/core/lora_target_modules.py: the linear layers that a LoRA adapter targets. `lower` is
-- Python's `str.lower`, and `model_type` what `AutoConfig` of transformers says of a model: nothing if it
-- cannot be imported or raises, and else the text of the attribute, empty if there is none.
use Prim.Native.String.{find, len}
use hatchery_core.Common.{
  ℕ, String, Bool, true, false, not, ◌||◌, ◌&&◌, List, [], ◌∷◌, ◌++◌, Option, none, some, leb, same,
  if◌then◌else◌,
}
use hatchery_core.Common.Dict.{Dict, get}
pub mod Targets
mod Examples

abbrev pub Names : Type 0
Names = List String

-- The attention modules and the MLP modules of an architecture.
abbrev pub Modules : Type 0
Modules = Names × Names

abbrev pub llama_attn : Names
llama_attn = "q_proj" ∷ "k_proj" ∷ "v_proj" ∷ "o_proj" ∷ []

abbrev pub llama_mlp : Names
llama_mlp = "gate_proj" ∷ "up_proj" ∷ "down_proj" ∷ []

abbrev pub mla_attn : Names
mla_attn = "q_a_proj" ∷ "q_b_proj" ∷ "kv_a_proj_with_mqa" ∷ "kv_b_proj" ∷ "o_proj" ∷ []

abbrev pub mla_attn_all : Names
mla_attn_all = "q_proj" ∷ mla_attn

abbrev pub mla_mlp : Names
mla_mlp = "gate_proj" ∷ "up_proj" ∷ "down_proj" ∷ []

abbrev pub gpt2_attn : Names
gpt2_attn = "c_attn" ∷ []

abbrev pub gpt2_mlp : Names
gpt2_mlp = "c_fc" ∷ "c_proj" ∷ []

-- The first match wins.
abbrev pub rules : List (Names × Modules)
rules =
    ("deepseek-v3" ∷ "deepseek_v3" ∷ "deepseekv3" ∷ [], (mla_attn_all, mla_mlp))
    ∷ ("kimi-k2" ∷ "kimi_k2" ∷ "kimi-k25" ∷ "kimi_k25" ∷ [], (mla_attn_all, mla_mlp))
    ∷ ("llama" ∷ [], (llama_attn, llama_mlp))
    ∷ ("qwen" ∷ [], (llama_attn, llama_mlp))
    ∷ ("mistral" ∷ [], (llama_attn, llama_mlp))
    ∷ ("mixtral" ∷ [], (llama_attn, llama_mlp))
    ∷ ("gemma" ∷ [], (llama_attn, llama_mlp))
    ∷ ("phi-3" ∷ "phi3" ∷ "phi-2" ∷ "phi2" ∷ [], (llama_attn, llama_mlp))
    ∷ ("gpt2" ∷ "gpt-2" ∷ "gpt_neox" ∷ "gpt-neox" ∷ "pythia" ∷ [], (gpt2_attn, gpt2_mlp))
    ∷ []

abbrev pub model_type_rules : Dict Modules
model_type_rules =
    ("deepseek_v3", (mla_attn_all, mla_mlp))
    ∷ ("kimi_k2", (mla_attn_all, mla_mlp))
    ∷ ("kimi_k25", (mla_attn_all, mla_mlp))
    ∷ ("llama", (llama_attn, llama_mlp))
    ∷ ("qwen2", (llama_attn, llama_mlp))
    ∷ ("qwen2_moe", (llama_attn, llama_mlp))
    ∷ ("qwen3", (llama_attn, llama_mlp))
    ∷ ("qwen3_moe", (llama_attn, llama_mlp))
    ∷ ("mistral", (llama_attn, llama_mlp))
    ∷ ("mixtral", (llama_attn, llama_mlp))
    ∷ ("gemma", (llama_attn, llama_mlp))
    ∷ ("gemma2", (llama_attn, llama_mlp))
    ∷ ("gemma3_text", (llama_attn, llama_mlp))
    ∷ ("phi3", (llama_attn, llama_mlp))
    ∷ ("gpt2", (gpt2_attn, gpt2_mlp))
    ∷ ("gpt_neox", (gpt2_attn, gpt2_mlp))
    ∷ []

abbrev pub fallback : Modules
fallback = (llama_attn, llama_mlp)

-- `needle in name`
abbrev pub contains : String → String → Bool
contains name needle = leb (find name needle) (len name)

-- `any(n in name for n in needles)`
unfoldable pub any_in : String → Names → Bool
any_in name [] = false
any_in name (n ∷ ns) = contains name n || any_in name ns

unfoldable pub first_match : String → List (Names × Modules) → Option Modules
unfolding any_in
first_match name [] = none
first_match name ((needles, mods) ∷ rest) =
    if any_in name needles then some mods else first_match name rest

-- `x in seen`
unfoldable pub is_seen : String → Names → Bool
is_seen x [] = false
is_seen x (y ∷ ys) = same y x || is_seen x ys

-- The loop that appends the modules that were not seen; `out` and `seen` are its two variables.
unfoldable pub add_unseen : Names → Names × Names → Names × Names
unfolding is_seen
add_unseen [] (out, seen) = (out, seen)
add_unseen (m ∷ mods) (out, seen) =
    add_unseen mods (if is_seen m seen then (out, seen) else (out ++ m ∷ [], seen ++ m ∷ []))

-- `normalize` is `lower()` and then `replace("/", "_")`.
module _ (normalize lower : String → String) (model_type : String → Option String) where
  unfoldable pub resolve_by_name : String → Option Modules
  unfolding first_match
  resolve_by_name base_model = first_match (normalize base_model) rules

  unfoldable pub resolve_by_model_type : String → Option Modules
  resolve_by_model_type base_model = elim (model_type base_model) [
    | none ↦ none
    | some mt ↦ get (lower mt) model_type_rules
  ]

  unfoldable pub resolve : String → Modules
  unfolding resolve_by_name resolve_by_model_type
  resolve base_model = elim (resolve_by_name base_model) [
    | some hit ↦ hit
    | none ↦ elim (resolve_by_model_type base_model) [ some hit ↦ hit | none ↦ fallback ]
  ]

  unfoldable pub target_modules_for : String → Bool → Bool → Bool → Names
  unfolding resolve add_unseen is_seen
  target_modules_for base_model train_attn train_mlp train_unembed =
      let (attn_mods, mlp_mods) = resolve base_model in
      let first = if train_attn then add_unseen attn_mods ([], []) else ([], []) in
      let (out, seen) = if train_mlp then add_unseen mlp_mods first else first in
      if train_unembed && not (is_seen "lm_head" seen) then out ++ "lm_head" ∷ [] else out
