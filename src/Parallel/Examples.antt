-- ===== src/Parallel/Examples.antt =====
-- The configuration of an empty environment.
use hatchery_core.Common.{
  ◌⊎◌, ◌↔◌, ◌≡◌, refl, String, false, true, [], none, same, if◌then◌else◌, name_eq,
}
use hatchery_core.Common.Dict.{get}
use hatchery_core.Common.Int.{ℤ, pos}
use hatchery_core.Common.Errors.{Result, ok, raise, value_error}
use hatchery_core.Parallel.Checks.{HasMany, post_init-is_distributed}
use hatchery_core.Parallel.{is_distributed, post_init, ParallelConfig, post_init, from_env}

abbrev int : String → Result ℤ
int s = if same s "1" then ok (pos 1) else raise value_error

abbrev single : ParallelConfig
single = record {
  dp_degree = pos 1;
  tp_degree = pos 1;
  cp_degree = pos 1;
  sequence_parallel = false;
  offload = record {
    cpu_offload_params = false;
    cpu_offload_optimizer = false;
    activation_checkpointing = false;
    nvme_path = none;
  };
  batch_strategy = "auto";
  sequence_packing = false;
  max_packed_len = none;
  quant = record {
    scheme = "none";
    force = false;
    require_full_param = true;
    fp8_mode = "weight_only";
  };
}

from_env-run : from_env (λ s. s) int [] ≡ ok single
unfolding from_env post_init get name_eq
from_env-run = refl

abbrev sharded : ParallelConfig
sharded = record single { tp_degree = pos 4 }

sharded-run : post_init sharded ≡ ok sharded
unfolding post_init
sharded-run = refl

post_init-is_distributed_example :
    (is_distributed sharded ≡ true) ↔ (HasMany (pos 1) ⊎ (HasMany (pos 4) ⊎ HasMany (pos 1)))
post_init-is_distributed_example = post_init-is_distributed sharded sharded-run
