-- ===== src/Worker/Payload.antt =====
-- `_read_payload` of hatchery/core/worker.py. MessagePack, its empty dictionary and the decoding of
-- UTF-8 are parameters.
use hatchery_core.Common.{ℕ, String, Bool, ◌||◌, ◌&&◌, List, [], ◌∷◌, ◌==◌, leb, if◌then◌else◌}
use hatchery_core.Common.Errors.{Result, ok, ◌>>=◌}
use hatchery_core.Objects.{ObjectStore, get_blob}

-- The markers of a dictionary: 0x80 to 0x8f, 0xde and 0xdf
unfoldable pub is_msgpack : ℕ → Bool
is_msgpack first = (leb 128 first && leb first 143) || (first == 222 || first == 223)

unfoldable pub read_payload :
    {P : Type 0}
    → (List ℕ → Result P)
    → P
    → (List ℕ → Result String)
    → List ℕ
    → ObjectStore
    → Result P
unfolding is_msgpack
read_payload unpackb empty_dict decode [] s = ok empty_dict
read_payload unpackb empty_dict decode (first ∷ rest) s =
    if is_msgpack first
    then unpackb (first ∷ rest)
    else (do key ← decode (first ∷ rest); payload_bytes ← get_blob key s; unpackb payload_bytes)
