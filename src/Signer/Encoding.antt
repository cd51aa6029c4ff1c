-- ===== src/Signer/Encoding.antt =====
-- `serde_json` on a type that derives both `Serialize` and `Deserialize`.
use micro_joule_attribution.Base.{◌≡◌, Option, some}
use micro_joule_attribution.Base.Results.{Result, ok, Error}
use micro_joule_attribution.Signer.Keys.{Bytes}
use micro_joule_attribution.Signer.Json.{Value, JsonMap, IsValid}
use micro_joule_attribution.Signer.Json.Same.{Same}

-- The laws: a serialised value holds each key of an object once, and the text of it can be read back,
-- in whatever order the text has the fields.
pub record Serde (T : Type 0) : Type 0 where
  pub map : JsonMap
  pub to_value : T → Result Value Error
  pub to_vec : Value → Result Bytes Error
  pub from_slice : Bytes → Option T
  pub to_value-IsValid : (x : T) (v : Value) → to_value x ≡ ok v → IsValid v
  pub from_slice-to_vec :
      (x : T) (v w : Value) (b : Bytes)
      → to_value x ≡ ok v
      → Same v w
      → to_vec w ≡ ok b
      → from_slice b ≡ some x
