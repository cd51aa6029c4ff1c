-- ===== src/Base/Results.antt =====
-- `Result` of the standard library with its `?`, and the errors of the program, a constructor for
-- each place that makes one. The text of a message is left out.
use Prim.Native.Nat.{ℕ}
use mathlib.Core.Path.{◌≡◌, refl}
use mathlib.Core.Logic.{◌⊎◌, inl, inr}
use mathlib.Core.Option.{Option, none, some}

pub data Result {ℓ} (A : Type ℓ) (E : Type ℓ) : Type ℓ where
  ok : A → Result A E
  err : E → Result A E

infixl 5 ◌>>=◌
abbrev pub ◌>>=◌ {ℓ} : {A B E : Type ℓ} → Result A E → (A → Result B E) → Result B E
ok a >>= f = f a
err e >>= f = err e

-- `Option::ok_or`.
abbrev pub ok_or {ℓ} : {A E : Type ℓ} → Option A → E → Result A E
ok_or none e = err e
ok_or (some a) e = ok a

-- `Option::unwrap_or` and `Option::map`.
abbrev pub unwrap_or {ℓ} : {A : Type ℓ} → Option A → A → A
unwrap_or none d = d
unwrap_or (some a) d = a

abbrev pub map_option {ℓ κ} : {A : Type ℓ} {B : Type κ} → (A → B) → Option A → Option B
map_option f none = none
map_option f (some a) = some (f a)

pub data Error : Type 0 where
  io : Error
  parse_int : Error
  rapl_sampling_failed : Error
  nvml : ℕ → Error
  cf_string : Error
  io_kit : Error
  io_report_catalogue : Error
  io_report_subscription : Error
  io_report_samples : Error
  io_report_delta : Error
  io_report_channels : Error
  io_report_field : Error
  io_report_sampling_failed : Error
  other_hardware : Error
  json : Error
  verifying_key : Error
  signature_length : Error
  canonical_payload : Error
  signature : Error

pub Result-cases :
    {A : Type 0} (r : Result A Error) → ((e : Error) × (r ≡ err e)) ⊎ ((a : A) × (r ≡ ok a))
Result-cases (ok a) = inr (a, refl)
Result-cases (err e) = inl (e, refl)
