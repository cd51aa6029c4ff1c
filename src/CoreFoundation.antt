-- ===== src/CoreFoundation.antt =====
-- The objects of CoreFoundation and of IOKit that src/core/hardware.rs and
-- src/providers/apple_silicon.rs own. An object is created with one reference, or gets one more if the
-- framework answers an object that exists already, and it must be released once for each of them. What
-- is borrowed from an object, such as an array in a dictionary, lives as long as it: a call on it is a
-- use of its owner.
pub mod Replay
use micro_joule_attribution.Base.{
  ℕ, zero, suc, ◌-◌, ◌==◌, ◌≡◌, refl, ap, sym, ◌∙◌, arith, List, [], ◌∷◌, ◌++◌, Bool, true, false,
  if◌then◌else◌, Option, none, some, length, replicate, All, ◌<◌, ◌+◌, Option-cases, inl, inr,
}
use micro_joule_attribution.Base.Texts.{Text}
use micro_joule_attribution.Base.Results.{Result, ok, err, Error}

pub data Handle : Type 0 where
  cf : ℕ → Handle
  io : ℕ → Handle

abbrev pub is_same : Handle → Handle → Bool
is_same (cf a) (cf b) = a == b
is_same (cf a) (io b) = false
is_same (io a) (cf b) = false
is_same (io a) (io b) = a == b

-- A call that answers an owned object, one on an object, and one that gives a reference up.
pub data Event : Type 0 where
  create : Handle → Event
  access : Handle → Event
  release : Handle → Event

-- The references to `r` after one event, if it is allowed: what has no reference may not be touched.
unfoldable pub replay_one : Handle → ℕ → Event → Option ℕ
replay_one r n (create x) = if is_same x r then some (suc n) else some n
replay_one r zero (access x) = if is_same x r then none else some zero
replay_one r (suc n) (access x) = some (suc n)
replay_one r zero (release x) = if is_same x r then none else some zero
replay_one r (suc n) (release x) = if is_same x r then some n else some (suc n)

unfoldable pub replay : Handle → Option ℕ → List Event → Option ℕ
unfolding replay_one
replay r n [] = n
replay r none (e ∷ l) = none
replay r (some n) (e ∷ l) = replay r (replay_one r n e) l

-- An object that a local of the source holds while `body` runs: it is released where the local goes
-- out of scope, on every path. A null pointer is an early return with `failed`.
unfoldable pub owning {ℓ} :
    {B : Type ℓ} → Option Handle → B → (Handle → List Event × B) → List Event × B
owning none failed body = ([], failed)
owning (some x) failed body = (create x ∷ ((body x).0 ++ release x ∷ []), (body x).1)

pub replay-none : (r : Handle) (l : List Event) → replay r none l ≡ none
unfolding replay
replay-none r [] = refl
replay-none r (e ∷ l) = refl

pub replay-append :
    (r : Handle) (n : Option ℕ) (l m : List Event) → replay r n (l ++ m) ≡ replay r (replay r n l) m
unfolding replay
replay-append r n [] m = refl
replay-append r none (e ∷ l) m = sym (replay-none r m)
replay-append r (some n) (e ∷ l) m = replay-append r (replay_one r n e) l m

-- A string as the framework answers about it: the most bytes that it takes in UTF-8, `none` if that is
-- negative, and the bytes that are put into a buffer of a given size, in front of a NUL.
pub record CfString : Type 0 where
  pub handle : Handle
  pub max_size : Option ℕ
  pub get_c_string : ℕ → Option (List ℕ)

-- The bytes of a buffer after others were written to its start; what does not fit is not written.
unfoldable pub fill : List ℕ → List ℕ → List ℕ
fill [] buffer = buffer
fill (c ∷ content) [] = []
fill (c ∷ content) (b ∷ buffer) = c ∷ fill content buffer

-- `CStr::from_ptr`
unfoldable pub until_nul : List ℕ → List ℕ
until_nul [] = []
until_nul (b ∷ buffer) = let rest = until_nul buffer in if b == 0 then [] else b ∷ rest

-- The text in a buffer of the given size; `to_string_lossy` is the library's.
unfoldable pub read_buffer : (List ℕ → Text) → ℕ → Option (List ℕ) → Result Text Error
unfolding fill until_nul
read_buffer to_string_lossy size none = err Error.cf_string
read_buffer to_string_lossy size (some content) =
    ok (to_string_lossy (until_nul (fill (content ++ 0 ∷ []) (replicate size 0))))

unfoldable pub export_string :
    (List ℕ → Text) → CfString → Option ℕ → List Event × Result Text Error
unfolding read_buffer
export_string to_string_lossy s none = (access s.handle ∷ [], err Error.cf_string)
export_string to_string_lossy s (some max_size) = (
  access s.handle ∷ access s.handle ∷ [],
  read_buffer to_string_lossy (max_size + 1) (s.get_c_string (max_size + 1)),
)

unfoldable pub cfstring_to_string :
    (List ℕ → Text) → Option CfString → List Event × Result Text Error
unfolding export_string
cfstring_to_string to_string_lossy none = ([], err Error.cf_string)
cfstring_to_string to_string_lossy (some s) = export_string to_string_lossy s s.max_size

-- What is exported is the content, if it has no NUL of its own and fits into the buffer.
pub until_nul-fill :
    (content : List ℕ) (size : ℕ)
    → All (λ b. 0 < b) content
    → length content < size
    → until_nul (fill (content ++ 0 ∷ []) (replicate size 0)) ≡ content
unfolding until_nul fill
until_nul-fill [] (suc size) a h = refl
until_nul-fill (c ∷ content) (suc size) a h =
    ground (arith, a.0, until_nul-fill content size a.1 (omega (arith, h)))
until_nul-fill content zero a h = absurd (omega (arith, h))
