-- ===== src/Hardware/Macos/Release.antt =====
-- What the probe of macOS has not released when it returns.
use micro_joule_attribution.Base.{
  ℕ, ◌+◌, ◌≤◌, ◌≡◌, refl, ap, ◌∙◌, arith, List, [], ◌∷◌, ◌++◌, Option, none, some, Option-cases,
  inl, inr, ◌==◌, if◌then◌else◌, Bool-cases,
}
use micro_joule_attribution.Base.Texts.{Text}
use micro_joule_attribution.Base.Results.{err, Error}
use micro_joule_attribution.CoreFoundation.{
  Handle, Event, create, access, release, owning, CfString, cfstring_to_string, export_string,
  replay, replay-append,
}
use micro_joule_attribution.CoreFoundation.Replay.{
  mine, replay-create, replay-release, replay-access,
}
use micro_joule_attribution.Hardware.Macos.{
  IoKitAnswers, k_io_return_success, io_object_release, read_property, read_service,
  read_platform_serial, probe_macos,
}

-- The references to `r` that a release of the service with this code leaves.
abbrev pub unreleased : Handle → Handle → ℕ → ℕ
unreleased r service code = if code == k_io_return_success then 0 else mine r service

-- The references to `r` that are left: that to the service, if its key could not be made or its
-- release answered a code that is not a success.
abbrev pub leaked : Handle → Option Handle → Option Handle → ℕ → Option Handle → ℕ
leaked r none service code key = 0
leaked r (some matching) none code key = 0
leaked r (some matching) (some service) code none = mine r service
leaked r (some matching) (some service) code (some key) = unreleased r service code

module _ (to_string_lossy : List ℕ → Text) (r : Handle) where
  replay-export_string :
      (s : CfString) (max_size : Option ℕ) (n : ℕ)
      → mine r s.handle ≤ n
      → replay r (some n) (export_string to_string_lossy s max_size).0 ≡ some n
  unfolding export_string replay
  replay-export_string s none n h = replay-access r s.handle n [] h
  replay-export_string s (some max_size) n h =
      replay-access r s.handle n (access s.handle ∷ []) h ∙ replay-access r s.handle n [] h

  replay-io_object_release :
      (service : Handle) (code n : ℕ) (l : List Event)
      → replay r (some (mine r service + n)) (io_object_release service code ∷ l)
        ≡ replay r (some (unreleased r service code + n)) l
  unfolding io_object_release
  replay-io_object_release service code n l = elim (Bool-cases (code == k_io_return_success)) [
    | inl h ↦ rw h (replay-release r service n l ∙ ap (λ k. replay r (some k) l) (omega arith))
    | inr h ↦ rw h (replay-access r service (mine r service + n) l (omega arith))
  ]

  replay-read_property :
      (service : Handle) (code : ℕ) (property : Option CfString) (key : Handle) (n : ℕ)
      → mine r key ≤ n
      → replay r
          (some (mine r service + n))
          (read_property to_string_lossy service code property key).0
        ≡ some (unreleased r service code + n)
  unfolding read_property replay cfstring_to_string
  replay-read_property service code none key n h =
      let left = io_object_release service code ∷ [] in
      replay-access r service (mine r service + n) (access key ∷ left) (omega arith)
      ∙ replay-access r key (mine r service + n) left (omega (arith, h))
      ∙ replay-io_object_release service code n []
  replay-read_property service code (some property) key n h =
      let kept = unreleased r service code in
      let x = property.handle in
      let events = (export_string to_string_lossy property property.max_size).0 in
      let rest = events ++ release x ∷ [] in
      let left = io_object_release service code ∷ rest in
      replay-access r service (mine r service + n) (access key ∷ create x ∷ left) (omega arith)
      ∙ replay-access r key (mine r service + n) (create x ∷ left) (omega (arith, h))
      ∙ replay-create r x (mine r service + n) left
      ∙ ap (λ k. replay r (some k) left) (omega arith)
      ∙ replay-io_object_release service code (mine r x + n) rest
      ∙ ap (λ k. replay r (some k) rest) (omega arith)
      ∙ replay-append r (some (mine r x + (kept + n))) events (release x ∷ [])
      ∙ ap (λ o. replay r o (release x ∷ []))
          (replay-export_string property property.max_size (mine r x + (kept + n)) (omega arith))
      ∙ replay-release r x (kept + n) []

  replay-read_service :
      (service : Option Handle) (code : ℕ) (key : Option Handle) (property : Option CfString)
      (matching : Handle)
      → replay r (some 0) (read_service to_string_lossy service code key property).0
        ≡ some (leaked r (some matching) service code key)
  unfolding read_service owning replay
  replay-read_service none code key property matching = refl
  replay-read_service (some service) code none property matching =
      replay-create r service 0 [] ∙ ap some (omega arith)
  replay-read_service (some service) code (some key) property matching =
      let body = read_property to_string_lossy service code property in
      replay-create r service 0 (owning (some key) (err Error.cf_string) body).0
      ∙ replay-create r key (mine r service + 0) ((body key).0 ++ release key ∷ [])
      ∙ replay-append r (some (mine r key + (mine r service + 0))) (body key).0 (release key ∷ [])
      ∙ ap (λ k. replay r (replay r (some k) (body key).0) (release key ∷ [])) (omega arith)
      ∙ ap (λ o. replay r o (release key ∷ []))
          (replay-read_property service code property key (mine r key + 0) (omega arith))
      ∙ ap (λ k. replay r (some k) (release key ∷ [])) (omega arith)
      ∙ replay-release r key (unreleased r service code) []

-- Whatever the frameworks answer, the probe of macOS uses and releases no object without a
-- reference to it, and it leaves no reference but one to the service that was found, if the key
-- of the serial number cannot be made or the release of the service answers a code that is not a
-- success; such a release is taken to leave the reference.
pub probe_macos-leaked :
    (to_string_lossy : List ℕ → Text) (a : IoKitAnswers) (r : Handle)
    → replay r (some 0) (probe_macos to_string_lossy a).0
      ≡ some (leaked r a.matching a.service a.release_code a.key)
unfolding probe_macos read_platform_serial replay
probe_macos-leaked to_string_lossy a r = elim (Option-cases a.matching) [
  | inl none_there ↦ rw none_there refl
  | inr (m, there) ↦ rw there (
      replay-create r m 0 (
        access m
        ∷ release m
        ∷ (read_service to_string_lossy a.service a.release_code a.key a.property).0)
      ∙ replay-access r m (mine r m + 0)
          (release m ∷ (read_service to_string_lossy a.service a.release_code a.key a.property).0)
          (omega arith)
      ∙ replay-release r m 0
          (read_service to_string_lossy a.service a.release_code a.key a.property).0
      ∙ replay-read_service to_string_lossy r a.service a.release_code a.key a.property m)
]
