-- ===== src/AppleSilicon/Handles/Balance.antt =====
-- Every object is released as often as it was created, and not used after that.
use micro_joule_attribution.Base.{
  ℕ, zero, suc, ◌+◌, ◌≤◌, ◌≡◌, refl, ap, ◌∙◌, arith, List, [], ◌∷◌, ◌++◌, Bool, true, false,
  if◌then◌else◌, Option, none, some,
}
use micro_joule_attribution.CoreFoundation.{
  Handle, Event, create, access, release, replay, replay-append, owning,
}
use micro_joule_attribution.CoreFoundation.Replay.{
  mine, replay-create, replay-release, replay-access, replay-owning,
}
use micro_joule_attribution.AppleSilicon.Handles.{
  IoReportHandles, cf_dictionary_array, has_array, walk, CatalogueAnswers, read_catalogue,
  copy_channels, discover_gpu_ane_channels, OpenAnswers, first_samples, settle, subscribe,
  catalogue, open_handles, TickAnswers, read_delta, compare_samples, next_samples, Call, discover,
  sample, sample_energy_model_delta, make_call, drop_handles, live,
}

module _ (r : Handle) where
  replay-walk :
      (x : Handle) (n calls : ℕ) → mine r x ≤ n → replay r (some n) (walk x calls) ≡ some n
  unfolding replay
  replay-walk x n zero h = refl
  replay-walk x n (suc calls) h = replay-access r x n (walk x calls) h ∙ replay-walk x n calls h

  replay-cf_dictionary_array :
      (x : Handle) (n : ℕ) (key : Option Handle)
      → mine r x ≤ n
      → replay r (some n) (cf_dictionary_array x key) ≡ some n
  unfolding replay cf_dictionary_array
  replay-cf_dictionary_array x zero none h = refl
  replay-cf_dictionary_array x (suc n) none h = refl
  replay-cf_dictionary_array x zero (some key) h = ground arith
  replay-cf_dictionary_array x (suc n) (some key) h = ground arith

  -- The references that the provider holds.
  abbrev held : Option IoReportHandles → ℕ
  held none = 0
  held (some h) = mine r h.subscription + mine r h.previous_samples

  balance-read_catalogue :
      (a : CatalogueAnswers) (n : ℕ) (root : Handle)
      → mine r root ≤ n
      → replay r (some n) (read_catalogue a root).0 ≡ some n
  unfolding read_catalogue replay
  balance-read_catalogue a n root h =
      let walked = replay-walk root n a.calls h in
      let rest = if has_array a.key a.present then walk root a.calls else [] in
      let keyed = replay-cf_dictionary_array root n a.key h in
      rw (replay-append r (some n) (cf_dictionary_array root a.key) rest, keyed)
        (ground (arith, walked))

  balance-copy_channels :
      (a : CatalogueAnswers) (n : ℕ) (group : Handle)
      → mine r group ≤ n
      → replay r (some n) (copy_channels a group).0 ≡ some n
  unfolding copy_channels
  balance-copy_channels a n group h =
      replay-access r group n (owning a.channel_root tt (read_catalogue a)).0 h
      ∙ replay-owning r (λ (u : Unit {0}). n) n a.channel_root tt (read_catalogue a) refl
          (λ root. balance-read_catalogue a (mine r root + n) root (omega arith))

  balance-discover :
      (a : CatalogueAnswers) (n : ℕ) → replay r (some n) (discover_gpu_ane_channels a) ≡ some n
  unfolding discover_gpu_ane_channels
  balance-discover a n =
      replay-owning r (λ (u : Unit {0}). n) n a.group tt (copy_channels a) refl
        (λ group. balance-copy_channels a (mine r group + n) group (omega arith))

  balance-first_samples :
      (subscription samples : Option Handle) (n : ℕ)
      → replay r (some n) (first_samples subscription samples).0
        ≡ some (held (first_samples subscription samples).1 + n)
  unfolding first_samples replay
  balance-first_samples none samples n = ap some (omega arith)
  balance-first_samples (some s) none n =
      replay-create r s n (access s ∷ release s ∷ [])
      ∙ replay-access r s (mine r s + n) (release s ∷ []) (omega arith)
      ∙ replay-release r s n []
      ∙ ap some (omega arith)
  balance-first_samples (some s) (some samples) n =
      replay-create r s n (access s ∷ create samples ∷ [])
      ∙ replay-access r s (mine r s + n) (create samples ∷ []) (omega arith)
      ∙ replay-create r samples (mine r s + n) []
      ∙ ap some (omega arith)

  balance-subscribe :
      (a : OpenAnswers) (n : ℕ) (channels : Handle)
      → mine r channels ≤ n
      → replay r (some n) (subscribe a channels).0 ≡ some (held (subscribe a channels).1 + n)
  unfolding subscribe
  balance-subscribe a n channels h =
      replay-access r channels n (first_samples a.subscription a.samples).0 h
      ∙ balance-first_samples a.subscription a.samples n

  balance-catalogue :
      (a : OpenAnswers) (n : ℕ) (group : Handle)
      → mine r group ≤ n
      → replay r (some n) (catalogue a group).0 ≡ some (held (catalogue a group).1 + n)
  unfolding catalogue
  balance-catalogue a n group h =
      replay-access r group n (owning a.channels none (subscribe a)).0 h
      ∙ replay-owning r (λ handles. held handles + n) n a.channels none (subscribe a) (omega arith)
          (λ x. balance-subscribe a (mine r x + n) x (omega arith) ∙ ap some (omega arith))

  balance-open_handles :
      (a : OpenAnswers) (n : ℕ)
      → replay r (some n) (open_handles a).0 ≡ some (held (open_handles a).1 + n)
  unfolding open_handles
  balance-open_handles a n =
      replay-owning r (λ handles. held handles + n) n a.group none (catalogue a) (omega arith)
        (λ x. balance-catalogue a (mine r x + n) x (omega arith) ∙ ap some (omega arith))

  -- The samples that are left when a delta was read, or not.
  abbrev left : Handle → Bool → ℕ
  left previous_samples moved = if moved then 0 else mine r previous_samples

  balance-walk :
      (found : Bool) (prev delta : Handle) (calls n : ℕ)
      → mine r delta ≤ n
      → replay r
          (some (mine r prev + n))
          (if found then walk delta calls ++ release prev ∷ [] else [])
        ≡ some (left prev found + n)
  unfolding replay
  balance-walk true prev delta calls n h =
      replay-append r (some (mine r prev + n)) (walk delta calls) (release prev ∷ [])
      ∙ ap (λ o. replay r o (release prev ∷ []))
          (replay-walk delta (mine r prev + n) calls (omega (arith, h)))
      ∙ replay-release r prev n []
      ∙ ap some (omega arith)
  balance-walk false prev delta calls n h = refl

  balance-read_delta :
      (a : TickAnswers) (n : ℕ) (prev delta : Handle)
      → mine r delta ≤ n
      → replay r (some (mine r prev + n)) (read_delta a prev delta).0
        ≡ some (left prev (read_delta a prev delta).1 + n)
  unfolding read_delta
  balance-read_delta a n prev delta h =
      let found = has_array a.key a.present in
      let rest = if found then walk delta a.calls ++ release prev ∷ [] else [] in
      replay-append r (some (mine r prev + n)) (cf_dictionary_array delta a.key) rest
      ∙ ap (λ o. replay r o rest)
          (replay-cf_dictionary_array delta (mine r prev + n) a.key (omega (arith, h)))
      ∙ balance-walk found prev delta a.calls n h

  balance-settle :
      (h : IoReportHandles) (curr : Handle) (outcome : List Event × Bool) (n m : ℕ)
      → replay r (some m) outcome.0
        ≡ some (left h.previous_samples outcome.1 + (mine r curr + (mine r h.subscription + n)))
      → replay r (some m) (settle h curr outcome).0
        ≡ some (held (some (settle h curr outcome).1) + n)
  unfolding settle replay
  balance-settle h curr (events, true) n m e = e ∙ ap some (omega arith)
  balance-settle h curr (events, false) n m e =
      let kept = mine r h.previous_samples + (mine r h.subscription + n) in
      replay-append r (some m) events (release curr ∷ [])
      ∙ ap (λ o. replay r o (release curr ∷ [])) (e ∙ ap some (omega arith))
      ∙ replay-release r curr kept []
      ∙ ap some (omega arith)

  balance-compare_samples :
      (a : TickAnswers) (h : IoReportHandles) (samples : Option Handle) (n : ℕ)
      → replay r (some (held (some h) + n)) (compare_samples a h samples).0
        ≡ some (held (some (compare_samples a h samples).1) + n)
  unfolding compare_samples replay
  balance-compare_samples a h none n = refl
  balance-compare_samples a h (some curr) n =
      let prev = h.previous_samples in
      let base = mine r curr + (mine r h.subscription + n) in
      let outcome = owning a.delta false (read_delta a prev) in
      let events = (settle h curr outcome).0 in
      replay-create r curr (held (some h) + n) (access prev ∷ access curr ∷ events)
      ∙ replay-access r prev (mine r curr + (held (some h) + n)) (access curr ∷ events)
          (omega arith)
      ∙ replay-access r curr (mine r curr + (held (some h) + n)) events (omega arith)
      ∙ ap (λ k. replay r (some k) events) (omega arith)
      ∙ balance-settle h curr outcome n (mine r prev + base) (
          replay-owning r (λ moved. left prev moved + base) (mine r prev + base) a.delta false
            (read_delta a prev) refl
            (λ d.
              ap (λ k. replay r (some k) (read_delta a prev d).0) (omega arith)
              ∙ balance-read_delta a (mine r d + base) prev d (omega arith)
              ∙ ap some (omega arith)))

  balance-make_call :
      (c : Call) (handles : Option IoReportHandles) (n : ℕ)
      → replay r (some (held handles + n)) (make_call c handles).0
        ≡ some (held (make_call c handles).1 + n)
  unfolding make_call sample_energy_model_delta next_samples
  balance-make_call (discover a) handles n = balance-discover a (held handles + n)
  balance-make_call (sample first later) none n =
      ap (λ k. replay r (some k) (open_handles first).0) (omega arith)
      ∙ balance-open_handles first n
  balance-make_call (sample first later) (some h) n =
      replay-access r h.subscription (held (some h) + n) (compare_samples later h later.samples).0
        (omega arith)
      ∙ balance-compare_samples later h later.samples n

  balance-drop_handles :
      (handles : Option IoReportHandles) (n : ℕ)
      → replay r (some (held handles + n)) (drop_handles handles) ≡ some n
  unfolding drop_handles replay
  balance-drop_handles none n = ap some (omega arith)
  balance-drop_handles (some h) n =
      ap (λ k. replay r (some k) (drop_handles (some h))) (omega arith)
      ∙ replay-release r h.subscription (mine r h.previous_samples + n)
          (release h.previous_samples ∷ [])
      ∙ replay-release r h.previous_samples n []

  balance-live :
      (calls : List Call) (handles : Option IoReportHandles) (n : ℕ)
      → replay r (some (held handles + n)) (live handles calls) ≡ some n
  unfolding live
  balance-live [] handles n = balance-drop_handles handles n
  balance-live (c ∷ calls) handles n =
      let rest = live (make_call c handles).1 calls in
      replay-append r (some (held handles + n)) (make_call c handles).0 rest
      ∙ ap (λ o. replay r o rest) (balance-make_call c handles n)
      ∙ balance-live calls (make_call c handles).1 n

-- Over the life of a provider, in which channels are discovered and energy is sampled any number
-- of times and whatever the frameworks answer, no object is used or released without a reference
-- to it, and once the provider is dropped no reference to any object is left.
pub live-balanced : (calls : List Call) (r : Handle) → replay r (some 0) (live none calls) ≡ some 0
live-balanced calls r =
    ap (λ k. replay r (some k) (live none calls)) (omega arith) ∙ balance-live r calls none 0
