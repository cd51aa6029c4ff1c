-- ===== src/AppleSilicon/Handles.antt =====
-- The objects that src/providers/apple_silicon.rs owns: the calls of the frameworks that discovering
-- channels and sampling make, in order, with the releases where a local goes out of scope. What a call
-- answers is an argument, `none` for a null pointer.
pub mod Balance
use micro_joule_attribution.Base.{
  ℕ, List, [], ◌∷◌, ◌++◌, Bool, true, false, Option, none, some, replicate, if◌then◌else◌,
}
use micro_joule_attribution.CoreFoundation.{Handle, Event, create, access, release, owning}

-- `IoReportHandles`
pub record IoReportHandles : Type 0 where
  pub subscription : Handle
  pub previous_samples : Handle

-- `cf_dictionary_array`: the key is released when the array is known, or known to be missing.
unfoldable pub cf_dictionary_array : Handle → Option Handle → List Event
cf_dictionary_array dictionary none = []
cf_dictionary_array dictionary (some key) =
    create key ∷ access dictionary ∷ access key ∷ release key ∷ []

-- The array is there if the key could be made and the dictionary has it.
unfoldable pub has_array : Option Handle → Bool → Bool
has_array none present = false
has_array (some key) present = present

-- The walk over an array makes some number of calls on what its dictionary holds.
abbrev pub walk : Handle → ℕ → List Event
walk dictionary calls = replicate calls (access dictionary)

pub record CatalogueAnswers : Type 0 where
  pub group : Option Handle
  pub channel_root : Option Handle
  pub key : Option Handle
  pub present : Bool
  pub calls : ℕ

-- The rest of `discover_gpu_ane_channels` once the catalogue is there.
unfoldable pub read_catalogue : CatalogueAnswers → Handle → List Event × Unit {0}
unfolding cf_dictionary_array has_array
read_catalogue a root = (
  cf_dictionary_array root a.key ++ (if has_array a.key a.present then walk root a.calls else []),
  tt,
)

unfoldable pub copy_channels : CatalogueAnswers → Handle → List Event × Unit {0}
unfolding owning read_catalogue
copy_channels a group = (access group ∷ (owning a.channel_root tt (read_catalogue a)).0, tt)

unfoldable pub discover_gpu_ane_channels : CatalogueAnswers → List Event
unfolding owning copy_channels
discover_gpu_ane_channels a = (owning a.group tt (copy_channels a)).0

pub record OpenAnswers : Type 0 where
  pub group : Option Handle
  pub channels : Option Handle
  pub subscription : Option Handle
  pub samples : Option Handle

-- A subscription moves into the provider together with its first samples, or is released.
unfoldable pub first_samples : Option Handle → Option Handle → List Event × Option IoReportHandles
first_samples none samples = ([], none)
first_samples (some s) none = (create s ∷ access s ∷ release s ∷ [], none)
first_samples (some s) (some samples) = (
  create s ∷ access s ∷ create samples ∷ [],
  some (record { subscription = s; previous_samples = samples }),
)

unfoldable pub subscribe : OpenAnswers → Handle → List Event × Option IoReportHandles
unfolding first_samples
subscribe a channels =
    let (events, handles) = first_samples a.subscription a.samples in
    (access channels ∷ events, handles)

unfoldable pub catalogue : OpenAnswers → Handle → List Event × Option IoReportHandles
unfolding owning subscribe
catalogue a group =
    let (events, handles) = owning a.channels none (subscribe a) in (access group ∷ events, handles)

-- The first call of `sample_energy_model_delta`, with the handles that it leaves in the provider.
unfoldable pub open_handles : OpenAnswers → List Event × Option IoReportHandles
unfolding owning catalogue
open_handles a = owning a.group none (catalogue a)

pub record TickAnswers : Type 0 where
  pub samples : Option Handle
  pub delta : Option Handle
  pub key : Option Handle
  pub present : Bool
  pub calls : ℕ

-- The walk over a delta; once it is done the previous samples are replaced, and released.
unfoldable pub read_delta : TickAnswers → Handle → Handle → List Event × Bool
unfolding cf_dictionary_array has_array
read_delta a previous_samples delta = (
  cf_dictionary_array delta a.key
      ++ (if has_array a.key a.present
          then walk delta a.calls ++ release previous_samples ∷ []
          else []),
  has_array a.key a.present,
)

-- The new samples move into the provider, or are released.
unfoldable pub settle : IoReportHandles → Handle → List Event × Bool → List Event × IoReportHandles
settle h curr (events, true) =
    (events, record { subscription = h.subscription; previous_samples = curr })
settle h curr (events, false) = (events ++ release curr ∷ [], h)

unfoldable pub compare_samples :
    TickAnswers → IoReportHandles → Option Handle → List Event × IoReportHandles
unfolding owning read_delta settle
compare_samples a h none = ([], h)
compare_samples a h (some curr) =
    let (events, moved) = settle h curr (owning a.delta false (read_delta a h.previous_samples)) in
    (create curr ∷ access h.previous_samples ∷ access curr ∷ events, moved)

-- Any later call.
unfoldable pub next_samples : TickAnswers → IoReportHandles → List Event × IoReportHandles
unfolding compare_samples
next_samples a h =
    let (events, moved) = compare_samples a h a.samples in (access h.subscription ∷ events, moved)

-- A call on the provider, with what the frameworks answer to either form of a sample.
pub data Call : Type 0 where
  discover : CatalogueAnswers → Call
  sample : OpenAnswers → TickAnswers → Call

unfoldable pub sample_energy_model_delta :
    OpenAnswers → TickAnswers → Option IoReportHandles → List Event × Option IoReportHandles
unfolding open_handles next_samples
sample_energy_model_delta first later none = open_handles first
sample_energy_model_delta first later (some h) =
    let (events, moved) = next_samples later h in (events, some moved)

unfoldable pub make_call : Call → Option IoReportHandles → List Event × Option IoReportHandles
unfolding discover_gpu_ane_channels sample_energy_model_delta
make_call (discover a) handles = (discover_gpu_ane_channels a, handles)
make_call (sample first later) handles = sample_energy_model_delta first later handles

-- Dropping the provider drops its handles, field by field.
unfoldable pub drop_handles : Option IoReportHandles → List Event
drop_handles none = []
drop_handles (some h) = release h.subscription ∷ release h.previous_samples ∷ []

-- The life of a provider after the handles: a row of calls, and the drop.
unfoldable pub live : Option IoReportHandles → List Call → List Event
unfolding make_call drop_handles
live handles [] = drop_handles handles
live handles (c ∷ calls) = (make_call c handles).0 ++ live (make_call c handles).1 calls
