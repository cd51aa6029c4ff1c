-- ===== src/AppleSilicon/Channels.antt =====
-- The discovery of channels in src/providers/apple_silicon.rs: which ones are those of a GPU or of a
-- neural engine. A string stands for its UTF-8 bytes.
pub mod Occurrence
use micro_joule_attribution.Base.{
  ℕ, zero, suc, ◌+◌, ◌≡◌, ◌↔◌, refl, sym, ◌∙◌, ap, arith, List, [], ◌∷◌, ◌++◌, map, Bool, true,
  false, ◌&&◌, ◌||◌, not, ◌==◌, ==_iff, leb, if◌then◌else◌, length, Option, none, some, Bool-cases,
  inl, inr,
}
use micro_joule_attribution.Base.Texts.{Text, text}
use micro_joule_attribution.Base.Results.{Result, ok, err, Error, ok_or, ◌>>=◌}

abbrev pub energy_model_group : Text
energy_model_group = text "Energy Model"

unfoldable pub to_ascii_lowercase : ℕ → ℕ
to_ascii_lowercase c = if leb b'A' c && leb c b'Z' then c + 32 else c

-- `eq_ignore_ascii_case` of the standard library.
unfoldable pub eq_ignore_ascii_case : Text → Text → Bool
unfolding to_ascii_lowercase
eq_ignore_ascii_case [] [] = true
eq_ignore_ascii_case [] (d ∷ t) = false
eq_ignore_ascii_case (c ∷ s) [] = false
eq_ignore_ascii_case (c ∷ s) (d ∷ t) =
    to_ascii_lowercase c == to_ascii_lowercase d && eq_ignore_ascii_case s t

unfoldable pub take : ℕ → Text → Text
take zero s = []
take (suc n) [] = []
take (suc n) (c ∷ s) = c ∷ take n s

-- `slice::windows`: the parts of the given size, from left to right.
unfoldable pub windows : ℕ → Text → List Text
unfolding take
windows size [] = []
windows size (c ∷ s) =
    let rest = windows size s in if leb size (length (c ∷ s)) then take size (c ∷ s) ∷ rest else []

unfoldable pub any : (Text → Bool) → List Text → Bool
any p [] = false
any p (w ∷ ws) = p w || any p ws

unfoldable pub starts_with_ignore_ascii_case : Text → Text → Bool
unfolding eq_ignore_ascii_case take
starts_with_ignore_ascii_case haystack needle =
    leb (length needle) (length haystack)
    && eq_ignore_ascii_case (take (length needle) haystack) needle

unfoldable pub contains_ignore_ascii_case : Text → Text → Bool
unfolding eq_ignore_ascii_case windows any
contains_ignore_ascii_case haystack needle =
    if length needle == 0
    then true
    else if leb (length needle) (length haystack)
    then any (λ window. eq_ignore_ascii_case window needle) (windows (length needle) haystack)
    else false

unfoldable pub is_gpu_or_ane_energy_channel : Text → Text → Text → Bool
unfolding eq_ignore_ascii_case starts_with_ignore_ascii_case contains_ignore_ascii_case
is_gpu_or_ane_energy_channel group subgroup channel_name =
    if not (eq_ignore_ascii_case group energy_model_group)
    then false
    else starts_with_ignore_ascii_case channel_name (text "GPU")
      || starts_with_ignore_ascii_case channel_name (text "ANE")
      || contains_ignore_ascii_case subgroup (text "GPU")
      || contains_ignore_ascii_case subgroup (text "ANE")

pub record AppleEnergyChannel : Type 0 where
  pub group : Text
  pub subgroup : Text
  pub channel_name : Text
  pub unit_label : Text

-- A slot of the catalogue; a field is `none` if it is missing or no UTF-8.
pub record CatalogueChannel : Type 0 where
  pub group : Option Text
  pub subgroup : Option Text
  pub channel_name : Option Text
  pub unit_label : Option Text

unfoldable pub read_channel : CatalogueChannel → Result AppleEnergyChannel Error
read_channel c = do
  group ← ok_or c.group Error.io_report_field
  subgroup ← ok_or c.subgroup Error.io_report_field
  channel_name ← ok_or c.channel_name Error.io_report_field
  unit_label ← ok_or c.unit_label Error.io_report_field
  ok (record {
    group = group;
    subgroup = subgroup;
    channel_name = channel_name;
    unit_label = unit_label;
  })

unfoldable pub keep_channel : AppleEnergyChannel → List AppleEnergyChannel → List AppleEnergyChannel
unfolding is_gpu_or_ane_energy_channel
keep_channel c discovered =
    if is_gpu_or_ane_energy_channel c.group c.subgroup c.channel_name
    then c ∷ discovered
    else discovered

-- The loop over the catalogue; a null slot is skipped, and a field that cannot be read ends it.
unfoldable pub discover : List (Option CatalogueChannel) → Result (List AppleEnergyChannel) Error
unfolding read_channel keep_channel
discover [] = ok []
discover (none ∷ slots) = discover slots
discover (some slot ∷ slots) =
    let rest = discover slots in
    (read_channel slot >>= λ c. rest >>= λ discovered. ok (keep_channel c discovered))

-- The group's name, its catalogue, and the array of channels in it.
unfoldable pub discover_gpu_ane_channels :
    Bool → Option (Option (List (Option CatalogueChannel))) → Result (List AppleEnergyChannel) Error
unfolding discover
discover_gpu_ane_channels false catalogue = err Error.cf_string
discover_gpu_ane_channels true none = err Error.io_report_catalogue
discover_gpu_ane_channels true (some none) = err Error.io_report_channels
discover_gpu_ane_channels true (some (some slots)) = discover slots
