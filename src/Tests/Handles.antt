-- ===== src/Tests/Handles.antt =====
-- A provider that lives for four calls, and the probe of macOS, with handles that the frameworks give
-- out more than once.
use micro_joule_attribution.Base.{ℕ, ◌≡◌, refl, List, [], ◌∷◌, some, none, true}
use micro_joule_attribution.Base.Texts.{text}
use micro_joule_attribution.Base.Results.{ok}
use micro_joule_attribution.CoreFoundation.{cf, io, CfString, replay, fill, until_nul}
use micro_joule_attribution.AppleSilicon.Handles.{
  CatalogueAnswers, OpenAnswers, TickAnswers, Call, discover, sample, live,
}
use micro_joule_attribution.AppleSilicon.Handles.Balance.{live-balanced}
use micro_joule_attribution.Hardware.{HardwareIdentitySource, fmt}
use micro_joule_attribution.Hardware.Macos.{IoKitAnswers, probe_macos}
use micro_joule_attribution.Hardware.Macos.Release.{probe_macos-leaked}

abbrev catalogue_answers : CatalogueAnswers
catalogue_answers = record {
  group = some (cf 1);
  channel_root = some (cf 2);
  key = some (cf 3);
  present = true;
  calls = 4;
}

abbrev open_answers : OpenAnswers
open_answers = record {
  group = some (cf 1);
  channels = some (cf 2);
  subscription = some (cf 4);
  samples = some (cf 5);
}

abbrev tick : ℕ → TickAnswers
tick n = record {
  samples = some (cf n);
  delta = some (cf 9);
  key = some (cf 3);
  present = true;
  calls = 2;
}

-- The last tick gives no delta.
abbrev life : List Call
life =
    discover catalogue_answers
    ∷ sample open_answers (tick 6)
    ∷ sample open_answers (tick 7)
    ∷ sample open_answers (record (tick 8) { delta = none })
    ∷ []

live-balanced_example : replay (cf 6) (some 0) (live none life) ≡ some 0
live-balanced_example = live-balanced life (cf 6)

abbrev serial_string : CfString
serial_string = record {
  handle = cf 3;
  max_size = some 8;
  get_c_string = λ size. some (text "C02X");
}

abbrev answers : IoKitAnswers
answers = record {
  matching = some (cf 1);
  service = some (io 7);
  key = some (cf 2);
  property = some serial_string;
  release_code = 0;
}

macos_identity :
    (probe_macos (λ bytes. bytes) answers).1
    ≡ ok (record { fingerprint = text "C02X"; source = HardwareIdentitySource.macos_io_kit_serial })
unfolding probe_macos fill until_nul
macos_identity = refl

shown_identity :
    fmt (record { fingerprint = text "C02X"; source = HardwareIdentitySource.manual })
    ≡ text "C02X (source: Manual)"
unfolding fmt
shown_identity = refl

-- A release of the service that fails leaves its reference.
probe_macos-leaked_example :
    replay (io 7) (some 0) (probe_macos (λ bytes. bytes) (record answers { release_code = 5 })).0
    ≡ some 1
probe_macos-leaked_example =
    probe_macos-leaked (λ bytes. bytes) (record answers { release_code = 5 }) (io 7)
