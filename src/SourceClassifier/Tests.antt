-- ===== src/SourceClassifier/Tests.antt =====
-- Runs of `classify_source` of app/source_classifier.py.
use dmarc_geeks.Common.{[], false, none, refl, true, ◌≡◌, ◌≢◌}
use dmarc_geeks.SourceClassifier.Rules.{Source, classify_source, IsSuspect, is_spoofer}
use dmarc_geeks.SourceClassifier.Verdicts.{classify_source-IsSuspect, classify_source-ne-none}

abbrev source : Source
source = record {
  hostname = [];
  pass_count = 10;
  fail_count = 90;
  total_count = 100;
  is_mx_ip = false;
  is_in_allowlist = false;
  days_seen = 2;
}

spoofer_run : is_spoofer (classify_source source) ≡ true
unfolding classify_source
spoofer_run = refl

classify_source-IsSuspect_example : IsSuspect source
classify_source-IsSuspect_example = classify_source-IsSuspect source spoofer_run

classify_source-ne-none_example : classify_source source ≢ none
classify_source-ne-none_example = classify_source-ne-none source refl
