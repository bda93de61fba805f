-- ===== src/EnvFile/Tests.antt =====
-- Runs of app/env_file.py.
use dmarc_geeks.Common.{rstrip_by, nat_eq, text_eq}
use dmarc_geeks.Common.{is_space}
use dmarc_geeks.Common.{lstrip_by}
use dmarc_geeks.Common.{starts_with}
use dmarc_geeks.Common.{put}
use dmarc_geeks.Common.{ends_with}
use dmarc_geeks.Common.{split_once}
use dmarc_geeks.Common.{strip}
use dmarc_geeks.EnvFile.{parse_line}
use dmarc_geeks.Common.{join}
use dmarc_geeks.Common.{
  List, Text, [], lookup, refl, text, text_beq, true, ◌∷◌, ◌≡◌, nat_eq, text_eq,
}
use dmarc_geeks.EnvFile.{read_env, write_env}
use dmarc_geeks.EnvFile.Settings.{IsSetting}
use dmarc_geeks.EnvFile.Last.{or_opt}
use dmarc_geeks.EnvFile.RoundTrip.{is_dict, read_env-write_env}

abbrev file : Text
file = text "# mail\nA=1\nB = 'x'\n"

abbrev updates : List (Text × Text)
updates = (text "A", text "2") ∷ (text "C", text "3") ∷ []

written : write_env updates file ≡ text "# mail\nA=2\nB = 'x'\n\nC=3\n"
unfolding write_env join parse_line strip split_once text_beq ends_with lookup
written = refl

read_back : read_env file ≡ (text "A", text "1") ∷ (text "B", text "x") ∷ []
unfolding read_env strip split_once put text_beq starts_with ends_with
read_back = refl

a_fits : IsSetting (text "A") (text "2")
unfolding read_env lstrip_by is_space rstrip_by starts_with
a_fits = record {
  key_given = refl;
  key_lead = refl;
  no_comment = refl;
  no_equals = refl;
  key_trail = refl;
  value_lead = refl;
  value_trail = refl;
  value_bare = refl;
  key_line = refl;
  value_line = refl;
}

c_fits : IsSetting (text "C") (text "3")
unfolding read_env lstrip_by is_space rstrip_by starts_with
c_fits = record {
  key_given = refl;
  key_lead = refl;
  no_comment = refl;
  no_equals = refl;
  key_trail = refl;
  value_lead = refl;
  value_trail = refl;
  value_bare = refl;
  key_line = refl;
  value_line = refl;
}

updates_distinct : is_dict updates ≡ true
unfolding text_beq
updates_distinct = refl

read_env-write_env_example :
    lookup (text "C") (read_env (write_env updates file))
    ≡ or_opt (lookup (text "C") updates) (lookup (text "C") (read_env file))
read_env-write_env_example =
    read_env-write_env updates file (text "C") (a_fits, (c_fits, tt)) updates_distinct
