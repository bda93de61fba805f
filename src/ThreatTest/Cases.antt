-- ===== src/ThreatTest/Cases.antt =====
-- app/threattest.py: `make_cases` and the headers of `build_message`, without the bodies and the
-- attachments. `formataddr` of the mail library is a parameter; so is whether the encrypted file
-- could be built.
use dmarc_geeks.Common.{
  All, All-append, All-imp, List, Option, String, Text, [], inl, inr, none, or_else, refl, some,
  split_once, strip, text, ◌++◌, ◌∷◌, ◌≡◌, ◌⊎◌,
}

pub record TestCase : Type 0 where
  pub id : Text
  pub name : Text
  pub category : Text
  pub header_from : Option Text
  pub impersonate_name : Option Text
  pub skip_reason : Option Text

plain : String → String → String → TestCase
plain i n c = record {
  id = text i;
  name = text n;
  category = text c;
  header_from = none;
  impersonate_name = none;
  skip_reason = none;
}

-- The case of the encrypted file, or the reason why there is none.
password_case : Option Text → TestCase
unfolding plain
password_case none = plain "eicar-password-zip" "EICAR in Passwort-ZIP (unscannbar)" "malware"
password_case (some reason) =
    record (plain "eicar-password-zip" "EICAR in Passwort-ZIP" "malware") {
      skip_reason = some (text "Verschluesseltes ZIP nicht baubar: " ++ reason);
    }

fixed_cases : Option Text → List TestCase
unfolding plain password_case
fixed_cases failure =
    plain "control" "Sauberer Kontroll-Fall" "baseline"
    ∷ plain "gtube" "GTUBE Spam-Test" "spam"
    ∷ plain "gtphish" "GTPHISH Phishing-Test" "phishing"
    ∷ plain "phish-url" "Phishing-Test-URL (AMTSO)" "phishing"
    ∷ plain "eicar-txt" "EICAR als .txt" "malware"
    ∷ plain "eicar-com" "EICAR als .com" "malware"
    ∷ plain "eicar-zip" "EICAR in .zip" "malware"
    ∷ plain "eicar-nested-zip" "EICAR in ZIP-in-ZIP" "malware"
    ∷ password_case failure
    ∷ plain "attach-exe" "Harmlose Datei als .exe" "attachment"
    ∷ plain "attach-js" "Harmlose Datei als .js" "attachment"
    ∷ plain "attach-hta" "Harmlose Datei als .hta" "attachment"
    ∷ plain "attach-double-ext" "Doppel-Endung rechnung.pdf.exe" "attachment"
    ∷ plain "safelinks-url" "Safe-Links URL-Rewrite" "safelinks"
    ∷ []

spoof_cases : Text → List TestCase
unfolding plain
spoof_cases [] = []
spoof_cases (c ∷ s) =
    record (plain "spoof-from" "" "spoof") {
      name = text "From-Spoof (" ++ ((c ∷ s) ++ text ")");
      header_from = some (c ∷ s);
    }
    ∷ []

impersonation_cases : Text → List TestCase
unfolding plain strip
impersonation_cases [] = []
impersonation_cases (c ∷ s) =
    record (plain "impersonation" "" "impersonation") {
      name = text "User-Impersonation (" ++ (strip (c ∷ s) ++ text ")");
      impersonate_name = some (strip (c ∷ s));
    }
    ∷ []

-- `None` and the empty text both leave a case out.
unfoldable pub make_cases : Text → Text → Option Text → List TestCase
unfolding fixed_cases spoof_cases impersonation_cases
make_cases spoof_from impersonate failure =
    fixed_cases failure ++ (spoof_cases spoof_from ++ impersonation_cases impersonate)

pub record Headers : Type 0 where
  pub subject : Text
  pub to : Text
  pub id_domain : Text
  pub run : Text
  pub case_id : Text
  pub category : Text
  pub sent_from : Text

-- `s.split("@", 1)[1] if "@" in s else "localhost"`
domain_of : Text → Text
unfolding split_once
domain_of s = elim (split_once b'@' s) [ none ↦ text "localhost" | some (a, b) ↦ b ]

-- A case with the sender's own From header.
abbrev IsPlain : TestCase → Type 0
IsPlain t = (t.header_from ≡ none) × (t.impersonate_name ≡ none)

password-IsPlain : (failure : Option Text) → IsPlain (password_case failure)
unfolding password_case plain
password-IsPlain none = (refl, refl)
password-IsPlain (some r) = (refl, refl)

fixed-IsPlain : (failure : Option Text) → All IsPlain (fixed_cases failure)
unfolding fixed_cases plain
fixed-IsPlain failure = (
  (refl, refl),
  (
    (refl, refl),
    (
      (refl, refl),
      (
        (refl, refl),
        (
          (refl, refl),
          (
            (refl, refl),
            (
              (refl, refl),
              (
                (refl, refl),
                (
                  password-IsPlain failure,
                  (
                    (refl, refl),
                    ((refl, refl), ((refl, refl), ((refl, refl), ((refl, refl), tt)))),
                  ),
                ),
              ),
            ),
          ),
        ),
      ),
    ),
  ),
)

module _ (formataddr : Text → Text → Text) where
  unfoldable pub sent_from : TestCase → Text → Text
  unfolding or_else
  sent_from t sender = elim (or_else (t.impersonate_name) []) [
    | [] ↦ or_else (t.header_from) sender
    | c ∷ s ↦ formataddr (c ∷ s) sender
  ]

  unfoldable pub build_message : TestCase → Text → Text → Text → Headers
  unfolding domain_of sent_from
  build_message t run_id sender recipient = record {
    subject = text "[M365-TEST][" ++ (run_id ++ (text "][" ++ (t.id ++ (text "] " ++ t.name))));
    to = recipient;
    id_domain = domain_of sender;
    run = run_id;
    case_id = t.id;
    category = t.category;
    sent_from = sent_from t sender;
  }

  -- A From header of the sender's address, plain or behind a display name.
  abbrev pub IsOwn : Text → TestCase → Type 0
  IsOwn sender t =
      (sent_from t sender ≡ sender)
      ⊎ ((name : Text) × (sent_from t sender ≡ formataddr name sender))

  IsPlain-IsOwn : (sender : Text) (t : TestCase) → IsPlain t → IsOwn sender t
  unfolding sent_from
  IsPlain-IsOwn sender t (h, k) = rw (h, k) (unfold or_else in inl refl)

  impersonation-IsOwn : (sender name : Text) → All (IsOwn sender) (impersonation_cases name)
  unfolding impersonation_cases plain
  impersonation-IsOwn sender [] = tt
  impersonation-IsOwn sender (c ∷ s) = (by_name (strip (c ∷ s)), tt)
    where
      by_name :
          (name : Text)
          → IsOwn sender (record (plain "impersonation" "" "impersonation") {
            name = text "User-Impersonation (" ++ (strip (c ∷ s) ++ text ")");
            impersonate_name = some name;
          })
      by_name [] = unfold sent_from or_else in inl refl
      by_name (d ∷ name) = unfold sent_from or_else in inr (d ∷ name, refl)

  -- Unless a forged address is asked for, every mail is sent from the sender's own address.
  pub make_cases-IsOwn :
      (impersonate sender : Text) (failure : Option Text)
      → All (IsOwn sender) (make_cases [] impersonate failure)
  unfolding make_cases spoof_cases
  make_cases-IsOwn impersonate sender failure =
      All-append (IsOwn sender) (fixed_cases failure) (impersonation_cases impersonate)
        (All-imp (fixed_cases failure) (IsPlain-IsOwn sender) (fixed-IsPlain failure))
        (impersonation-IsOwn sender impersonate)
