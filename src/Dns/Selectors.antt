-- ===== src/Dns/Selectors.antt =====
-- app/dns_utils.py: the table DKIM_SELECTORS, and `selectors or DKIM_SELECTORS`.
use dmarc_geeks.Common.{List, Text, [], text, ◌++◌, ◌∷◌}

-- The table in parts.
first : List Text
first =
    text "default"
    ∷ text "dkim"
    ∷ text "mail"
    ∷ text "email"
    ∷ text "smtp"
    ∷ text "google"
    ∷ text "google2024"
    ∷ text "google2023"
    ∷ text "20230601"
    ∷ text "20240601"
    ∷ text "20250101"
    ∷ text "selector1"
    ∷ text "selector2"
    ∷ text "s1"
    ∷ text "s2"
    ∷ text "s3"
    ∷ text "k1"
    ∷ text "k2"
    ∷ text "k3"
    ∷ text "sm1"
    ∷ text "sm2"
    ∷ text "dkim1"
    ∷ text "dkim2"
    ∷ text "mta1"
    ∷ text "mta2"
    ∷ text "mandrill"
    ∷ []

second : List Text
second =
    text "mailchimp"
    ∷ text "mc1"
    ∷ text "mc2"
    ∷ text "sendgrid"
    ∷ text "s1._domainkey"
    ∷ text "amazonses"
    ∷ text "ses"
    ∷ text "ses1"
    ∷ text "klaviyo"
    ∷ text "klaviyo1"
    ∷ text "klaviyo2"
    ∷ text "mailgun"
    ∷ text "mg"
    ∷ text "mg1"
    ∷ text "mg2"
    ∷ text "k1.mailgun"
    ∷ text "postmark"
    ∷ text "pm"
    ∷ text "sparkpost"
    ∷ text "scph0220"
    ∷ text "scph1118"
    ∷ text "everlytic"
    ∷ text "everlytic1"
    ∷ text "sendinblue"
    ∷ text "mail._domainkey"
    ∷ text "sib"
    ∷ []

third : List Text
third =
    text "zoho"
    ∷ text "zoho1"
    ∷ text "mxvault"
    ∷ text "k._domainkey"
    ∷ text "202401"
    ∷ text "202402"
    ∷ text "202403"
    ∷ text "202404"
    ∷ text "202405"
    ∷ text "202406"
    ∷ text "202407"
    ∷ text "202408"
    ∷ text "202409"
    ∷ text "202410"
    ∷ text "202411"
    ∷ text "202412"
    ∷ text "202501"
    ∷ text "202502"
    ∷ text "202503"
    ∷ text "202504"
    ∷ text "202505"
    ∷ text "202506"
    ∷ text "202507"
    ∷ text "202508"
    ∷ text "202509"
    ∷ text "202510"
    ∷ []

fourth : List Text
fourth =
    text "202511"
    ∷ text "202512"
    ∷ text "2024"
    ∷ text "2025"
    ∷ text "protonmail"
    ∷ text "proton"
    ∷ text "fastmail"
    ∷ text "fm1"
    ∷ text "fm2"
    ∷ text "fm3"
    ∷ text "intuit"
    ∷ text "helpscout"
    ∷ text "intercom"
    ∷ text "customerio"
    ∷ text "sig1"
    ∷ text "hs1"
    ∷ text "hs2"
    ∷ text "hs1-domainkey"
    ∷ text "primary"
    ∷ text "secondary"
    ∷ text "main"
    ∷ text "pre"
    ∷ text "live"
    ∷ []

unfoldable pub dkim_selectors : List Text
unfolding first second third fourth
dkim_selectors = first ++ (second ++ (third ++ fourth))

unfoldable pub selectors_or : List Text → List Text
unfolding dkim_selectors
selectors_or [] = dkim_selectors
selectors_or (s ∷ ss) = s ∷ ss
