-- ===== src/Dns/Mx.antt =====
-- app/dns_utils.py: the table MX_PROVIDERS and `lookup_mx`.
pub mod Laws
use dmarc_geeks.Common.{
  Bool, List, Option, Text, [], any, contains, drop, ends_with, false, find, if◌then◌else◌,
  is_digit, join, leb, length, lower, lstrip_by, map, none, rstrip_by, some, split, starts_with,
  text, true, ℕ, ◌&&◌, ◌++◌, ◌==◌, ◌||◌, ◌∷◌, nat_eq, text_eq,
}

pub data Category : Type 0 where
  cloud selfhost marketing : Category

-- The shapes of the table's regular expressions: `.*tail$`, `.*(a|b)$`, `head[0-9]*tail$` and
-- `.*infix.*$`.
pub data Pattern : Type 0 where
  ends : Text → Pattern
  ends_one_of : Text → Text → Pattern
  numbered : Text → Text → Pattern
  within : Text → Pattern

pub record Provider : Type 0 where
  pub pattern : Pattern
  pub name : Text
  pub category : Category

abbrev provider : Pattern → Text → Category → Provider
provider p n c = record { pattern = p; name = n; category = c }

-- The table in three parts.
first_providers : List Provider
first_providers =
    provider (ends (text ".aspmx.l.google.com")) (text "Google Workspace") cloud
    ∷ provider (ends (text "aspmx.googlemail.com")) (text "Google (Gmail)") cloud
    ∷ provider (ends (text ".google.com")) (text "Google") cloud
    ∷ provider (ends (text ".mail.protection.outlook.com")) (text "Microsoft 365 / Exchange Online")
        cloud
    ∷ provider (ends (text ".mail.eo.outlook.com")) (text "Microsoft Exchange Online Protection")
        cloud
    ∷ provider (ends (text ".outlook.com")) (text "Microsoft Outlook.com") cloud
    ∷ provider (ends (text ".icloud.com")) (text "Apple iCloud Mail") cloud
    ∷ provider (numbered (text "mx") (text ".zoho.com")) (text "Zoho Mail") cloud
    ∷ provider (numbered (text "mx") (text ".zoho.eu")) (text "Zoho Mail (EU)") cloud
    ∷ provider (ends (text ".mail.yandex.net")) (text "Yandex Mail") cloud
    ∷ provider (ends (text ".fastmail.com")) (text "Fastmail") cloud
    ∷ provider (ends (text ".messagingengine.com")) (text "Fastmail (MessagingEngine)") cloud
    ∷ provider (ends (text ".protonmail.ch")) (text "Proton Mail") cloud
    ∷ provider (ends (text ".proton.me")) (text "Proton Mail") cloud
    ∷ []

next_providers : List Provider
next_providers =
    provider (ends (text ".mailbox.org")) (text "mailbox.org") cloud
    ∷ provider (ends_one_of (text ".posteo.de") (text ".posteo.net")) (text "Posteo") cloud
    ∷ provider (ends (text ".tutanota.de")) (text "Tuta Mail") cloud
    ∷ provider (ends (text ".kundenserver.de")) (text "IONOS / 1&1") cloud
    ∷ provider (ends (text ".netcup.net")) (text "Netcup") cloud
    ∷ provider (numbered (text "mx") (text ".strato.de")) (text "Strato Mail") cloud
    ∷ provider (ends (text ".hosteurope.de")) (text "Host Europe") cloud
    ∷ provider (ends (text ".your-server.de")) (text "Hetzner (Storage Box)") cloud
    ∷ provider (ends (text ".hetzner.com")) (text "Hetzner") cloud
    ∷ provider (numbered (text "mxext") (text ".your-storagebox.de")) (text "Hetzner Storage Box")
        cloud
    ∷ provider (ends (text ".amazonses.com")) (text "AWS SES") marketing
    ∷ provider (ends (text ".amazonaws.com")) (text "AWS (eigener Mailserver)") selfhost
    ∷ provider (ends (text ".sendgrid.net")) (text "SendGrid") marketing
    ∷ provider (ends (text ".mailgun.org")) (text "Mailgun") marketing
    ∷ []

last_providers : List Provider
last_providers =
    provider (ends (text ".cust-spam.com")) (text "Mimecast") cloud
    ∷ provider (ends (text ".mimecast.com")) (text "Mimecast") cloud
    ∷ provider (ends (text ".mimecast.net")) (text "Mimecast") cloud
    ∷ provider (ends (text ".pphosted.com")) (text "Proofpoint") cloud
    ∷ provider (ends (text ".barracudanetworks.com")) (text "Barracuda") cloud
    ∷ provider (ends (text ".cloudflareemail.com")) (text "Cloudflare Email Routing") cloud
    ∷ provider (ends (text ".privateemail.com")) (text "Namecheap Private Email") cloud
    ∷ provider (ends (text ".gandi.net")) (text "Gandi Mail") cloud
    ∷ provider (ends (text ".everlytic.net")) (text "Everlytic") marketing
    ∷ provider (within (text ".mailcow.")) (text "Mailcow (self-hosted)") selfhost
    ∷ provider (ends (text ".greenhost.net")) (text "Greenhost") cloud
    ∷ provider (ends (text ".runbox.com")) (text "Runbox") cloud
    ∷ []

unfoldable pub mx_providers : List Provider
unfolding first_providers next_providers last_providers
mx_providers = first_providers ++ (next_providers ++ last_providers)

-- `[0-9]*` takes all digits: what follows them in the table's patterns is no digit.
matches : Pattern → Text → Bool
unfolding ends_with starts_with contains lstrip_by is_digit
matches (ends s) host = ends_with host s
matches (ends_one_of s t) host = ends_with host s || ends_with host t
matches (numbered head tail) host =
    starts_with host head && lstrip_by is_digit (drop (length head) host) == tail
matches (within s) host = contains host s

pub record Mx : Type 0 where
  pub priority : ℕ
  pub host : Text

abbrev pub mx : ℕ → Text → Mx
mx p h = record { priority = p; host = h }

pub data MxIssue : Type 0 where
  local_host : MxIssue

pub record MxResult : Type 0 where
  pub present : Bool
  pub records : List Mx
  pub provider : Option Text
  pub category : Option Category
  pub issues : List MxIssue

-- `records.sort(key=lambda x: x["priority"])`, which is stable.
unfoldable pub insert_by_priority : Mx → List Mx → List Mx
insert_by_priority r [] = r ∷ []
insert_by_priority r (s ∷ rs) =
    let rest = insert_by_priority r rs in
    if leb (r.priority) (s.priority) then r ∷ s ∷ rs else s ∷ rest

unfoldable pub by_priority : List Mx → List Mx
unfolding insert_by_priority
by_priority [] = []
by_priority (r ∷ rs) = insert_by_priority r (by_priority rs)

-- `parts[-2:]`
last_two : List Text → List Text
last_two [] = []
last_two (a ∷ []) = a ∷ []
last_two (a ∷ b ∷ []) = a ∷ b ∷ []
last_two (a ∷ b ∷ c ∷ r) = last_two (b ∷ c ∷ r)

fallback : Text → Option Text × Option Category
unfolding last_two split join
fallback primary =
    let parts = split b'.' primary in
    if leb 2 (length parts)
    then (some (join (text ".") (last_two parts) ++ text " (eigener / unbekannt)"), some selfhost)
    else (none, none)

-- Provider and category of the first record's host.
unfoldable pub provider_of : Text → Option Text × Option Category
unfolding matches fallback mx_providers
provider_of primary = elim (find (λ p. matches (p.pattern) primary) mx_providers) [
  | none ↦ fallback primary
  | some p ↦ (some (p.name), some (p.category))
]

is_local : Mx → Bool
unfolding ends_with
is_local r = ends_with (r.host) (text ".local") || ends_with (r.host) (text ".localhost")

unfoldable pub absent : MxResult
absent = record { present = false; records = []; provider = none; category = none; issues = [] }

unfoldable pub result_for : List Mx → MxResult
unfolding absent provider_of is_local lower
result_for [] = absent
result_for (r ∷ rs) =
    let (name, category) = provider_of (lower (r.host)) in
    record {
      present = true;
      records = r ∷ rs;
      provider = name;
      category = category;
      issues = if any is_local (r ∷ rs) then local_host ∷ [] else [];
    }

-- `str(r.exchange).rstrip(".")`
unfoldable pub mx_of : ℕ × Text → Mx
unfolding rstrip_by
mx_of (p, h) = mx p (rstrip_by (λ c. c == b'.') h)

module _ (resolve_mx : Text → Option (List (ℕ × Text))) where
  unfoldable pub lookup_mx : Text → MxResult
  unfolding absent mx_of by_priority result_for
  lookup_mx domain = elim (resolve_mx domain) [
    | none ↦ absent
    | some answers ↦ result_for (by_priority (map mx_of answers))
  ]
