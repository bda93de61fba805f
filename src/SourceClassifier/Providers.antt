-- ===== src/SourceClassifier/Providers.antt =====
-- The table of providers in app/source_classifier.py. Each alternative of a pattern is an end of the
-- host name, but for one, which may stand anywhere in it.
use dmarc_geeks.Common.{Bool, List, Text, [], any, contains, ends_with, text, ◌||◌, ◌∷◌}

pub data Category : Type 0 where
  own : Category
  mailbox : Category
  marketing : Category
  crm : Category
  gateway : Category
  ch_special : Category
  forwarder : Category
  spoofer : Category
  unknown : Category

pub record Provider : Type 0 where
  pub name : Text
  pub category : Category
  pub suffixes : List Text
  pub infixes : List Text

abbrev row : Text → Category → List Text → List Text → Provider
row n c ss is = record { name = n; category = c; suffixes = ss; infixes = is }

abbrev pub provider_patterns : List Provider
provider_patterns =
    row (text "Microsoft 365") mailbox
      (text ".outbound.protection.outlook.com"
        ∷ text ".smtp.office365.com"
        ∷ text ".olc.protection.outlook.com"
        ∷ [])
      []
    ∷ row (text "Google Workspace") mailbox
        (text ".google.com" ∷ text ".googlemail.com" ∷ text ".gmail.com" ∷ []) []
    ∷ row (text "Apple iCloud") mailbox
        (text ".icloud.com" ∷ text ".mail.icloud.com" ∷ text ".apple.com" ∷ []) []
    ∷ row (text "Proton Mail") mailbox
        (text ".mail.protonmail.ch" ∷ text ".protonmail.ch" ∷ text ".proton.me" ∷ []) []
    ∷ row (text "Yandex Mail") mailbox (text ".mail.yandex.net" ∷ []) []
    ∷ row (text "mailbox.org") mailbox (text ".mailbox.org" ∷ []) []
    ∷ row (text "Posteo") mailbox (text ".posteo.de" ∷ text ".posteo.net" ∷ []) []
    ∷ row (text "Tuta") mailbox (text ".tutanota.de" ∷ []) []
    ∷ row (text "Fastmail") mailbox (text ".fastmail.com" ∷ text ".messagingengine.com" ∷ []) []
    ∷ row (text "Zoho Mail") mailbox (text ".zoho.com" ∷ text ".zoho.eu" ∷ []) []
    ∷ row (text "IONOS / 1&1") mailbox (text ".kundenserver.de" ∷ text ".online.de" ∷ []) []
    ∷ row (text "Strato") mailbox (text ".strato.de" ∷ []) []
    ∷ row (text "Infomaniak") mailbox (text ".infomaniak.com" ∷ text ".ik-server.com" ∷ []) []
    ∷ row (text "Hostpoint") mailbox (text ".hostpoint.ch" ∷ []) []
    ∷ row (text "cyon") mailbox (text ".cyon.ch" ∷ []) []
    ∷ row (text "Mailcow (self-hosted)") mailbox ([]) (text ".mailcow." ∷ [])
    ∷ row (text "Brevo (Sendinblue)") marketing (text ".brevo.com" ∷ text ".sendinblue.com" ∷ []) []
    ∷ row (text "Mailchimp") marketing
        (text ".mcsv.net"
          ∷ text ".mailchimpapp.com"
          ∷ text ".rsgsv.net"
          ∷ text ".list-manage.com"
          ∷ [])
        []
    ∷ row (text "Mandrill") marketing (text ".mandrillapp.com" ∷ []) []
    ∷ row (text "SendGrid") marketing (text ".sendgrid.net" ∷ text ".sendgrid.com" ∷ []) []
    ∷ row (text "Mailgun") marketing (text ".mailgun.org" ∷ text ".mailgun.net" ∷ []) []
    ∷ row (text "AWS SES") marketing (text ".amazonses.com" ∷ text ".amazonaws.com" ∷ []) []
    ∷ row (text "Klaviyo") marketing (text ".klaviyo.com" ∷ text ".klaviyomail.com" ∷ []) []
    ∷ row (text "Salesforce / Pardot") marketing
        (text ".salesforce.com" ∷ text ".exacttarget.com" ∷ text ".pardot.com" ∷ []) []
    ∷ row (text "SparkPost") marketing (text ".sparkpostmail.com" ∷ text ".sparkpost.com" ∷ []) []
    ∷ row (text "Postmark") marketing
        (text ".mtasv.net" ∷ text ".postmark.com" ∷ text ".postmarkapp.com" ∷ []) []
    ∷ row (text "ActiveCampaign") marketing
        (text ".activecampaign.com" ∷ text ".activehosted.com" ∷ []) []
    ∷ row (text "Constant Contact") marketing (text ".constantcontact.com" ∷ []) []
    ∷ row (text "Everlytic") marketing (text ".everlytic.net" ∷ []) []
    ∷ row (text "HubSpot") crm (text ".hubspotemail.net" ∷ text ".hubspot.com" ∷ []) []
    ∷ row (text "Intercom") crm (text ".intercom.io" ∷ text ".intercom-mail.com" ∷ []) []
    ∷ row (text "Pipedrive") crm (text ".pipedrive.com" ∷ text ".pipedriveassist.com" ∷ []) []
    ∷ row (text "Zendesk") crm (text ".zendesk.com" ∷ []) []
    ∷ row (text "Freshdesk") crm (text ".freshdesk.com" ∷ text ".freshmail.com" ∷ []) []
    ∷ row (text "DocuSign") crm (text ".docusign.net" ∷ []) []
    ∷ row (text "Atlassian (Jira/Confluence)") crm
        (text ".atlassian.net" ∷ text ".atlassian.com" ∷ []) []
    ∷ row (text "Shopify") crm (text ".shopify.com" ∷ text ".shopifyemail.com" ∷ []) []
    ∷ row (text "Notion") crm (text ".notion.so" ∷ []) []
    ∷ row (text "Calendly") crm (text ".calendly.com" ∷ []) []
    ∷ row (text "SeppMail") ch_special (text ".seppmail.ch" ∷ []) []
    ∷ row (text "HIN (Health Info Net)") ch_special (text ".hin.ch" ∷ []) []
    ∷ row (text "Mimecast") gateway
        (text ".mimecast.com" ∷ text ".mimecast.net" ∷ text ".cust-spam.com" ∷ []) []
    ∷ row (text "Proofpoint") gateway (text ".pphosted.com" ∷ text ".proofpoint.com" ∷ []) []
    ∷ row (text "Barracuda") gateway (text ".barracudanetworks.com" ∷ text ".cudasvc.com" ∷ []) []
    ∷ []

-- `re.search(pattern, host)`.
unfoldable pub matches_host : Text → Provider → Bool
matches_host host p = any (ends_with host) (p.suffixes) || any (contains host) (p.infixes)
