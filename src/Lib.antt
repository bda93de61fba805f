-- ===== src/Lib.antt =====
-- DMARC Geeks: a model of the services that collect DMARC reports, check sending IPs against DNS
-- blacklists, score test mails and edit the .env file, with the theorems about them.
--
-- The program receives aggregate reports by upload or from mailboxes. `parse_payload`
-- (app/parser.py) unpacks a payload and parses its XML, and `ingest_payload` (app/ingest.py) finds
-- the tenant's domain, drops duplicates and stores the rows of app/models.py. A scheduled job
-- (app/blacklist_job.py) looks up the addresses of each domain with `check_ip` (app/blacklist.py)
-- and sends alerts. The mail tester (app/mt_scorer.py) scores a mail and uses the same lookup.
--
-- Common: texts as lists of code points with the methods of Python's `str`, association lists for
-- dicts, whole numbers, lists, and their lemmas.
-- Blacklist: app/blacklist.py. Zones has the zone tables and the listing codes, Address
-- `_reverse_ip`, Cache `_cache_get` and `_cache_set`, Resolver the probe and the retry loop, Check
-- `check_ip`. The module's global dicts are the record Dnsbl, which each function takes and returns.
-- BlacklistJob: app/blacklist_job.py. A row of blacklist_checks is a Row, the table a list of
-- rows, newest first; `row_for` is the loop body of `check_domain`, Domain the whole of it, Targets
-- the choice of the addresses.
-- Parser: app/parser.py. Element is the part of ElementTree that is read, Report `parse_xml` on a
-- tree, Payload `extract_xml_payloads` and `parse_payload`. A result is `ok`, a DmarcParseError, or
-- `uncaught` for any other exception.
-- Ingest: app/ingest.py on the tables of app/models.py. Store has the queries and the writes,
-- Import `ingest_parsed` and `ingest_payload`; the call of `check_spike` changes no table and is left
-- out there.
-- EnvFile: app/env_file.py on the text of the file.
-- MtScorer: app/mt_scorer.py. Scan and Headers are the regular expressions as scanners, Auth,
-- Network and Body the checks, Score `score_email`. Scores are whole numbers of 1/100000 points and
-- the total is in hundredths, where the source has floats.
-- RateLimit: app/rate_limit.py. `try_take` is TokenBucket.take, with the buckets as a dict.
-- FormGuard: app/form_guard.py, `token_ok` with the signer as a parameter.
-- SourceClassifier: app/source_classifier.py. Providers is PROVIDER_PATTERNS, Rules
-- `classify_source`.
-- Spf: `_count_spf_lookups` of app/dns_utils.py. Its depth limit is the model's fuel.
--
-- Dns: the other checks of app/dns_utils.py. Mx, SpfRecord, Dmarc and Dkim have the lookups of their
-- records, Selectors the table of DKIM selectors, Score `full_dns_check` and `score_check`; Dmarc has
-- also the policy that app/routers/domains.py publishes, which `lookup_dmarc` reads back.
-- Webhooks: app/webhooks.py. `deliver_with_retries` is the code of one thread; Threads has all
-- threads at once as a step relation, with emitted events and edits of the table between their steps.
-- An attempt returns the requests that it sends.
-- Stats: app/stats.py on rows of records joined with their reports. Daily, Senders and Sankey are the
-- charts, Labels the names of the senders, Overview the summaries of domains, tenants and resellers.
-- Advisor: app/advisor.py on the same rows, and app/onboarding.py in Checklist.
-- Notifications: app/notifications.py, Digest with the weekly job and Spike with the alarm, and the
-- form of app/routers/settings.py for both. A state is the settings, the digests of the runs that were
-- committed, and all the mails that the server took; a run ends in a commit or in a rollback.
-- ThreatTest: app/threattest.py. ZipCrypto is the encrypted file, Cases the test mails;
-- Format is a reader after the format note of ZIP, and not the code.
--
-- Parameters: the DNS (`resolve`, World), the XML parser, gzip, zipfile and the decoder (Codecs),
-- the token generator, the reverse lookup, the classification of characters, `float` and the parser
-- of mail addresses. Times are whole seconds. Every loop is structural recursion. The
-- only fuel is the depth of `_count_spf_lookups`, which the source limits to 12.
--
-- Counts of messages in the statistics are natural numbers: a table with a negative count, which the
-- parser accepts, is outside them (Stats/Joined). Float rates, strftime and `str.title` are
-- parameters where they are shown only; so is the comparison of rates in the spike alarm and in the
-- advice on a falling rate. The other thresholds on rates are compared as fractions. GROUP BY returns
-- its groups in the order of their first rows.
--
-- Not modelled: the texts of mails and pages, sending mail, the other web routes, the crawler, the
-- pollers and the knowledge base of senders, which is text. Lower and upper case is that of ASCII. A
-- timestamp outside the range of datetime and a document that defusedxml forbids are exceptions that
-- no handler catches.
pub mod Common
pub mod Blacklist
pub mod BlacklistJob
pub mod Parser
pub mod Ingest
pub mod Dns
pub mod EnvFile
pub mod MtScorer
pub mod RateLimit
pub mod SourceClassifier
pub mod Spf
pub mod FormGuard
pub mod Notifications
pub mod Webhooks
pub mod Stats
pub mod ThreatTest
pub mod Advisor
