-- ===== src/Blacklist/Resolver.antt =====
-- The resolvers of app/blacklist.py: the RFC 5782 probe, the choice of resolvers for a zone and
-- the retry loop. The DNS library is the parameter `resolve`: resolver index, name, record type.
use dmarc_geeks.Common.{
  Bool, Eq, List, Option, Text, [], any, arith, false, if◌then◌else◌, is_empty, lookup, ltb, none,
  not, put, refl, some, text, text_beq_iff, true, ℕ, ◌&&◌, ◌++◌, ◌-◌, ◌==◌, ◌↔◌, ◌∙◌, ◌∷◌, ◌≡◌,
  nat_eq, text_eq,
}
use dmarc_geeks.Blacklist.Zones.{is_listing_code, is_public_spamhaus}
use dmarc_geeks.Blacklist.Cache.{Cache}

pub data RdType : Type 0 where
  a txt : RdType

-- What one `resolve` call does: it returns records, raises NXDOMAIN or NoAnswer, raises
-- NoNameservers or Timeout, or raises anything else.
pub data Answer : Type 0 where
  records : List Text → Answer
  no_such_name : Answer
  no_response : Answer
  broken : Answer

pub data LookupError : Type 0 where
  refused : List Text → LookupError
  unreachable : LookupError
  failure : LookupError

-- The outcome of `_resolve_with_retry`: a list, `None`, or the last exception.
pub data Lookup : Type 0 where
  found : List Text → Lookup
  absent : Lookup
  raised : LookupError → Lookup

pub record Probe : Type 0 where
  pub zone : Text
  pub resolver : ℕ

probe_beq : Probe → Probe → Bool
probe_beq p q = p.zone == q.zone && p.resolver == q.resolver

probe_beq_iff : (p q : Probe) → (probe_beq p q ≡ true) ↔ (p ≡ q)
unfolding probe_beq
probe_beq_iff p q = (
  λ h. ground (arith, text_beq_iff p.zone q.zone),
  λ h. ground (arith, text_beq_iff p.zone q.zone),
)

instance pub probe_eq : Eq Probe
probe_eq = record { beq = probe_beq; beq_iff = probe_beq_iff }

pub record Verdict : Type 0 where
  pub at : ℕ
  pub usable : Bool

-- The module's global state.
pub record Dnsbl : Type 0 where
  pub cache : Cache
  pub probes : List (Probe × Verdict)
  pub warned : List (Text × ℕ)

abbrev pub probe_ttl : ℕ
probe_ttl = 1800

-- `_RESOLVERS`: system default, Cloudflare, Quad9, Google.
abbrev pub resolvers : List ℕ
resolvers = 0 ∷ 1 ∷ 2 ∷ 3 ∷ []

unfoldable pub is_refusal : RdType → List Text → Bool
is_refusal a answers = not (any is_listing_code answers)
is_refusal txt answers = false

abbrev pub ending : Option LookupError → Lookup
ending none = absent
ending (some e) = raised e

module _ (resolve : ℕ → Text → RdType → Answer) where
  -- The loop of `_resolve_with_retry`, with its `last_err`.
  unfoldable pub resolve_with_retry : Text → RdType → Option LookupError → List ℕ → Lookup
  unfolding is_refusal
  resolve_with_retry qname rdtype last [] = ending last
  resolve_with_retry qname rdtype last (r ∷ pool) = elim (resolve r qname rdtype) [
    | records answers ↦
        let rest = resolve_with_retry qname rdtype (some (refused answers)) pool in
        if is_refusal rdtype answers then rest else found answers
    | no_such_name ↦ absent
    | no_response ↦ resolve_with_retry qname rdtype (some unreachable) pool
    | broken ↦ resolve_with_retry qname rdtype (some failure) pool
  ]

  passes_test_point : Text → ℕ → Bool
  passes_test_point zone r = elim (resolve r (text "2.0.0.127." ++ zone) a) [
    | records answers ↦ any is_listing_code answers
    | _ ↦ false
  ]

  recent_verdict : ℕ → Option Verdict → Option Bool
  recent_verdict now none = none
  recent_verdict now (some v) = if ltb (now - v.at) probe_ttl then some v.usable else none

  -- `_probe_resolver`
  unfoldable pub probe_resolver : ℕ → Text → ℕ → Dnsbl → Bool × Dnsbl
  unfolding passes_test_point recent_verdict
  probe_resolver now zone r s =
      let key : Probe = record { zone = zone; resolver = r } in
      let ok = passes_test_point zone r in
      elim (recent_verdict now (lookup key s.probes)) [
        | some usable ↦ (usable, s)
        | none ↦ (ok, record s { probes = put key (record { at = now; usable = ok }) s.probes })
      ]

  probe_resolver-cache :
      (now : ℕ) (zone : Text) (r : ℕ) (s : Dnsbl) → (probe_resolver now zone r s).1.cache ≡ s.cache
  unfolding probe_resolver
  probe_resolver-cache now zone r s = ground arith

  -- The comprehension over `enumerate(_RESOLVERS)`.
  unfoldable pub usable_resolvers : ℕ → Text → List ℕ → Dnsbl → List ℕ × Dnsbl
  usable_resolvers now zone [] s = ([], s)
  usable_resolvers now zone (r ∷ rs) s =
      let (ok, s') = probe_resolver now zone r s in
      let (rest, s'') = usable_resolvers now zone rs s' in (if ok then r ∷ rest else rest, s'')

  -- The warning that no resolver is trusted is logged once per `probe_ttl`.
  warn : ℕ → Text → Dnsbl → Dnsbl
  warn now zone s =
      let last : ℕ = elim (lookup zone s.warned) [ none ↦ 0 | some t ↦ t ] in
      if ltb probe_ttl (now - last) then record s { warned = put zone now s.warned } else s

  -- `_resolvers_for`
  unfoldable pub resolvers_for : ℕ → Text → Dnsbl → List ℕ × Dnsbl
  unfolding usable_resolvers warn
  resolvers_for now zone s =
      let (usable, s') = usable_resolvers now zone resolvers s in
      if is_public_spamhaus zone
      then (usable, if is_empty usable then warn now zone s' else s')
      else (resolvers, s)

  -- A found A-answer has a code that means "listed".
  pub resolve_with_retry-listing :
      (qname : Text) (last : Option LookupError) (pool : List ℕ) (answers : List Text)
      → resolve_with_retry qname a last pool ≡ found answers
      → any is_listing_code answers ≡ true
  unfolding resolve_with_retry
  resolve_with_retry-listing qname none [] answers h = cc
  resolve_with_retry-listing qname (some e) [] answers h = cc
  resolve_with_retry-listing qname last (r ∷ pool) answers h =
      by_answer (resolve r qname a) refl
        (λ e. resolve_with_retry-listing qname (some e) pool answers)
    where
      by_answer :
          (ans : Answer)
          → resolve r qname a ≡ ans
          → ((e : LookupError)
              → resolve_with_retry qname a (some e) pool ≡ found answers
              → any is_listing_code answers ≡ true)
          → any is_listing_code answers ≡ true
      by_answer (records l) e ih = ground (arith, ih (refused l))
      by_answer no_such_name e ih = ground arith
      by_answer no_response e ih = ground (arith, ih unreachable)
      by_answer broken e ih = ground (arith, ih failure)

  -- The probes leave the lookup cache as it is.
  pub usable_resolvers-cache :
      (now : ℕ) (zone : Text) (rs : List ℕ) (s : Dnsbl)
      → (usable_resolvers now zone rs s).1.cache ≡ s.cache
  unfolding usable_resolvers
  usable_resolvers-cache now zone [] s = refl
  usable_resolvers-cache now zone (r ∷ rs) s =
      usable_resolvers-cache now zone rs (probe_resolver now zone r s).1
      ∙ probe_resolver-cache now zone r s

  pub resolvers_for-cache :
      (now : ℕ) (zone : Text) (s : Dnsbl) → (resolvers_for now zone s).1.cache ≡ s.cache
  unfolding resolvers_for
  resolvers_for-cache now zone s = ground (arith, usable_resolvers-cache now zone resolvers s)
