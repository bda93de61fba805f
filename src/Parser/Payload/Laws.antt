-- ===== src/Parser/Payload/Laws.antt =====
-- When app/parser.py fails on a payload, and with what.
use dmarc_geeks.Common.{
  All, List, Text, [], ap, arith, ends_with, false, is_empty, lower, map, refl, starts_with, text,
  true, ◌||◌, ◌∷◌, ◌≡◌, ◌≢◌,
}
use dmarc_geeks.Parser.Report.{ParsedReport, ParseError, Result, ok, parse_error, uncaught, ◌>>=◌}
use dmarc_geeks.Parser.Payload.{
  other_error, Codecs, Payload, Failure, Parsed, extract_xml_payloads, parse_xml, parse_all,
  conclude, parse_payload, collect,
}

module _ (codecs : Codecs) where
  -- The payload is no report: `parse_xml` raises the parse error of some reason.
  abbrev pub IsMalformed : Payload → Type 0
  IsMalformed p = (e : ParseError) × (parse_xml codecs p.bytes ≡ parse_error e)

  -- What the loop returns when no report came out.
  abbrev AllFailed : List Payload → Parsed codecs → Type 0
  AllFailed ps q = All IsMalformed ps × (map (λ f. f.name) q.errors ≡ map (λ p. p.name) ps)

  collect_failed :
      (p : Payload) (x : Result ParseError ParsedReport)
      (rest : Result (List Failure) (Parsed codecs)) (q : Parsed codecs)
      → collect codecs p x rest ≡ ok q
      → is_empty q.out ≡ true
      → (e : ParseError) × (q' : Parsed codecs) × (x ≡ parse_error e)
        × (rest ≡ ok q')
        × (is_empty q'.out ≡ true)
        × (q.errors ≡ record { name = p.name; reason = e } ∷ q'.errors)
  unfolding collect
  collect_failed p (ok r) (ok q') q h k = absurd (ground arith)
  collect_failed p (ok r) (parse_error fs) q h k = cc
  collect_failed p (ok r) uncaught q h k = cc
  collect_failed p (parse_error e) (ok q') q h k = (e, q', refl, refl, ground arith, ground arith)
  collect_failed p (parse_error e) (parse_error fs) q h k = cc
  collect_failed p (parse_error e) uncaught q h k = cc
  collect_failed p uncaught rest q h k = cc

  parse_all_failed :
      (ps : List Payload) (q : Parsed codecs)
      → parse_all codecs ps ≡ ok q
      → is_empty q.out ≡ true
      → AllFailed ps q
  unfolding parse_all
  parse_all_failed [] q h k = (tt, ground arith)
  parse_all_failed (p ∷ ps) q h k =
      let (e, q', failed, rest, empty, errors) = collect_failed p _ _ q h k in
      let (failures, names) = parse_all_failed ps q' rest empty in
      (((e, failed), failures), rw errors (ap (λ l. p.name ∷ l) names))

  conclude_error :
      (q : Parsed codecs) (fs : List Failure)
      → conclude codecs q ≡ parse_error fs
      → (is_empty q.out ≡ true) × (q.errors ≡ fs)
  unfolding conclude
  conclude_error q fs h = ground arith

  parse_all-ne-error :
      (ps : List Payload) (fs : List Failure) → parse_all codecs ps ≢ parse_error fs
  unfolding parse_all
  parse_all-ne-error [] fs = λ h. cc
  parse_all-ne-error (p ∷ ps) fs =
      collect-ne-error p (parse_xml codecs p.bytes) (parse_all codecs ps) (parse_all-ne-error ps fs)
    where
      collect-ne-error :
          (p : Payload) (x : Result ParseError ParsedReport)
          (rest : Result (List Failure) (Parsed codecs))
          → rest ≢ parse_error fs
          → collect codecs p x rest ≢ parse_error fs
      collect-ne-error p (ok r) (ok q) n = λ h. cc
      collect-ne-error p (ok r) (parse_error gs) n = n
      collect-ne-error p (ok r) uncaught n = λ h. cc
      collect-ne-error p (parse_error e) (ok q) n = λ h. cc
      collect-ne-error p (parse_error e) (parse_error gs) n = n
      collect-ne-error p (parse_error e) uncaught n = λ h. cc
      collect-ne-error p uncaught rest n = λ h. cc

  -- The errors of the loop are the raised ones, and no report came out.
  concluded :
      (ps : List Payload) (fs : List Failure) (r : Result (List Failure) (Parsed codecs))
      → parse_all codecs ps ≡ r
      → (r >>= conclude codecs) ≡ parse_error fs
      → All IsMalformed ps × (map (λ f. f.name) fs ≡ map (λ p. p.name) ps)
  concluded ps fs (ok q) h k =
      let (empty, same) = conclude_error q fs k in
      let (failures, names) = parse_all_failed ps q h empty in (failures, rw (← same) names)
  concluded ps fs (parse_error gs) h k = absurd (parse_all-ne-error ps gs h)
  concluded ps fs uncaught h k = cc

  -- Where `parse_payload` raises its parse error, each of the extracted payloads is malformed, and
  -- the error names them all, in order: no well-formed report is lost to a malformed one.
  pub parse_payload_error :
      (filename data' : Text) (ps : List Payload) (fs : List Failure)
      → extract_xml_payloads codecs filename data' ≡ ok ps
      → parse_payload codecs filename data' ≡ parse_error fs
      → All IsMalformed ps × (map (λ f. f.name) fs ≡ map (λ p. p.name) ps)
  unfolding parse_payload
  parse_payload_error filename data' ps fs h k =
      concluded ps fs (parse_all codecs ps) refl (rw h at k)

  -- A gzip stream that ends early is no parse error: EOFError leaves `parse_payload` uncaught.
  pub parse_payload_truncated :
      (filename data' : Text)
      → (ends_with (lower filename) (text ".zip") || starts_with data' (text "PK")) ≡ false
      → (ends_with (lower filename) (text ".gz") || starts_with data' (0x1f ∷ 0x8b ∷ [])) ≡ true
      → codecs.gunzip data' ≡ other_error
      → parse_payload codecs filename data' ≡ uncaught
  unfolding parse_payload
  parse_payload_truncated filename data' no_zip gz early = rw (no_zip, gz, early)
