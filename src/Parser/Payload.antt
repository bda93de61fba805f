-- ===== src/Parser/Payload.antt =====
-- `extract_xml_payloads` and `parse_payload` of app/parser.py. The codecs are parameters: the XML
-- parser (defusedxml), gzip, zipfile and the UTF-8 decoder.
pub mod Laws
use dmarc_geeks.Common.{
  Bool, List, Text, [], ends_with, false, if◌then◌else◌, is_empty, length, lower, not, or_else,
  some, starts_with, take, text, true, ◌&&◌, ◌++◌, ◌-◌, ◌||◌, ◌∷◌,
}
use dmarc_geeks.Parser.Element.{Element}
use dmarc_geeks.Parser.Report.{
  ParsedReport, ParseError, invalid_xml, Result, ok, parse_error, uncaught, ◌>>=◌, parse_tree,
}

-- `gzip.decompress`: it returns, raises OSError (BadGzipFile), or raises something else (EOFError
-- for a truncated stream, zlib.error).
pub data Gunzip : Type 0 where
  inflated : Text → Gunzip
  os_error : Gunzip
  other_error : Gunzip

-- One entry of a zip file. Reading it returns, raises BadZipFile, or raises something else.
pub data Read : Type 0 where
  content : Text → Read
  bad_zip : Read
  failed : Read

pub record ZipEntry : Type 0 where
  pub filename : Text
  pub is_dir : Bool
  pub read : Read

-- `zipfile.ZipFile(…)`: its entries, BadZipFile, or something else.
pub data Unzip : Type 0 where
  entries : List ZipEntry → Unzip
  not_a_zip : Unzip
  unreadable : Unzip

-- `ET.fromstring` of defusedxml: a tree, ParseError, or the refusal of a document with entities or
-- an external reference, which is no ParseError.
pub data Xml : Type 0 where
  tree : Element → Xml
  malformed : Xml
  forbidden : Xml

pub record Codecs : Type 0 where
  pub from_string : Text → Xml
  pub decode : Text → Text
  pub gunzip : Text → Gunzip
  pub unzip : Text → Unzip

pub record Payload : Type 0 where
  pub name : Text
  pub bytes : Text

-- The message of the error that `parse_payload` raises names each payload with its reason.
pub record Failure : Type 0 where
  pub name : Text
  pub reason : ParseError

-- `s[:-3]`
unfoldable pub drop_last3 : Text → Text
drop_last3 s = take (length s - 3) s

-- A generator that yields, and ends by `return` or falls through.
pub record Yielded : Type 0 where
  pub payloads : List Payload
  pub returned : Bool

abbrev payload : Text → Text → Payload
payload n b = record { name = n; bytes = b }

module _ (codecs : Codecs) where
  open codecs use {from_string, decode, gunzip, unzip}

  -- A `.gz` entry of a zip is inflated if it can be.
  unfoldable pub inner_payload : Text → Text → Result (List Failure) Payload
  unfolding drop_last3
  inner_payload inner bytes =
      if ends_with (lower inner) (text ".gz")
      then (elim (gunzip bytes) [
        | inflated b ↦ ok (payload (drop_last3 inner) b)
        | os_error ↦ ok (payload inner bytes)
        | other_error ↦ uncaught
      ])
      else ok (payload inner bytes)

  yield_before : Payload → Yielded → Yielded
  yield_before p y = record { payloads = p ∷ y.payloads; returned = y.returned }

  -- The loop over `zf.infolist()`; a BadZipFile ends it, and what was yielded stays yielded.
  unfoldable pub zip_payloads : List ZipEntry → Result (List Failure) Yielded
  unfolding inner_payload yield_before
  zip_payloads [] = ok (record { payloads = []; returned = true })
  zip_payloads (e ∷ es) =
      let rest = zip_payloads es in
      if e.is_dir then rest else elim (e.read) [
        | content bytes ↦
            (inner_payload e.filename bytes >>= λ p. rest >>= λ y. ok (yield_before p y))
        | bad_zip ↦ ok (record { payloads = []; returned = false })
        | failed ↦ uncaught
      ]

  unfoldable pub zip_part : Text → Text → Result (List Failure) Yielded
  unfolding zip_payloads
  zip_part name data' =
      if ends_with name (text ".zip") || starts_with data' (text "PK")
      then (elim (unzip data') [
        | entries es ↦ zip_payloads es
        | not_a_zip ↦ ok (record { payloads = []; returned = false })
        | unreadable ↦ uncaught
      ])
      else ok (record { payloads = []; returned = false })

  abbrev gz_name : Text → Text
  gz_name name = if ends_with name (text ".gz") then drop_last3 name else name

  -- The gzip attempt and the raw fallback.
  unfoldable pub gzip_or_raw : Text → Text → Text → Result (List Failure) (List Payload)
  unfolding drop_last3
  gzip_or_raw filename name data' =
      let raw = payload (or_else (some filename) (text "report.xml")) data' ∷ [] in
      if ends_with name (text ".gz") || starts_with data' (0x1f ∷ 0x8b ∷ [])
      then (elim (gunzip data') [
        | inflated b ↦ ok (payload (gz_name name) b ∷ [])
        | os_error ↦ ok raw
        | other_error ↦ uncaught
      ])
      else ok raw

  unfoldable pub after_zip : Text → Text → Text → Yielded → Result (List Failure) (List Payload)
  unfolding gzip_or_raw
  after_zip filename name data' y =
      if y.returned
      then ok y.payloads
      else gzip_or_raw filename name data' >>= λ more. ok (y.payloads ++ more)

  -- `extract_xml_payloads`; a missing filename is the empty text.
  unfoldable pub extract_xml_payloads : Text → Text → Result (List Failure) (List Payload)
  unfolding zip_part after_zip
  extract_xml_payloads filename data' =
      let name = lower filename in zip_part name data' >>= after_zip filename name data'

  -- `parse_xml`
  unfoldable pub parse_xml : Text → Result ParseError ParsedReport
  parse_xml bytes = elim (from_string bytes) [
    | tree root ↦ parse_tree (decode bytes) root
    | malformed ↦ parse_error invalid_xml
    | forbidden ↦ uncaught
  ]

  pub record Parsed : Type 0 where
    pub out : List ParsedReport
    pub errors : List Failure

  -- One payload before the rest of the loop: a parse error is collected, another exception leaves.
  unfoldable pub collect :
      Payload
      → Result ParseError ParsedReport
      → Result (List Failure) Parsed
      → Result (List Failure) Parsed
  collect p (ok r) rest = rest >>= λ q. ok (record { out = r ∷ q.out; errors = q.errors })
  collect p (parse_error e) rest = rest >>= λ q.
      ok (record { out = q.out; errors = record { name = p.name; reason = e } ∷ q.errors })
  collect p uncaught rest = uncaught

  -- The loop of `parse_payload` over what is extracted.
  unfoldable pub parse_all : List Payload → Result (List Failure) Parsed
  unfolding parse_xml collect
  parse_all [] = ok (record { out = []; errors = [] })
  parse_all (p ∷ ps) = collect p (parse_xml p.bytes) (parse_all ps)

  unfoldable pub conclude : Parsed → Result (List Failure) (List ParsedReport)
  conclude q = if is_empty q.out && not (is_empty q.errors) then parse_error q.errors else ok q.out

  unfoldable pub parse_payload : Text → Text → Result (List Failure) (List ParsedReport)
  unfolding extract_xml_payloads parse_all conclude
  parse_payload filename data' =
      extract_xml_payloads filename data' >>= λ ps. parse_all ps >>= conclude
