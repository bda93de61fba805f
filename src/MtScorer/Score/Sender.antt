-- ===== src/MtScorer/Score/Sender.antt =====
-- app/mt_scorer.py: the address that `_extract_sender_ip` finds.
use dmarc_geeks.Common.{
  List, Text, int_of, is_digit, or_none, refl, some, split, starts_with, text, text_beq, ◌++◌, ◌≡◌,
}
use dmarc_geeks.MtScorer.Scan.{span}
use dmarc_geeks.MtScorer.Headers.{
  digits, dotted, dotted_with, second_octet, last_of, ip_matches, ip_at, is_private,
  extract_sender_ip,
}

-- Where the oldest Received header starts with "from" and a space, as RFC 5321 has it, the address
-- found is the text "f", whatever address the header names.
pub extract_sender_ip_from :
    (received : List Text) (rest : Text)
    → last_of received ≡ some (text "from " ++ rest)
    → extract_sender_ip received ≡ some (text "f")
unfolding extract_sender_ip ip_matches ip_at is_private digits dotted dotted_with second_octet span
    starts_with is_digit or_none split int_of text_beq
extract_sender_ip_from received rest h = rw (extract_sender_ip, h) refl
