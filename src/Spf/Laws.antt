-- ===== src/Spf/Laws.antt =====
-- What `_count_spf_lookups` of app/dns_utils.py counts.
use mathlib.Core.List.{append_assoc}
use dmarc_geeks.Common.{
  Bool, Bool-cases, List, Text, [], ap, arith, false, if◌then◌else◌, inl, inr, lower, mem, not,
  refl, some, suc, sum_by, sum_by-append, sym, true, zero, ℕ, ◌&&◌, ◌++◌, ◌+◌, ◌∙◌, ◌∷◌, ◌≡◌,
  nat_eq, text_eq, int_eq, option_eq, pair_eq,
}
use dmarc_geeks.Spf.{
  loop, too_deep, lookups, Trouble, Lookups, words_from, spf_record, Term, refers, costs, free,
  term_of, count_terms, count_spf_lookups,
}

-- The names are distinct.
abbrev pub is_distinct : List Text → Bool
is_distinct [] = true
is_distinct (t ∷ ts) = not (mem t ts) && is_distinct ts

-- The count is that of the breakdown: one lookup for each entry, and those below it.
abbrev pub IsTotal : Lookups → Type 0
IsTotal r = r.count ≡ sum_by (λ e. suc (e.sub_count)) (r.breakdown)

unfoldable pub is_paid : Term → Bool
is_paid free = false
is_paid t = true

-- The mechanisms of a record that cost a lookup each.
unfoldable pub paid : List Text → ℕ
unfolding is_paid
paid tokens = sum_by (λ token. if is_paid (term_of [] token) then 1 else 0) tokens

term_of-is_paid : (d e token : Text) → is_paid (term_of d token) ≡ is_paid (term_of e token)
unfolding term_of is_paid
term_of-is_paid d e token = ground arith

module _ (get_txt_records : Text → List Text) where
  -- What the record of one name costs, without those that it refers to.
  abbrev pub own_cost : Text → ℕ
  own_cost name = paid (words_from [] (spf_record get_txt_records name))

  -- `new` are the names that a visit expands: none twice, none that was seen before, and the count
  -- is what their records cost, each once.
  pub record IsCounted (seen : List Text) (extra : ℕ) (r : Lookups × List Text) : Type 0 where
    pub new : List Text
    pub added : r.1 ≡ new ++ seen
    pub once : is_distinct (r.1) ≡ true
    pub count : r.0.count ≡ extra + sum_by own_cost new
    pub total : IsTotal (r.0)

  module _ (visit : Text → List Text → Lookups × List Text)
      (ih : (t : Text) (seen : List Text)
        → is_distinct seen ≡ true
        → IsCounted seen 0 (visit t seen))
      (domain : Text) where
    count_terms-IsCounted :
        (tokens seen : List Text)
        → is_distinct seen ≡ true
        → IsCounted seen (paid tokens) (count_terms visit domain tokens seen)
    unfolding count_terms paid is_paid
    count_terms-IsCounted [] seen h = record {
      new = [];
      added = refl;
      once = h;
      count = refl;
      total = refl;
    }
    count_terms-IsCounted (token ∷ tokens) seen h =
        by_term (term_of domain token) refl (term_of-is_paid [] domain token)
          (count_terms-IsCounted tokens)
      where
        by_term :
            (t : Term)
            → term_of domain token ≡ t
            → is_paid (term_of [] token) ≡ is_paid (term_of domain token)
            → ((names : List Text)
                → is_distinct names ≡ true
                → IsCounted names (paid tokens) (count_terms visit domain tokens names))
            → IsCounted seen
                (paid (token ∷ tokens))
                (count_terms visit domain (token ∷ tokens) seen)
        by_term (refers k t) e p rest =
            let first = ih t seen h in
            let below = rest (visit t seen).1 (first.once) in
            rw (count_terms, e)
              (record {
                new = below.new ++ first.new;
                added =
                    below.added
                    ∙ ap (λ names. below.new ++ names) (first.added)
                    ∙ sym (append_assoc (below.new) (first.new) seen);
                once = below.once;
                count = ground (
                  arith,
                  below.count,
                  first.count,
                  (p ∙ ap is_paid e),
                  sum_by-append own_cost (below.new) (first.new),
                );
                total = omega (arith, below.total);
              })
        by_term (costs k t) e p rest =
            let below = rest seen h in
            rw (count_terms, e)
              (record {
                new = below.new;
                added = below.added;
                once = below.once;
                count = ground (arith, below.count, (p ∙ ap is_paid e));
                total = omega (arith, below.total);
              })
        by_term free e p rest =
            let below = rest seen h in
            rw (count_terms, e)
              (record {
                new = below.new;
                added = below.added;
                once = below.once;
                count = ground (arith, below.count, (p ∙ ap is_paid e));
                total = below.total;
              })

  -- Names in DNS are read without regard to case.
  module _ (case_free : (name : Text) → get_txt_records (lower name) ≡ get_txt_records name) where
    own_cost-lower : (name : Text) → own_cost (lower name) ≡ own_cost name
    unfolding spf_record
    own_cost-lower name = rw (case_free name) refl

    unseen :
        (t : Trouble) (seen : List Text)
        → is_distinct seen ≡ true
        → IsCounted seen 0 (lookups 0 [] (some t), seen)
    unseen t seen h = record { new = []; added = refl; once = h; count = refl; total = refl }

    -- Whatever records the DNS has, looping ones too: a visit adds the names that it expands to the
    -- set of those seen, which are distinct, none twice; the count is the number of terms with a cost in the records of
    -- these names, each record once; and it is the sum over the breakdown of one lookup and the
    -- lookups below it. The DNS reads names without regard to case.
    pub count_spf_lookups-IsCounted :
        (depth_left : ℕ) (domain : Text) (seen : List Text)
        → is_distinct seen ≡ true
        → IsCounted seen 0 (count_spf_lookups get_txt_records depth_left domain seen)
    unfolding count_spf_lookups
    count_spf_lookups-IsCounted zero domain seen h = elim (Bool-cases (mem (lower domain) seen)) [
      | inl old ↦ rw old (unseen loop seen h)
      | inr new ↦ rw new (unseen too_deep seen h)
    ]
    count_spf_lookups-IsCounted (suc n) domain seen h =
        elim (Bool-cases (mem (lower domain) seen)) [
          | inl old ↦ rw old (unseen loop seen h)
          | inr new ↦
              let below =
                count_terms-IsCounted (count_spf_lookups get_txt_records n)
                  (count_spf_lookups-IsCounted n) domain
                  (words_from [] (spf_record get_txt_records domain)) (lower domain ∷ seen)
                  (rw new h) in
              rw new (record {
                new = below.new ++ (lower domain ∷ []);
                added = below.added ∙ sym (append_assoc (below.new) (lower domain ∷ []) seen);
                once = below.once;
                count = omega (
                  arith,
                  below.count,
                  own_cost-lower domain,
                  sum_by-append own_cost (below.new) (lower domain ∷ []),
                );
                total = below.total;
              })
        ]
