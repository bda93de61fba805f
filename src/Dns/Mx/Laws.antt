-- ===== src/Dns/Mx/Laws.antt =====
-- app/dns_utils.py: the order in which `lookup_mx` reports the records.
use mathlib.Core.List.Perm
use dmarc_geeks.Common.{
  All, All-imp, Bool, List, Option, Perm, Text, [], arith, false, leb, map, refl, some, true, ℕ,
  ◌∷◌, ◌≡◌, ◌≤◌,
}
use dmarc_geeks.Dns.Mx.{Mx, insert_by_priority, by_priority, lookup_mx, mx_of, result_for, absent}

-- Each record comes before those of a higher number.
abbrev pub IsOrdered : List Mx → Type 0
IsOrdered [] = Unit
IsOrdered (r ∷ rs) = All (λ s. r.priority ≤ s.priority) rs × IsOrdered rs

insert_by_priority-All :
    (n : ℕ) (r : Mx) (rs : List Mx)
    → n ≤ r.priority
    → All (λ s. n ≤ s.priority) rs
    → All (λ s. n ≤ s.priority) (insert_by_priority r rs)
unfolding insert_by_priority
insert_by_priority-All n r [] h k = (h, tt)
insert_by_priority-All n r (s ∷ rs) h (k, ks) = ground (arith, insert_by_priority-All n r rs h ks)

insert_by_priority-IsOrdered :
    (r : Mx) (rs : List Mx) → IsOrdered rs → IsOrdered (insert_by_priority r rs)
unfolding insert_by_priority
insert_by_priority-IsOrdered r [] h = (tt, tt)
insert_by_priority-IsOrdered r (s ∷ rs) (k, ks) =
    by_case (leb (r.priority) (s.priority)) refl (insert_by_priority-IsOrdered r rs ks)
  where
    by_case :
        (b : Bool)
        → leb (r.priority) (s.priority) ≡ b
        → IsOrdered (insert_by_priority r rs)
        → IsOrdered (insert_by_priority r (s ∷ rs))
    by_case true e ih =
        rw (insert_by_priority, e)
          ((ground (arith, e), All-imp rs (λ t l. ground (arith, l, e)) k), (k, ks))
    by_case false e ih =
        rw (insert_by_priority, e)
          (insert_by_priority-All (s.priority) r rs (ground (arith, e)) k, ih)

insert_by_priority-Perm : (r : Mx) (rs : List Mx) → Perm (r ∷ rs) (insert_by_priority r rs)
unfolding insert_by_priority
insert_by_priority-Perm r [] = Perm.refl _
insert_by_priority-Perm r (s ∷ rs) =
    by_case (leb (r.priority) (s.priority)) refl (insert_by_priority-Perm r rs)
  where
    by_case :
        (b : Bool)
        → leb (r.priority) (s.priority) ≡ b
        → Perm (r ∷ rs) (insert_by_priority r rs)
        → Perm (r ∷ s ∷ rs) (insert_by_priority r (s ∷ rs))
    by_case true e ih = rw (insert_by_priority, e) (Perm.refl _)
    by_case false e ih = rw (insert_by_priority, e) (Perm.trans (Perm.swap s r rs) (Perm.cons s ih))

by_priority-IsOrdered : (rs : List Mx) → IsOrdered (by_priority rs)
unfolding by_priority
by_priority-IsOrdered [] = tt
by_priority-IsOrdered (r ∷ rs) =
    insert_by_priority-IsOrdered r (by_priority rs) (by_priority-IsOrdered rs)

by_priority-Perm : (rs : List Mx) → Perm rs (by_priority rs)
unfolding by_priority
by_priority-Perm [] = Perm.nil
by_priority-Perm (r ∷ rs) =
    Perm.trans (Perm.cons r (by_priority-Perm rs)) (insert_by_priority-Perm r (by_priority rs))

result_for-records : (rs : List Mx) → (result_for rs).records ≡ rs
unfolding result_for absent
result_for-records [] = refl
result_for-records (r ∷ rs) = refl

-- Where the DNS answers, the reported records are the answers' ones, in another order at most, and
-- each comes before those of a higher number.
pub lookup_mx-IsOrdered :
    (resolve_mx : Text → Option (List (ℕ × Text))) (domain : Text) (answers : List (ℕ × Text))
    → resolve_mx domain ≡ some answers
    → Perm (map mx_of answers) ((lookup_mx resolve_mx domain).records)
      × IsOrdered ((lookup_mx resolve_mx domain).records)
unfolding lookup_mx
lookup_mx-IsOrdered resolve_mx domain answers e =
    rw (lookup_mx, e, result_for-records (by_priority (map mx_of answers)))
      (by_priority-Perm (map mx_of answers), by_priority-IsOrdered (map mx_of answers))
