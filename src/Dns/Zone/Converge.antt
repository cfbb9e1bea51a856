-- ===== src/Dns/Zone/Converge.antt =====
-- Lemmas on `sanitize_delegate_zone` (controllers/providers/dns/infoblox.go).
use mathlib.Core.List.{Perm, perm_middle}
use mathlib.Core.List.Perm
use k8gb.Prelude.{
  ◌≡◌, ◌≢◌, refl, sym, ap, ◌∙◌, arith, String, Bool, true, not, List, [], ◌∷◌, ◌++◌, ◌==◌, eq_iff,
  eq_refl, filter, filter-append, All,
}
use k8gb.Prelude.Sort.{IsOrder, sort, sort-perm, sort_idempotent, filter-sort, sort-append_sort}
use k8gb.Prelude.Text.{ltb_text_asym, ltb_text_trans}
use k8gb.Dns.Zone.{
  NameServer, by_address, filter_out_delegate_to, same_servers, sanitize_delegate_zone, sort_zones,
}

by_address-IsOrder : IsOrder by_address
unfolding by_address
by_address-IsOrder = record {
  asym = λ a b. ltb_text_asym a.address b.address;
  trans = λ a b c. ltb_text_trans a.address b.address c.address;
}

abbrev not_named : String → NameServer → Bool
not_named own v = not (v.name == own)

filter-not_named :
    (own : String) (local : List NameServer)
    → All (λ v. v.name ≡ own) local
    → filter (not_named own) local ≡ []
filter-not_named own [] _ = refl
filter-not_named own (v ∷ vs) (e, es) =
    ground (arith, eq_iff v.name own, filter-not_named own vs es)

filter_others :
    (own other : String) (local : List NameServer)
    → own ≢ other
    → All (λ v. v.name ≡ own) local
    → filter (not_named other) local ≡ local
filter_others own other [] differ _ = refl
filter_others own other (v ∷ vs) differ (e, es) =
    ground (arith, eq_iff v.name other, filter_others own other vs differ es)

filter_twice : {A : Type 0} (p : A → Bool) (xs : List A) → filter p (filter p xs) ≡ filter p xs
filter_twice p [] = refl
filter_twice p (x ∷ xs) = ground (arith, filter_twice p xs)

filter_comm :
    {A : Type 0} (p q : A → Bool) (xs : List A) → filter p (filter q xs) ≡ filter q (filter p xs)
filter_comm p q [] = refl
filter_comm p q (x ∷ xs) = ground (arith, filter_comm p q xs)

-- Sanitising with local servers that all bear the cluster's own name, a second time, changes nothing.
pub sanitize_delegate_zone_idempotent :
    (own : String) (local upstream : List NameServer)
    → All (λ v. v.name ≡ own) local
    → sanitize_delegate_zone own local (sanitize_delegate_zone own local upstream)
      ≡ sanitize_delegate_zone own local upstream
unfolding sanitize_delegate_zone sort_zones filter_out_delegate_to
sanitize_delegate_zone_idempotent own local upstream named =
    ap (λ xs. sort by_address (local ++ xs))
      (filter-sort by_address by_address-IsOrder (not_named own)
          (local ++ filter (not_named own) upstream)
        ∙ ap (sort by_address) (
            filter-append (not_named own) local (filter (not_named own) upstream)
            ∙ rw (filter-not_named own local named) (filter_twice (not_named own) upstream)))
    ∙ sort-append_sort by_address by_address-IsOrder local (filter (not_named own) upstream)

-- The sanitised list is sorted.
pub sort_zones-sanitize_delegate_zone :
    (own : String) (local upstream : List NameServer)
    → sort_zones (sanitize_delegate_zone own local upstream)
      ≡ sanitize_delegate_zone own local upstream
unfolding sanitize_delegate_zone sort_zones
sort_zones-sanitize_delegate_zone own local upstream =
    sort_idempotent by_address by_address-IsOrder _

-- What a cluster leaves in the zone after another cluster's update: its own servers are kept.
sanitize_after :
    (a b : String) (local_a local_b upstream : List NameServer)
    → a ≢ b
    → All (λ v. v.name ≡ a) local_a
    → sanitize_delegate_zone b local_b (sanitize_delegate_zone a local_a upstream)
      ≡ sort by_address
          (local_b ++ (local_a ++ filter (not_named b) (filter (not_named a) upstream)))
unfolding sanitize_delegate_zone sort_zones filter_out_delegate_to
sanitize_after a b local_a local_b upstream differ named =
    ap (λ xs. sort by_address (local_b ++ xs))
      (filter-sort by_address by_address-IsOrder (not_named b)
          (local_a ++ filter (not_named a) upstream)
        ∙ ap (sort by_address) (
            filter-append (not_named b) local_a (filter (not_named a) upstream)
            ∙ ap (λ xs. xs ++ filter (not_named b) (filter (not_named a) upstream))
                (filter_others a b local_a differ named)))
    ∙ sort-append_sort by_address by_address-IsOrder local_b
        (local_a ++ filter (not_named b) (filter (not_named a) upstream))

swap_parts : {A : Type 0} (xs ys zs : List A) → Perm (xs ++ (ys ++ zs)) (ys ++ (xs ++ zs))
swap_parts xs [] zs = Perm.refl _
swap_parts xs (y ∷ ys) zs =
    Perm.trans (perm_middle xs (ys ++ zs)) (Perm.cons y (swap_parts xs ys zs))

-- Two clusters of different names, whose local servers bear their own name, leave the same name
-- servers in the zone, up to their order, whichever of them updates it first.
pub sanitize_delegate_zone_comm :
    (a b : String) (local_a local_b upstream : List NameServer)
    → a ≢ b
    → All (λ v. v.name ≡ a) local_a
    → All (λ v. v.name ≡ b) local_b
    → Perm
        (sanitize_delegate_zone b local_b (sanitize_delegate_zone a local_a upstream))
        (sanitize_delegate_zone a local_a (sanitize_delegate_zone b local_b upstream))
sanitize_delegate_zone_comm a b local_a local_b upstream differ named_a named_b =
    rw
      (
        sanitize_after a b local_a local_b upstream differ named_a,
        sanitize_after b a local_b local_a upstream (λ e. differ (sym e)) named_b,
        filter_comm (not_named a) (not_named b) upstream,
      )
      (Perm.trans (sort-perm by_address _)
        (Perm.trans (swap_parts local_b local_a _) (Perm.symm (sort-perm by_address _))))

pub same_servers_refl : (xs : List NameServer) → same_servers xs xs ≡ true
unfolding same_servers
same_servers_refl [] = refl
same_servers_refl (x ∷ xs) = ground (arith, eq_refl x.address, eq_refl x.name, same_servers_refl xs)
