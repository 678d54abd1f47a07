-- ===== src/Config/Loader/Allowlist.antt =====
-- What becomes of the domains of the setting.
use scan2graph.Prelude.{
  ◌≡◌, ◌≢◌, refl, true, false, not, ◌&&◌, List, [], ◌∷◌, ◌++◌, Option, none, some, Str, map,
  is_empty, contains, Unicode, trim_space, split_at, str_eq_iff, arith, All, All-append, count_rune,
  ◌↔◌, Bool-cases, inl, inr,
}
use scan2graph.Config.Types.{Config}
use scan2graph.Config.Address.{after_last, matches_domain, recipient_allowed}
use scan2graph.Config.Loader.{
  Fault, open_relay, valid_domain, parse_parts, parse_domains, domains_of, domains,
}

parse_parts-valid :
    (u : Unicode) (parts out : List Str)
    → All (λ d. valid_domain d ≡ true) out
    → All (λ d. valid_domain d ≡ true) (parse_parts u parts out).0
unfolding parse_parts
parse_parts-valid u [] out h = h
parse_parts-valid u (p ∷ parts) out h =
    let d = map u.to_lower (trim_space u.is_space p) in
    elim (Bool-cases (valid_domain d && not (contains d out))) [
      | inl e ↦ rw e (
          parse_parts-valid u parts (out ++ d ∷ [])
            (All-append (λ x. valid_domain x ≡ true) d out (ground arith) h))
      | inr e ↦ rw e (parse_parts-valid u parts out h)
    ]

domains_of-valid :
    (u : Unicode) (raw : Option Str) → All (λ d. valid_domain d ≡ true) (domains_of u raw).0
unfolding domains_of parse_domains
domains_of-valid u none = tt
domains_of-valid u (some raw) = parse_parts-valid u (split_at b',' raw) [] tt

append-ne_nil : (faults : List Fault) (f : Fault) → faults ++ f ∷ [] ≢ []
append-ne_nil [] f h = cc
append-ne_nil (g ∷ faults) f h = cc

matches_domain-contains : (d : Str) (ds : List Str) → matches_domain d ds ≡ contains d ds
unfolding matches_domain contains
matches_domain-contains d [] = refl
matches_domain-contains d (e ∷ ds) =
    ground (arith, matches_domain-contains d ds, str_eq_iff d e, str_eq_iff e d)

-- If recipient domains are required and domains notes no error, scan2graph is no open relay: a
-- recipient is allowed exactly when he has an address whose domain, in lower case, is on the list.
-- What is on the list is valid.
pub domains-recipient_allowed :
    (u : Unicode) (cfg : Config) (raw : Option Str) (canonical : Str)
    → cfg.allowed_recipient_domains ≡ (domains u raw true).0
    → (domains u raw true).1 ≡ []
    → All (λ d. valid_domain d ≡ true) cfg.allowed_recipient_domains
      × ((recipient_allowed u cfg canonical ≡ true) ↔ (
          (count_rune b'@' canonical ≢ 0)
          × (contains (map u.to_lower (after_last b'@' canonical)) cfg.allowed_recipient_domains
              ≡ true)))
unfolding domains recipient_allowed
domains-recipient_allowed u cfg raw canonical loaded fine =
    let listed : is_empty (domains_of u raw).0 ≡ false =
      ground (arith, append-ne_nil (domains_of u raw).1 open_relay) in
    (
      rw loaded (domains_of-valid u raw),
      ground (
        arith,
        matches_domain-contains (map u.to_lower (after_last b'@' canonical))
            cfg.allowed_recipient_domains,
      ),
    )
