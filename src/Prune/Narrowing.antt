-- ===== src/Prune/Narrowing.antt =====
-- What pruning removes, and that it removes nothing else.
use quantmlayer.Prelude.{
  ◌≡◌, refl, sym, ap, ◌∙◌, ◌↔◌, ◌⊎◌, inl, inr, true, Option, none, some, retain_elim, retain_intro,
  In, Bool-cases,
}
use quantmlayer.Text.{Text, contains, to_ascii_lowercase}
use quantmlayer.Text.Laws.{text_eq_iff, contains_In, In_contains}
use quantmlayer.Text.Occurrence.{||_iff, not_iff, false_iff}
use quantmlayer.Text.Trim.{trim}
use quantmlayer.Profile.{Profile}
use quantmlayer.Prune.{
  Yaml, provider_domains, provider_domain, survives, keep_only, prune_to, prune_by,
  prune_provider_domains, read_goose_provider,
}
use quantmlayer.Prune.Hosted.{hosted, provider_domain-hosted}

-- The domain of the provider that the configuration names, whatever its case and the white space
-- around it.
abbrev pub Configured : Yaml → Option Text → Text → Type 0
Configured yaml config keep =
    (text : Text) × (provider : Text) × (config ≡ some text)
    × (read_goose_provider yaml text ≡ some provider)
    × In (to_ascii_lowercase (trim provider), keep) hosted

-- `p` is `base` but for its allow-list, which keeps a domain exactly when it is no hosted provider's
-- or is the one of the configured provider, and keeps all when there is none.
pub record Pruned (yaml : Yaml) (config : Option Text) (p base : Profile) : Type 0 where
  pub untouched :
      p ≡ record base { network = record base.network { allow_domains = p.network.allow_domains } }
  pub domains :
      (d : Text)
      → In d p.network.allow_domains ↔ (
          In d base.network.allow_domains
          × ((keep : Text) → Configured yaml config keep → In d provider_domains → d ≡ keep))

survives_iff : (keep d : Text) → (survives keep d ≡ true) ↔ ((d ≡ keep) ⊎ (¬ In d provider_domains))
unfolding survives
survives_iff keep d =
    ||_iff _ _ (text_eq_iff d keep)
      (not_iff _ (contains_In d provider_domains, In_contains d provider_domains))

unchanged-Pruned :
    (yaml : Yaml) (config : Option Text) (base : Profile)
    → ((keep : Text) → ¬ Configured yaml config keep)
    → Pruned yaml config base base
unchanged-Pruned yaml config base unnamed = record {
  untouched = refl;
  domains = λ d. (λ m. (m, λ keep k. absurd (unnamed keep k)), λ q. q.0);
}

keep_only-Pruned :
    (yaml : Yaml) (config : Option Text) (base : Profile) (keep : Text)
    → Configured yaml config keep
    → ((other : Text) → Configured yaml config other → other ≡ keep)
    → Pruned yaml config (keep_only base keep) base
keep_only-Pruned yaml config base keep named only = record { untouched = refl; domains = kept }
  where
    kept :
        (d : Text)
        → In d (keep_only base keep).network.allow_domains ↔ (
            In d base.network.allow_domains
            × ((other : Text) → Configured yaml config other → In d provider_domains → d ≡ other))
    kept d = (there, back)
      where
        there :
            In d (keep_only base keep).network.allow_domains
            → In d base.network.allow_domains
              × ((other : Text) → Configured yaml config other → In d provider_domains → d ≡ other)
        there m =
            let (n, h) = retain_elim (survives keep) d base.network.allow_domains m in
            (
              n,
              λ other k p. elim ((survives_iff keep d).0 h) [
                | inl e ↦ e ∙ sym (only other k)
                | inr q ↦ absurd (q p)
              ],
            )

        back :
            (In d base.network.allow_domains
              × ((other : Text) → Configured yaml config other → In d provider_domains → d ≡ other))
            → In d (keep_only base keep).network.allow_domains
        back (m, f) = retain_intro (survives keep) d base.network.allow_domains m (
            (survives_iff keep d).1 (elim (Bool-cases (contains provider_domains d)) [
              | inl e ↦ inl (f keep named (contains_In d provider_domains e))
              | inr e ↦ inr (
                  (false_iff _ (contains_In d provider_domains, In_contains d provider_domains)).0
                    e)
            ]))

-- What is configured is the domain of the provider that the text names.
Configured-domain :
    (yaml : Yaml) (text provider keep : Text)
    → read_goose_provider yaml text ≡ some provider
    → Configured yaml (some text) keep
    → provider_domain provider ≡ some keep
Configured-domain yaml text provider keep read (other, name, e, r, m) =
    let same_text : text ≡ other = cc in
    let again : some provider ≡ some name =
      sym read ∙ ap (read_goose_provider yaml) same_text ∙ r in
    let same_name : provider ≡ name = cc in
    ap provider_domain same_name ∙ (provider_domain-hosted name keep).1 m

prune_to-Pruned :
    (yaml : Yaml) (base : Profile) (text provider : Text) (o : Option Text)
    → read_goose_provider yaml text ≡ some provider
    → provider_domain provider ≡ o
    → Pruned yaml (some text) (prune_to base provider o).0 base
unfolding prune_to
prune_to-Pruned yaml base text provider none read found =
    unchanged-Pruned yaml (some text) base λ keep k.
      let hosted_ : none ≡ some keep =
        sym found ∙ Configured-domain yaml text provider keep read k in
      cc
prune_to-Pruned yaml base text provider (some keep) read found =
    keep_only-Pruned yaml (some text) base keep
      (text, provider, refl, read, (provider_domain-hosted provider keep).0 found)
      λ other k.
        let same : some other ≡ some keep =
          sym (Configured-domain yaml text provider other read k) ∙ found in
        cc

prune_by-Pruned :
    (yaml : Yaml) (base : Profile) (text : Text) (o : Option Text)
    → read_goose_provider yaml text ≡ o
    → Pruned yaml (some text) (prune_by base o).0 base
unfolding prune_by
prune_by-Pruned yaml base text none read =
    unchanged-Pruned yaml (some text) base λ keep k. unread keep k
  where
    unread : (keep : Text) → Configured yaml (some text) keep → ⊥
    unread keep (other, name, e, r, m) =
        let same_text : text ≡ other = cc in
        let again : none ≡ some name = sym read ∙ ap (read_goose_provider yaml) same_text ∙ r in cc
prune_by-Pruned yaml base text (some provider) read =
    prune_to-Pruned yaml base text provider (provider_domain provider) read refl

-- Pruning changes only the allow-list. When the configuration can be read and names a hosted provider,
-- the pruned profile lists exactly those of its domains that are no hosted provider's or are that of
-- the named one; otherwise it lists them all.
pub prune_provider_domains-Pruned :
    (yaml : Yaml) (base : Profile) (config : Option Text)
    → Pruned yaml config (prune_provider_domains yaml base config).0 base
unfolding prune_provider_domains
prune_provider_domains-Pruned yaml base none = unchanged-Pruned yaml none base unread
  where
    unread : (keep : Text) → Configured yaml none keep → ⊥
    unread keep (other, name, e, r, m) = cc
prune_provider_domains-Pruned yaml base (some text) =
    prune_by-Pruned yaml base text (read_goose_provider yaml text) refl
