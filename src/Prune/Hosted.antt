-- ===== src/Prune/Hosted.antt =====
-- The table of hosted providers of crates/ql-cli/src/prune.rs, and that provider_domain reads it.
use quantmlayer.Prelude.{
  ◌≡◌, refl, sym, subst, ◌↔◌, inl, inr, true, none, some, List, [], ◌∷◌, In, Bool-cases,
}
use quantmlayer.Text.{Text, codes, text_eq, to_ascii_lowercase}
use quantmlayer.Text.Laws.{text_eq_iff}
use quantmlayer.Text.Trim.{trim}
use quantmlayer.Prune.{provider_domain, domain_of}

-- The hosted providers and their domains.
abbrev pub hosted : List (Text × Text)
hosted =
    (codes "anthropic", codes "api.anthropic.com")
    ∷ (codes "openai", codes "api.openai.com")
    ∷ (codes "google", codes "generativelanguage.googleapis.com")
    ∷ (codes "gemini", codes "generativelanguage.googleapis.com")
    ∷ (codes "xai", codes "api.x.ai")
    ∷ (codes "openrouter", codes "openrouter.ai")
    ∷ []

-- A name and a domain of the table.
listed :
    (name keep a d : Text)
    → text_eq name a ≡ true
    → some d ≡ some keep
    → ◌≡◌ {A = Text × Text} (name, keep) (a, d)
listed name keep a d e h =
    let same : name ≡ a = (text_eq_iff name a).0 e in
    let value : d ≡ keep = cc in rw (same, value) refl

domain_of-hosted : (name keep : Text) → domain_of name ≡ some keep → In (name, keep) hosted
unfolding domain_of
domain_of-hosted name keep h = elim (Bool-cases (text_eq name (codes "anthropic"))) [
  | inl e ↦ inl (listed name keep _ _ e (rw e at h))
  | inr n ↦ elim (Bool-cases (text_eq name (codes "openai"))) [
    | inl e ↦ inr (inl (listed name keep _ _ e (rw (n, e) at h)))
    | inr o ↦ elim (Bool-cases (text_eq name (codes "google"))) [
      | inl e ↦ inr (inr (inl (listed name keep _ _ e (rw (n, o, e) at h))))
      | inr g ↦ elim (Bool-cases (text_eq name (codes "gemini"))) [
        | inl e ↦ inr (inr (inr (inl (listed name keep _ _ e (rw (n, o, g, e) at h)))))
        | inr i ↦ elim (Bool-cases (text_eq name (codes "xai"))) [
          | inl e ↦ inr (inr (inr (inr (inl (listed name keep _ _ e (rw (n, o, g, i, e) at h))))))
          | inr x ↦ elim (Bool-cases (text_eq name (codes "openrouter"))) [
            | inl e ↦
                inr (
                  inr (inr (inr (inr (inl (listed name keep _ _ e (rw (n, o, g, i, x, e) at h)))))))
            | inr r ↦ absurd (missing (rw (n, o, g, i, x, r) at h))
          ]
        ]
      ]
    ]
  ]
]
  where
    missing : none ≡ some keep → ⊥
    missing e = cc

hosted-domain_of : (name keep : Text) → In (name, keep) hosted → domain_of name ≡ some keep
unfolding domain_of text_eq
hosted-domain_of name keep m = elim m [
  | inl e ↦ found _ _ refl e
  | inr m1 ↦ elim m1 [
    | inl e ↦ found _ _ refl e
    | inr m2 ↦ elim m2 [
      | inl e ↦ found _ _ refl e
      | inr m3 ↦ elim m3 [
        | inl e ↦ found _ _ refl e
        | inr m4 ↦ elim m4 [
          | inl e ↦ found _ _ refl e
          | inr m5 ↦ elim m5 [ inl e ↦ found _ _ refl e | inr u ↦ absurd u ]
        ]
      ]
    ]
  ]
]
  where
    found :
        (a d : Text)
        → domain_of a ≡ some d
        → ◌≡◌ {A = Text × Text} (name, keep) (a, d)
        → domain_of name ≡ some keep
    found a d h e = subst (λ (q : Text × Text). domain_of (q.0) ≡ some (q.1)) (sym e) h

pub provider_domain-hosted :
    (provider keep : Text)
    → (provider_domain provider ≡ some keep) ↔ In (to_ascii_lowercase (trim provider), keep) hosted
unfolding provider_domain
provider_domain-hosted provider keep =
    let name = to_ascii_lowercase (trim provider) in
    (domain_of-hosted name keep, hosted-domain_of name keep)
