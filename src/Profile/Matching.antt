-- ===== src/Profile/Matching.antt =====
-- crates/ql-profile/src/eval.rs: the pure decision layer.
use quantmlayer.Prelude.{
  Bool, true, false, not, ◌&&◌, ◌||◌, Option, none, some, List, [], ◌∷◌, ◌==◌, leb, if◌then◌else◌,
  any, retain, length, take,
}
use quantmlayer.Text.{
  Text, codes, text_eq, ends_with, strip_suffix, to_ascii_lowercase, trim_end_matches,
  trim_start_matches, split,
}
use quantmlayer.Digest.{HashAlgo, sha256, ExecDigest}
use quantmlayer.Profile.{Profile}

pub data Decision : Type 0 where
  allow deny : Decision

pub data PathDecision : Type 0 where
  denied not_enforced : PathDecision

-- host_matches normalises both names: trailing dots off, ASCII letters lowered.
unfoldable pub canonical_host : Text → Text
unfolding trim_end_matches to_ascii_lowercase
canonical_host h = to_ascii_lowercase (trim_end_matches 46 h)

unfoldable pub host_matches : Text → Text → Bool
unfolding canonical_host text_eq ends_with
host_matches host domain =
    let h = canonical_host host in
    let d = canonical_host domain in text_eq h d || ends_with (46 ∷ d) h

-- s.trim_matches('/')
abbrev pub trim_slashes : Text → Text
trim_slashes s = trim_end_matches 47 (trim_start_matches 47 s)

abbrev pub is_empty : Text → Bool
is_empty [] = true
is_empty (c ∷ s) = false

unfoldable pub split_components : Text → List Text
unfolding trim_end_matches trim_start_matches split
split_components s = retain (λ c. not (is_empty c)) (split 47 (trim_slashes s))

-- The zipped comparison of `components_eq`.
unfoldable pub components_agree : List Text → List Text → Bool
unfolding text_eq
components_agree [] path = true
components_agree (g ∷ glob) [] = true
components_agree (g ∷ glob) (p ∷ path) =
    (text_eq g (codes "*") || text_eq g p) && components_agree glob path

unfoldable pub components_eq : List Text → List Text → Bool
unfolding components_agree
components_eq glob path = length glob == length path && components_agree glob path

unfoldable pub path_matches : Text → Text → Bool
unfolding split_components strip_suffix components_eq
path_matches path glob =
    let p = split_components path in
    elim (strip_suffix (codes "/**") glob) [
      | some base ↦
          let g = split_components base in
          leb (length g) (length p) && components_eq g (take (length g) p)
      | none ↦ let g = split_components glob in length g == length p && components_eq g p
    ]

-- `a.algo() == HashAlgo::Sha256`
abbrev pub is_sha256 : HashAlgo → Bool
is_sha256 sha256 = true
is_sha256 _ = false

unfoldable pub admits_exec : Profile → Option Text → Decision
unfolding text_eq
admits_exec p none = if not p.exec.enforce then allow else deny
admits_exec p (some d) =
    if not p.exec.enforce
    then allow
    else if any (λ (a : ExecDigest). text_eq a.hex d)
        (retain (λ (a : ExecDigest). is_sha256 a.algo) p.exec.allow_digests)
    then allow
    else deny

unfoldable pub admits_domain : Profile → Text → Decision
unfolding host_matches
admits_domain p host =
    if not p.network.default_deny
    then allow
    else if any (host_matches host) p.network.allow_domains
    then allow
    else deny

unfoldable pub admits_path : Profile → Text → PathDecision
unfolding path_matches
admits_path p path = if any (path_matches path) p.filesystem.denied then denied else not_enforced
