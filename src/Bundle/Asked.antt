-- ===== src/Bundle/Asked.antt =====
-- What a narrowing of crates/ql-cli/src/token_delegate.rs keeps of a capability.
use quantmlayer.Prelude.{
  ◌≡◌, true, Option, none, some, List, retain_elim, retain_intro, ◌↔◌, In, all_intro,
}
use quantmlayer.Text.{Text, contains}
use quantmlayer.Text.Laws.{contains_In, In_contains}
use quantmlayer.Text.Order.{sort_dedup, In-sort_dedup, sort_dedup-In}
use quantmlayer.Capability.{Capability, normalized, path_in, paths_within, set_within, is_subset_of}
use quantmlayer.Capability.Attenuation.{Parts-subset}
use quantmlayer.Profile.Narrowing.{path_in_of_In}
use quantmlayer.Bundle.{Narrowing, keep, apply}

keep-In :
    (x : Text) (have : List Text) (want : Option (List Text)) → In x (keep have want) → In x have
unfolding keep
keep-In x have none m = m
keep-In x have (some want) m = (retain_elim (contains want) x have m).0

-- What a narrowing asks for is intersected with the parent's grants: the result is a subset.
pub apply-is_subset_of :
    (n : Narrowing) (parent : Capability) → is_subset_of (apply n parent) parent ≡ true
unfolding apply normalized paths_within set_within
apply-is_subset_of n parent = Parts-subset (apply n parent) parent (record {
  reads =
      all_intro (λ x. path_in x parent.read_paths) (sort_dedup (keep parent.read_paths n.only_read))
        λ g m.
          path_in_of_In g parent.read_paths
            (keep-In g parent.read_paths n.only_read (In-sort_dedup g _ m));
  writes =
      all_intro (λ x. path_in x parent.write_paths)
        (sort_dedup (keep parent.write_paths n.only_write))
        λ g m.
          path_in_of_In g parent.write_paths
            (keep-In g parent.write_paths n.only_write (In-sort_dedup g _ m));
  nets =
      all_intro (contains parent.net_domains) (sort_dedup (keep parent.net_domains n.only_domains))
        λ g m.
          In_contains g parent.net_domains
            (keep-In g parent.net_domains n.only_domains (In-sort_dedup g _ m));
  execs =
      all_intro (contains parent.allow_exec) (sort_dedup (keep parent.allow_exec n.only_exec))
        λ g m.
          In_contains g parent.allow_exec
            (keep-In g parent.allow_exec n.only_exec (In-sort_dedup g _ m));
})

-- Among those that were asked for, or all when nothing was asked.
abbrev pub Asked : Option (List Text) → Text → Type 0
Asked none x = Unit {0}
Asked (some want) x = In x want

-- `cap` grants exactly what `parent` grants and the narrowing asks for, by category.
pub record IsNarrowed (n : Narrowing) (parent cap : Capability) : Type 0 where
  pub reads : (x : Text) → In x cap.read_paths ↔ (In x parent.read_paths × Asked n.only_read x)
  pub writes : (x : Text) → In x cap.write_paths ↔ (In x parent.write_paths × Asked n.only_write x)
  pub nets : (x : Text) → In x cap.net_domains ↔ (In x parent.net_domains × Asked n.only_domains x)
  pub execs : (x : Text) → In x cap.allow_exec ↔ (In x parent.allow_exec × Asked n.only_exec x)

keep_iff :
    (x : Text) (have : List Text) (want : Option (List Text))
    → In x (keep have want) ↔ (In x have × Asked want x)
unfolding keep
keep_iff x have none = (λ m. (m, tt), λ q. q.0)
keep_iff x have (some want) = (
  λ m. let (k, h) = retain_elim (contains want) x have m in (k, contains_In x want h),
  λ q. retain_intro (contains want) x have (q.0) (In_contains x want (q.1)),
)

sorted_keep_iff :
    (x : Text) (have : List Text) (want : Option (List Text))
    → In x (sort_dedup (sort_dedup (keep have want))) ↔ (In x have × Asked want x)
sorted_keep_iff x have want = (
  λ m. (keep_iff x have want).0 (In-sort_dedup x _ (In-sort_dedup x _ m)),
  λ q. sort_dedup-In x _ (sort_dedup-In x _ ((keep_iff x have want).1 q)),
)

pub apply-IsNarrowed :
    (n : Narrowing) (parent : Capability) → IsNarrowed n parent (normalized (apply n parent))
unfolding apply normalized
apply-IsNarrowed n parent = record {
  reads = λ x. sorted_keep_iff x parent.read_paths n.only_read;
  writes = λ x. sorted_keep_iff x parent.write_paths n.only_write;
  nets = λ x. sorted_keep_iff x parent.net_domains n.only_domains;
  execs = λ x. sorted_keep_iff x parent.allow_exec n.only_exec;
}
