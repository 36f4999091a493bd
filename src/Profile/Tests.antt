-- ===== src/Profile/Tests.antt =====
-- Runs of the profile's decisions, and the theorems at a coding profile.
use quantmlayer.Prelude.{◌≡◌, ◌≢◌, refl, ◌↔◌, true, false, none, List, [], ◌∷◌, In, ok}
use quantmlayer.Text.{Text, codes}
use quantmlayer.Digest.{sha256}
use quantmlayer.Profile.{Profile, default, Phase, ExecPolicy}
use quantmlayer.Profile.Matching.{host_matches}
use quantmlayer.Profile.Rules.{narrow, evaluate_argv, validate}
use quantmlayer.Profile.Rules as Rules
use quantmlayer.Profile.Diff.{diff, is_empty}
use quantmlayer.Profile.DiffLaws.{SameGrants, diff-is_empty_iff}
use quantmlayer.Profile.Narrowing.{NoWider, narrow-NoWider}
use quantmlayer.Profile.Admission.{Blocked, evaluate_argv_iff}

abbrev coding : Profile
coding = record default {
  network = record default.network { allow_domains = codes "example.com" ∷ codes "crates.io" ∷ [] };
  filesystem = record default.filesystem {
    readwrite = codes "/repo/**" ∷ [];
    denied = codes "/home/**" ∷ [];
  };
}

abbrev open_net : Profile
open_net = record coding { network = record coding.network { default_deny = false } }

abbrev build : Phase
build = record {
  description = none;
  no_egress = false;
  only_domains = codes "crates.io" ∷ [];
  only_readwrite = [];
  output_path = none;
}

abbrev argv_policy : ExecPolicy
argv_policy = record {
  enforce = true;
  allow_digests = record { algo = sha256; hex = codes "ab" } ∷ [];
  argv_deny =
      record {
        digest = record { algo = sha256; hex = codes "ab" };
        deny = record { all_of = codes "push" ∷ codes "--force" ∷ [] } ∷ [];
      }
      ∷ [];
}

suffix_runs : host_matches (codes "notexample.com") (codes "example.com") ≡ false
unfolding host_matches
suffix_runs = refl

case_runs : host_matches (codes "API.Example.com.") (codes "example.com") ≡ true
unfolding host_matches
case_runs = refl

force_runs :
    evaluate_argv argv_policy (codes "ab") (codes "git" ∷ codes "push" ∷ codes "--force" ∷ [])
    ≡ Rules.deny (codes "ab") (codes "push" ∷ codes "--force" ∷ [])
unfolding evaluate_argv
force_runs = refl

valid_runs : validate coding ≡ ok tt
unfolding validate
valid_runs = refl

diff_runs : is_empty (diff coding default) ≡ false
unfolding diff is_empty
diff_runs = refl

deep_under : host_matches (codes "a.b.example.com") (codes "b.example.com") ≡ true
unfolding host_matches
deep_under = refl

mid_under : host_matches (codes "b.example.com") (codes "example.com") ≡ true
unfolding host_matches
mid_under = refl

narrow-NoWider_example :
    NoWider (narrow build coding) coding
    × ((g : Text)
        → In g (narrow build coding).filesystem.readwrite
        → In g coding.filesystem.readwrite)
    × ((narrow build coding).filesystem.readonly ≡ coding.filesystem.readonly)
    × ((narrow build coding).processes ≡ coding.processes)
narrow-NoWider_example = narrow-NoWider build coding

abbrev forced : List Text
forced = codes "git" ∷ codes "push" ∷ codes "--force" ∷ []

evaluate_argv_iff_example :
    ((h : Text) (ts : List Text)
      → evaluate_argv argv_policy (codes "ab") forced ≡ Rules.deny h ts
      → Blocked argv_policy.argv_deny (codes "ab") forced ts)
    × ((ts : List Text)
        → Blocked argv_policy.argv_deny (codes "ab") forced ts
        → evaluate_argv argv_policy (codes "ab") forced ≢ Rules.allow)
evaluate_argv_iff_example = evaluate_argv_iff argv_policy (codes "ab") forced

diff-is_empty_iff_example : (is_empty (diff coding default) ≡ true) ↔ SameGrants coding default
diff-is_empty_iff_example = diff-is_empty_iff coding default
