-- ===== src/Risk/Tests.antt =====
-- Runs of the classification, and the theorems at small reports.
use quantmlayer.Prelude.{◌≡◌, refl, ◌↔◌, some, List, [], ◌∷◌}
use quantmlayer.Text.{codes}
use quantmlayer.Risk.{
  allow_candidate, review, deny_by_default, fs_read, fs_write, net_egress, exec, Context, GrantRisk,
  classify_in, classify_grant,
}
use quantmlayer.Risk.Classification.{MayKeep, classify_in-MayKeep, count_of}

abbrev work : Context
work = record { project_root = some (codes "/work/app") }

key_runs : (classify_in (codes "/work/app/.ssh/id") fs_read work).level ≡ review
unfolding classify_in
key_runs = refl

metadata_runs : (classify_in (codes "169.254.169.254:80") net_egress work).level ≡ deny_by_default
unfolding classify_in
metadata_runs = refl

abbrev lines : List GrantRisk
unfolding classify_grant
lines =
    classify_grant (codes "/usr/lib/x.so") fs_read work
    ∷ classify_grant (codes "169.254.169.254:80") net_egress work
    ∷ classify_grant (codes "/usr/bin/git") exec work
    ∷ []

count_runs : count_of allow_candidate lines ≡ 2
unfolding lines classify_grant
count_runs = refl

classify_in-MayKeep_example :
    ((classify_in (codes "/work/app/main.rs") fs_write work).level ≡ allow_candidate)
    ↔ MayKeep fs_write (codes "/work/app/main.rs") work
classify_in-MayKeep_example = classify_in-MayKeep (codes "/work/app/main.rs") fs_write work
