-- ===== src/Risk.antt =====
-- crates/ql-risk/src/lib.rs: the classification of grants by where they point, and the report.
pub mod Places
pub mod Classification
mod Tests
use quantmlayer.Prelude.{
  ℕ, ◌+◌, Bool, true, false, not, ◌&&◌, ◌||◌, Option, none, some, List, [], ◌∷◌, ◌++◌,
  if◌then◌else◌, any, suc,
}
use Prim.Native.String.{String}
use quantmlayer.Text.{Text, codes, text_eq, starts_with, includes}

pub data RiskLevel : Type 0 where
  allow_candidate review deny_by_default : RiskLevel

pub data Confidence : Type 0 where
  high medium low : Confidence

pub data GrantKind : Type 0 where
  fs_read fs_write fs_denied exec net_egress syscall_denied : GrantKind

pub record RiskAssessment : Type 0 where
  pub level : RiskLevel
  pub confidence : Confidence
  pub reason : Text

pub record Context : Type 0 where
  pub project_root : Option Text

pub data Sensitivity : Type 0 where
  secret system_lib system home project unknown : Sensitivity

-- PREFIXES.iter().any(|p| path.starts_with(p))
unfoldable pub starts_with_any : List Text → Text → Bool
unfolding starts_with
starts_with_any prefixes path = any (λ p. starts_with p path) prefixes

abbrev pub secret_markers : List Text
secret_markers =
    codes "/.ssh"
    ∷ codes "/.aws"
    ∷ codes "/.gnupg"
    ∷ codes "/.kube"
    ∷ codes "/.config/gcloud"
    ∷ codes "/.docker/config"
    ∷ codes "/.netrc"
    ∷ codes "/.config/gh/"
    ∷ []

unfoldable pub is_secret : Text → Bool
unfolding includes text_eq starts_with
is_secret path =
    any (λ m. includes m path) secret_markers
    || ((text_eq path (codes "/etc/shadow")
          || (text_eq path (codes "/etc/gshadow") || text_eq path (codes "/etc/sudoers")))
        || starts_with (codes "/etc/sudoers.d") path)

unfoldable pub is_project : Text → Bool
unfolding text_eq starts_with
is_project path =
    text_eq path (codes "/tmp")
    || (starts_with (codes "/tmp/") path
        || (starts_with (codes "/var/tmp") path
            || (starts_with (codes "/dev/shm") path || not (starts_with (codes "/") path))))

unfoldable pub is_system_lib : Text → Bool
unfolding starts_with_any
is_system_lib =
    starts_with_any (codes "/usr/" ∷ codes "/lib/" ∷ codes "/lib64" ∷ codes "/opt/" ∷ [])

unfoldable pub is_system : Text → Bool
unfolding starts_with_any
is_system = starts_with_any (
    codes "/etc"
    ∷ codes "/root"
    ∷ codes "/boot"
    ∷ codes "/sys"
    ∷ codes "/proc"
    ∷ codes "/dev"
    ∷ codes "/run"
    ∷ codes "/var"
    ∷ [])

unfoldable pub is_home : Text → Bool
unfolding starts_with
is_home path = starts_with (codes "/home/") path || starts_with (codes "/Users/") path

unfoldable pub is_system_binary : Text → Bool
unfolding starts_with_any
is_system_binary = starts_with_any (
    codes "/usr/bin/"
    ∷ codes "/bin/"
    ∷ codes "/usr/sbin/"
    ∷ codes "/sbin/"
    ∷ codes "/usr/local/bin/"
    ∷ codes "/usr/local/sbin/"
    ∷ [])

abbrev pub is_empty : Text → Bool
is_empty [] = true
is_empty (c ∷ s) = false

-- The test of `if let Some(root) = ctx.project_root`.
unfoldable pub in_root : Option Text → Text → Bool
unfolding starts_with
in_root none path = false
in_root (some root) path = not (is_empty root) && starts_with root path

unfoldable pub sensitivity_in : Text → Context → Sensitivity
unfolding is_secret in_root is_project is_system_lib is_system is_home
sensitivity_in path ctx =
    if is_secret path
    then secret
    else if in_root ctx.project_root path
    then project
    else if is_project path
    then project
    else if is_system_lib path
    then system_lib
    else if is_system path
    then system
    else if is_home path
    then home
    else unknown

-- format!("..`{resource}`..") around a resource
abbrev pub around : String → Text → Text → Text
around before resource after = codes before ++ (resource ++ after)

-- " — " in UTF-8
abbrev pub dash : Text
dash = 32 ∷ 226 ∷ 128 ∷ 148 ∷ 32 ∷ []

abbrev pub assess : RiskLevel → Confidence → Text → RiskAssessment
assess level confidence reason = record { level = level; confidence = confidence; reason = reason }

-- classify_fs_read, past the sensitivity
unfoldable pub classify_fs_read : Text → Sensitivity → RiskAssessment
classify_fs_read r secret = assess review high (
    around "agent read a credential location `" r
      (codes "`" ++ (dash ++ codes "verify this is intended")))
classify_fs_read r system_lib =
    assess allow_candidate high
      (around "read-only access to system libraries or shared data `" r (codes "`"))
classify_fs_read r system =
    assess allow_candidate high (around "read-only access to a system path `" r (codes "`"))
classify_fs_read r project =
    assess allow_candidate high
      (around "read-only access to a project or temporary path `" r (codes "`"))
classify_fs_read r home =
    assess review medium
      (around "read access to a user-home path `" r (codes "` outside the project"))
classify_fs_read r unknown =
    assess review medium (around "read access to an unrecognized path `" r (codes "`"))

abbrev pub system_write : Text → RiskAssessment
system_write r =
    assess review high
      (around "agent writes into a system path `" r (codes "`" ++ (dash ++ codes "verify")))

-- classify_fs_write, past the sensitivity
unfoldable pub classify_fs_write : Text → Sensitivity → RiskAssessment
classify_fs_write r project =
    assess allow_candidate high
      (around "writes confined to a project or temporary path `" r (codes "`"))
classify_fs_write r secret = assess review high (
    around "agent wrote to a credential location `" r
      (codes "`" ++ (dash ++ codes "review carefully")))
classify_fs_write r system_lib = system_write r
classify_fs_write r system = system_write r
classify_fs_write r home =
    assess review medium
      (around "agent writes into a user-home path `" r (codes "` outside the project"))
classify_fs_write r unknown =
    assess review medium
      (around "agent writes into an unrecognized path `" r (codes "`" ++ (dash ++ codes "verify")))

unfoldable pub classify_exec : Text → RiskAssessment
unfolding is_system_binary
classify_exec r =
    if is_system_binary r
    then assess allow_candidate high (around "executes a standard system binary `" r (codes "`"))
    else assess review medium (
        around "executes a binary outside standard system paths `" r
          (codes "`" ++ (dash ++ codes "verify")))

unfoldable pub classify_net : Text → RiskAssessment
unfolding includes
classify_net r =
    if includes (codes "169.254.169.254") r
    then assess deny_by_default high (
        around "cloud-metadata endpoint `" r
          (codes "`" ++ (dash ++ codes "high SSRF risk; kept default-deny")))
    else assess review medium
        (around "external egress to `" r (codes "`; default-deny, allow-list only if required"))

unfoldable pub classify_in : Text → GrantKind → Context → RiskAssessment
unfolding sensitivity_in classify_fs_read classify_fs_write classify_exec classify_net
classify_in r fs_read ctx = classify_fs_read r (sensitivity_in r ctx)
classify_in r fs_write ctx = classify_fs_write r (sensitivity_in r ctx)
classify_in r fs_denied ctx =
    assess deny_by_default high
      (around "denied by default: sensitive location `" r (codes "` (never accessed)"))
classify_in r exec ctx = classify_exec r
classify_in r net_egress ctx = classify_net r
classify_in r syscall_denied ctx = assess deny_by_default high (
    around "dangerous syscall `" r
      (codes "` denied" ++ (dash ++ codes "never used during learning")))

pub record GrantRisk : Type 0 where
  pub resource : Text
  pub kind : GrantKind
  pub level : RiskLevel
  pub confidence : Confidence
  pub reason : Text

-- GrantRisk::classify
unfoldable pub classify_grant : Text → GrantKind → Context → GrantRisk
unfolding classify_in
classify_grant resource kind ctx =
    let a = classify_in resource kind ctx in
    record {
      resource = resource;
      kind = kind;
      level = a.level;
      confidence = a.confidence;
      reason = a.reason;
    }

-- The counts of the source, named apart from the levels.
pub record RiskSummary : Type 0 where
  pub allow_count : ℕ
  pub review_count : ℕ
  pub deny_count : ℕ

pub record RiskReport : Type 0 where
  pub agent : Text
  pub basis : Text
  pub summary : RiskSummary
  pub grants : List GrantRisk

-- The match of the loop in RiskReport::new.
abbrev pub count_level : RiskLevel → RiskSummary → RiskSummary
count_level allow_candidate s = record s { allow_count = suc s.allow_count }
count_level review s = record s { review_count = suc s.review_count }
count_level deny_by_default s = record s { deny_count = suc s.deny_count }

unfoldable pub summarise : RiskSummary → List GrantRisk → RiskSummary
summarise s [] = s
summarise s (g ∷ gs) = summarise (count_level g.level s) gs

-- RiskReport::new
unfoldable pub new : Text → List GrantRisk → RiskReport
unfolding summarise
new agent grants = record {
  agent = agent;
  basis =
      codes
        "classification from path sensitivity and grant kind over a single observed session; confidence is rule-decisiveness, not observed frequency";
  summary = summarise (record { allow_count = 0; review_count = 0; deny_count = 0 }) grants;
  grants = grants;
}
