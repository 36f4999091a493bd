-- ===== src/Profile.antt =====
-- crates/ql-profile/src/policy.rs and lib.rs: the data model of a permission profile.
pub mod Matching
pub mod Admission
pub mod Hosts
pub mod Rules
pub mod Narrowing
pub mod Diff
pub mod DiffLaws
pub mod Validation
mod Tests
use Prim.Native.String.{String}
use quantmlayer.Prelude.{ℕ, Bool, true, false, Option, none, some, List, []}
use quantmlayer.Text.{Text}
use quantmlayer.Digest.{ExecDigest}

pub data AgentType : Type 0 where
  coding rag workflow : AgentType

pub record FsPolicy : Type 0 where
  pub readwrite : List Text
  pub readonly : List Text
  pub denied : List Text

pub record NetPolicy : Type 0 where
  pub default_deny : Bool
  pub allow_domains : List Text
  pub block_private_ranges : Bool

-- NetPolicy::default()
abbrev pub default_net : NetPolicy
default_net = record { default_deny = true; allow_domains = []; block_private_ranges = true }

pub record CapPolicy : Type 0 where
  pub retain : List Text

pub data SeccompDefault : Type 0 where
  allow deny : SeccompDefault

pub record SyscallPolicy : Type 0 where
  pub default_action : SeccompDefault
  pub deny : List Text
  pub notify : List Text

-- SyscallPolicy::default()
abbrev pub default_syscalls : SyscallPolicy
default_syscalls = record { default_action = SeccompDefault.deny; deny = []; notify = [] }

pub record ResourceLimits : Type 0 where
  pub memory_max_bytes : Option ℕ
  pub cpu_max_percent : Option ℕ
  pub pids_max : Option ℕ
  pub wall_clock_secs : Option ℕ

pub record ProcPolicy : Type 0 where
  pub allow_exec : List Text

pub record ArgvDeny : Type 0 where
  pub all_of : List Text

pub record ArgvRule : Type 0 where
  pub digest : ExecDigest
  pub deny : List ArgvDeny

pub record ExecPolicy : Type 0 where
  pub enforce : Bool
  pub allow_digests : List ExecDigest
  pub argv_deny : List ArgvRule

pub data ExecIdentity : Type 0 where
  content_hash path_or_signer : ExecIdentity

pub data SecretVisibility : Type 0 where
  absent access_denied : SecretVisibility

pub data Degradation : Type 0 where
  refuse allow : Degradation

pub record Requirements : Type 0 where
  pub exec_identity : Option ExecIdentity
  pub secret_visibility : Option SecretVisibility
  pub degradation : Degradation

pub record Guarantees : Type 0 where
  pub exec_identity : ExecIdentity
  pub secret_visibility : SecretVisibility

pub record Phase : Type 0 where
  pub description : Option Text
  pub no_egress : Bool
  pub only_domains : List Text
  pub only_readwrite : List Text
  pub output_path : Option Text

pub data LockfileVcs : Type 0 where
  clean dirty unknown : LockfileVcs

pub record LockfilePin : Type 0 where
  pub path : Text
  pub sha256 : Text
  pub vcs : LockfileVcs

pub record ApprovedFor : Type 0 where
  pub commit : Option Text
  pub image_digest : Option Text
  pub lockfiles : List LockfilePin

pub record ProfileSignature : Type 0 where
  pub algorithm : Text
  pub public_key : Text
  pub value : Text

pub record Profile : Type 0 where
  pub schema_version : ℕ
  pub agent_type : AgentType
  pub filesystem : FsPolicy
  pub network : NetPolicy
  pub capabilities : CapPolicy
  pub syscalls : SyscallPolicy
  pub resources : ResourceLimits
  pub processes : ProcPolicy
  pub exec : ExecPolicy
  pub requirements : Option Requirements
  pub phases : List (Text × Phase)
  pub approved_for : Option ApprovedFor
  pub signature : Option ProfileSignature

abbrev pub schema_version : ℕ
schema_version = 1

-- Profile::default()
abbrev pub default : Profile
default = record {
  schema_version = schema_version;
  agent_type = coding;
  filesystem = record { readwrite = []; readonly = []; denied = [] };
  network = default_net;
  capabilities = record { retain = [] };
  syscalls = default_syscalls;
  resources = record {
    memory_max_bytes = none;
    cpu_max_percent = none;
    pids_max = none;
    wall_clock_secs = none;
  };
  processes = record { allow_exec = [] };
  exec = record { enforce = false; allow_digests = []; argv_deny = [] };
  requirements = none;
  phases = [];
  approved_for = none;
  signature = none;
}
