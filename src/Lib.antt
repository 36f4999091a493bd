-- ===== src/Lib.antt =====
-- Verification of the policy and credential core of quantmlayer, a containment layer for agents.
--
-- The program grants an agent a profile (files, network, programs, resources), mints a signed
-- capability token for it, lets holders delegate narrower tokens, and puts a broker in front of the
-- network: each CONNECT is decided by a canary list, then by the token in its header or the
-- allow-list, then by the resolved addresses, and each decision goes to a hash-chained audit log.
--
-- The parts, by file:
--   Prelude, Text: Boolean tests and lists over native numbers, results with a bind, and Rust's
--     strings as lists of UTF-8 bytes (Text.Order: sort and dedup).
--   Capability: crates/ql-token/src/capability.rs. Capability::is_subset_of, permits and
--     path_within_one keep their names. Containment and Attenuation hold the proofs.
--   Identity: crates/ql-token/src/identity.rs. Hex text, keys and signatures. A panic is the value
--     `panicked`, apart from the errors.
--   Token: crates/ql-token/src/token.rs. issue_root, delegate, verify_chain, sign_action,
--     verify_action, authorize. Links, Chain, Delegation and Authorization hold the proofs.
--   Nonce: crates/ql-broker/src/nonce.rs. NonceStore::check_and_record as a step of a store.
--   Audit: crates/ql-audit/src/lib.rs. AuditLog::append, head and verify; Lines is to_jsonl,
--     from_jsonl, and AuditSink::record of crates/ql-broker/src/policy.rs.
--   Digest: HashAlgo and ExecDigest of crates/ql-profile/src/policy.rs.
--   Profile: the records of crates/ql-profile/src/policy.rs and lib.rs; Matching is eval.rs, Rules is
--     argv rules, requirements, phases and validate, Diff is diff.rs.
--   Broker: crates/ql-broker/src/policy.rs. authorize_connect, evaluate and report_final over a
--     state of nonce store, audit events and hook calls; Address is is_blocked_ip; Connect is the
--     decision part of handle_connection of proxy.rs.
--   Binding: bind_profile_to_capability of crates/ql-cli/src/token_bind.rs and subtask_capability of
--     token_issue.rs.
--   Bundle: Narrowing and delegate_bundle of crates/ql-cli/src/token_delegate.rs.
--   Prune: prune_provider_domains of crates/ql-cli/src/prune.rs.
--   Risk: crates/ql-risk/src/lib.rs. classify_in with its path rules, and RiskReport::new.
--   Compile: crates/ql-compile/src/lib.rs. Walk is collect_lockfiles over a tree of directories,
--     Envelope is compile, compile_one, assemble, hash_envelope, apply_to and apply_to_replacing.
--   Gateway: crates/ql-cli/src/mcp_gateway.rs. Inspection is inspect_tools_call, Proxy the handshake
--     and the two loops of run_proxy as steps of one state.
--   Supervisor: crates/ql-enforce/src/exec_supervisor.rs. serve_one with what it reads and answers;
--     Filter is build_filter.
--   Learn: crates/ql-learn/src/observation.rs, and in Synthesis synth.rs: synthesize, whose profile
--     is synth_profile, and generalize. Hashing is hash_executables of digest.rs and learn of lib.rs,
--     Shim is resolve_shim_interpreters of shim.rs.
--
-- How they interact: the broker calls authorize of Token and check_and_record of Nonce with the last
-- token's hash and expiry; Token uses Identity for keys and Capability for attenuation; Binding and
-- Bundle move between profiles and capabilities; the host matcher of Profile.Matching is the one
-- that the broker uses. Compile narrows the allow-list that Profile.Matching decides by, the gateway
-- appends to the log of Audit, and the supervisor decides as Profile.Matching does on a digest.
--
-- Third-party code is a parameter: Identity.Crypto (Ed25519 and SHA-256, with the laws CryptoLaws),
-- Token.Wire (the JSON of serde), Audit.Digests (SHA-256 and the JSON of an event),
-- Audit.Lines.Json (the JSON of a record), Prune.Yaml, Gateway.Json (the values of serde_json),
-- Supervisor.Host (the kernel's answers) and Supervisor.Filter.Bpf (the machine that runs a filter,
-- with the laws BpfLaws). The resolver, the clock, git, the printer of ports and the
-- numbers of system calls are arguments, and so are the files and interpreters of a learning run.
--
-- Every loop is structural recursion on a list, on a tree of directories, or on the number of rounds
-- that the source itself fixes (16 arguments, 64 polls, 8 interpreters), so no fuel is used. Numbers are unbounded; where the
-- code wraps or saturates a u64 the model writes it out (default_expiry, the sequence number of
-- append, to_be_bytes).
--
-- Not modelled: failing writes of the audit file, the broker's call of its sink (the broker's state
-- lists the events that it hands over), YAML and JSON of profiles, the proxies' sockets and pipes,
-- the other enforcers, the tracer and the kernel layer (system calls), the events of connections that
-- an observation keeps, and the rest of the command line.
pub mod Prelude
pub mod Text
pub mod Capability
pub mod Identity
pub mod Token
pub mod Nonce
pub mod Audit
pub mod Digest
pub mod Profile
pub mod Broker
pub mod Binding
pub mod Bundle
pub mod Risk
pub mod Prune
pub mod Compile
pub mod Gateway
pub mod Supervisor
pub mod Learn
