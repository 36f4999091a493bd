-- ===== src/Supervisor/Decisions.antt =====
-- What crates/ql-enforce/src/exec_supervisor.rs answers to an exec.
use quantmlayer.Prelude.{
  ℕ, ◌≡◌, refl, sym, ap, ◌∙◌, subst, ◌↔◌, inl, inr, Bool, true, false, ◌||◌, Option, none, some,
  List, [], ◌∷◌, map, any, retain, In, if◌then◌else◌, Bool-cases, Outcome, ok, err, arith,
}
use quantmlayer.Text.{Text, text_eq, contains}
use quantmlayer.Text.Laws.{contains_In, In_contains}
use quantmlayer.Digest.{ExecDigest}
use quantmlayer.Profile.{Profile}
use quantmlayer.Profile.Matching
use quantmlayer.Profile.Matching.{admits_exec, is_sha256}
use quantmlayer.Supervisor.{
  Decision, allow, deny, ExecSupervisor, from_profile, decide, SeccompNotif, SeccompNotifResp,
  ExecEvent, Host, expired, reported, hash_target, target_of, response, respond, answer_of,
  event_of, serve_one, to_option,
}

contains-map :
    (ds : List ExecDigest) (x : Text)
    → contains (map (λ (d : ExecDigest). d.hex) ds) x ≡ any (λ (d : ExecDigest). text_eq d.hex x) ds
unfolding contains
contains-map [] x = refl
contains-map (d ∷ ds) x = ap (λ b. text_eq d.hex x || b) (contains-map ds x)

-- The same verdict, as the decision layer of the profile names it.
abbrev pub as_verdict : Decision → Matching.Decision
as_verdict allow = Matching.Decision.allow
as_verdict deny = Matching.Decision.deny

-- Where the profile enforces, the wall built from it decides on each digest, or on the lack of one,
-- as the profile's own decision layer does.
pub decide-eq-admits_exec :
    (p : Profile) (digest : Option Text)
    → p.exec.enforce ≡ true
    → as_verdict (decide (from_profile p) digest) ≡ admits_exec p digest
unfolding decide from_profile admits_exec
decide-eq-admits_exec p none on = rw on refl
decide-eq-admits_exec p (some d) on =
    let ds = retain (λ (x : ExecDigest). is_sha256 x.algo) p.exec.allow_digests in
    rw on (rw (contains-map ds d) (same (any (λ (x : ExecDigest). text_eq x.hex d) ds)))
  where
    same :
        (b : Bool)
        → as_verdict (if b then allow else deny)
          ≡ (if b then Matching.Decision.allow else Matching.Decision.deny)
    same true = refl
    same false = refl

decide_allow :
    (s : ExecSupervisor) (digest : Option Text)
    → decide s digest ≡ allow
    → (d : Text) × (digest ≡ some d) × In d s.allow
unfolding decide
decide_allow s none h = cc
decide_allow s (some d) h = elim (Bool-cases (contains s.allow d)) [
  | inl e ↦ (d, refl, contains_In d s.allow e)
  | inr e ↦ absurd (clash (rw e at h))
]
  where
    clash : deny ≡ allow → ⊥
    clash k = cc

allow_decide :
    (s : ExecSupervisor) (digest : Option Text) (d : Text)
    → digest ≡ some d
    → In d s.allow
    → decide s digest ≡ allow
unfolding decide
allow_decide s digest d e m = rw e (rw (In_contains d s.allow m) refl)

to_option-ok : (o : Outcome Text Text) (d : Text) → to_option o ≡ some d → o ≡ ok d
to_option-ok (ok x) d h = let e : x ≡ d = cc in rw e refl
to_option-ok (err e) d h = cc

module _ (h : Host) where
  -- The program that the request names was hashed, and its digest is approved.
  abbrev pub IsApproved : ExecSupervisor → SeccompNotif → Type 0
  IsApproved s req = (d : Text) × (hash_target h req.pid (target_of h req) ≡ ok d) × In d s.allow

  IsApproved-iff :
      (s : ExecSupervisor) (req : SeccompNotif)
      → (decide s (to_option (hash_target h req.pid (target_of h req))) ≡ allow) ↔ IsApproved s req
  IsApproved-iff s req = (
    λ k. let (d, e, m) = decide_allow s _ k in (d, to_option-ok _ d e, m),
    λ q. allow_decide s _ (q.0) (ap to_option (q.1)) (q.2),
  )

  -- What the event says agrees with what was answered.
  abbrev pub IsAnswer : ExecSupervisor → SeccompNotif → SeccompNotifResp → ExecEvent → Type 0
  IsAnswer s req resp event =
      (resp ≡ response h req.id event.decision)
      × (event.digest ≡ to_option (hash_target h req.pid (target_of h req)))
      × (event.decision ≡ decide s event.digest)

  answered :
      {a b : SeccompNotifResp} {e f : ExecEvent} (sent : Outcome Text (Unit {0}))
      → answer_of h sent a e ≡ reported b f
      → (b ≡ a) × (f ≡ e)
  answered (ok u) k = (cc, cc)
  answered (err x) k = cc

  event-IsAnswer :
      (s : ExecSupervisor) (req : SeccompNotif)
      → IsAnswer s req
          (response h req.id (decide s (to_option (hash_target h req.pid (target_of h req)))))
          (event_of h s req
            (to_option (hash_target h req.pid (target_of h req)))
            (decide s (to_option (hash_target h req.pid (target_of h req)))))
  unfolding event_of
  event-IsAnswer s req = (refl, refl, refl)

  serve_one-eq-reported :
      (s : ExecSupervisor) (req : SeccompNotif) (resp : SeccompNotifResp) (event : ExecEvent)
      → serve_one h s req ≡ reported resp event
      → IsAnswer s req resp event
  unfolding serve_one respond
  serve_one-eq-reported s req resp event k = elim (Bool-cases (h.id_valid req.id)) [
    | inr gone ↦ absurd (clash (rw gone at k))
    | inl valid ↦
        let (same_resp, same_event) = answered _ (rw valid at k) in
        subst (λ r. IsAnswer s req r event) (sym same_resp)
          (subst (IsAnswer s req _) (sym same_event) (event-IsAnswer s req))
  ]
    where
      clash : expired ≡ reported resp event → ⊥
      clash e = cc

  decision_of_flags : (id : ℕ) (d : Decision) → ((response h id d).flags ≡ 1) ↔ (d ≡ allow)
  unfolding response
  decision_of_flags id allow = (λ e. refl, λ e. refl)
  decision_of_flags id deny = (λ e. absurd (omega (arith, e)), λ e. cc)

  -- A response that was sent lets the exec proceed exactly when the named program could be hashed
  -- and its digest is approved; the arguments and the command line have no part in it. The event
  -- reports that digest and the decision that the response carries.
  pub serve_one_continues :
      (s : ExecSupervisor) (req : SeccompNotif) (resp : SeccompNotifResp) (event : ExecEvent)
      → serve_one h s req ≡ reported resp event
      → ((resp.flags ≡ 1) ↔ IsApproved s req) × IsAnswer s req resp event
  serve_one_continues s req resp event k =
      let (same, digest, decision) = serve_one-eq-reported s req resp event k in
      let decided : event.decision
          ≡ decide s (to_option (hash_target h req.pid (target_of h req))) =
        decision ∙ ap (decide s) digest in
      let flags : resp.flags ≡ (response h req.id event.decision).flags =
        ap (λ (r : SeccompNotifResp). r.flags) same in
      (
        (
          λ f.
              (IsApproved-iff s req).0
                (sym decided ∙ (decision_of_flags req.id event.decision).0 (sym flags ∙ f)),
          λ q.
              flags
              ∙ (decision_of_flags req.id event.decision).1 (decided ∙ (IsApproved-iff s req).1 q),
        ),
        (same, digest, decision),
      )
