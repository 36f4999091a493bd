-- ===== src/Learn/Opens.antt =====
-- The bookkeeping of opened files of crates/ql-learn/src/observation.rs.
use quantmlayer.Prelude.{
  ◌≡◌, ◌≢◌, refl, sym, subst, ◌↔◌, ◌⊎◌, inl, inr, Bool, true, false, not, List, any_elim, any_intro,
  retain_intro, retain_elim, In,
}
use quantmlayer.Text.Occurrence.{false_iff, not_iff}
use quantmlayer.Compile.{same_path}
use quantmlayer.Compile.Choice.{same_path_refl, same_path_sound}
use quantmlayer.Learn.{PathBuf, has_path, remove_path, Observation, open_read, record_open}
use quantmlayer.Learn.Coverage.{In-insert_path, insert_path-In}

-- Nothing that was written is listed as only read.
abbrev pub IsDisjoint : Observation → Type 0
IsDisjoint o = (p : PathBuf) → In p o.writes → In p o.reads → ⊥

same_path_iff : (q p : PathBuf) → (same_path q p ≡ true) ↔ (q ≡ p)
same_path_iff q p = (same_path_sound q p, λ e. rw e (same_path_refl p))

has_path_iff : (ps : List PathBuf) (p : PathBuf) → (has_path ps p ≡ true) ↔ In p ps
unfolding has_path
has_path_iff ps p = (
  λ h.
      let (q, m, e) = any_elim (λ q. same_path q p) ps h in
      subst (λ x. In x ps) (same_path_sound q p e) m,
  λ m. any_intro (λ q. same_path q p) p ps m (same_path_refl p),
)

remove_path_iff :
    (p q : PathBuf) (ps : List PathBuf) → In q (remove_path p ps) ↔ (In q ps × (q ≢ p))
unfolding remove_path
remove_path_iff p q ps = (
  λ m.
      let (k, h) = retain_elim (λ x. not (same_path x p)) q ps m in
      (k, (not_iff (same_path q p) (same_path_iff q p)).0 h),
  λ k.
      retain_intro (λ x. not (same_path x p)) q ps (k.0)
        ((not_iff (same_path q p) (same_path_iff q p)).1 (k.1)),
)

-- What an observation lists after `path` was opened.
abbrev pub Opened : PathBuf → Bool → Observation → Observation → PathBuf → Type 0
Opened path write o after p =
    (In p after.writes ↔ (In p o.writes ⊎ ((write ≡ true) × (p ≡ path))))
    × (In p after.reads ↔ ((In p o.reads ⊎ (p ≡ path)) × (¬ In p after.writes)))

open_read-Opened :
    (path : PathBuf) (known : Bool) (o : Observation) (p : PathBuf)
    → IsDisjoint o
    → (known ≡ true) ↔ In path o.writes
    → Opened path false o (open_read known path o) p
unfolding open_read
open_read-Opened path true o p apart found = (
  (λ m. inl m, λ q. elim q [ inl m ↦ m | inr (e, s) ↦ cc ]),
  (
    λ r. (inl r, λ w. apart p w r),
    λ (q, free). elim q [
      | inl r ↦ r
      | inr same ↦ absurd (free (subst (λ x. In x o.writes) (sym same) (found.0 refl)))
    ],
  ),
)
open_read-Opened path false o p apart found = (
  (λ m. inl m, λ q. elim q [ inl m ↦ m | inr (e, s) ↦ cc ]),
  (
    λ r. (listed (In-insert_path p path o.reads r), λ w. fresh w (In-insert_path p path o.reads r)),
    λ (q, free). elim q [
      | inl r ↦ insert_path-In p path o.reads (inr r)
      | inr same ↦ insert_path-In p path o.reads (inl same)
    ],
  ),
)
  where
    listed : (p ≡ path) ⊎ In p o.reads → In p o.reads ⊎ (p ≡ path)
    listed (inl same) = inr same
    listed (inr r) = inl r

    fresh : In p o.writes → (p ≡ path) ⊎ In p o.reads → ⊥
    fresh w (inl same) = (false_iff false found).0 refl (subst (λ x. In x o.writes) same w)
    fresh w (inr r) = apart p w r

-- Where no path is listed both as written and as only read, opening a path for writing adds it to the
-- written ones, opening it for reading adds none, and the paths only read are then exactly those that
-- were so before and the opened one, less the written ones: the two lists stay apart.
pub record_open-Opened :
    (path : PathBuf) (write : Bool) (o : Observation)
    → IsDisjoint o
    → (p : PathBuf) → Opened path write o (record_open path write o) p
unfolding record_open
record_open-Opened path false o apart p =
    open_read-Opened path (has_path o.writes path) o p apart (has_path_iff o.writes path)
record_open-Opened path true o apart p = (
  (λ m. written (In-insert_path p path o.writes m), λ q. insert_path-In p path o.writes (kept q)),
  (
    λ r.
        let (k, other) = (remove_path_iff path p o.reads).0 r in
        (inl k, λ w. clash k other (In-insert_path p path o.writes w)),
    λ (q, free). elim q [
      | inl r ↦
          (remove_path_iff path p o.reads).1
            (r, λ same. free (insert_path-In p path o.writes (inl same)))
      | inr same ↦ absurd (free (insert_path-In p path o.writes (inl same)))
    ],
  ),
)
  where
    written : (p ≡ path) ⊎ In p o.writes → In p o.writes ⊎ ((true ≡ true) × (p ≡ path))
    written (inl same) = inr (refl, same)
    written (inr w) = inl w

    kept : In p o.writes ⊎ ((true ≡ true) × (p ≡ path)) → (p ≡ path) ⊎ In p o.writes
    kept (inl w) = inr w
    kept (inr (e, same)) = inl same

    clash : In p o.reads → (p ≢ path) → (p ≡ path) ⊎ In p o.writes → ⊥
    clash k other (inl same) = other same
    clash k other (inr w) = apart p w k
