-- ===== src/Token/Tests.antt =====
-- Runs of the token layer at a chain of two, and the theorems at them.
use quantmlayer.Prelude.{◌≡◌, refl, ◌↔◌, true, false, [], ◌∷◌, ok, err}
use quantmlayer.Text.{codes}
use quantmlayer.Capability.{net_connect, permits, normalized}
use quantmlayer.Capability.Attenuation.{HasPlainGrants}
use quantmlayer.Identity.{refused, untrusted_root}
use quantmlayer.Token.{hash, verify_chain, delegate, has_expired, authorize}
use quantmlayer.Token.Links.{RootOk, Linked}
use quantmlayer.Token.Chain.{verify_chain_iff, verify_chain-permits}
use quantmlayer.Token.Delegation.{verify_chain-delegate}
use quantmlayer.Token.Authorization.{Authorized, authorize-Authorized}
use quantmlayer.Token.Samples.{toy, toy_laws, wide, thin, root, leaf, request, wire}

root_hash : hash toy wire root ≡ codes "303130300030313034"
unfolding hash
root_hash = refl

chain_runs : verify_chain toy wire (root ∷ leaf ∷ []) (true ∷ []) 5 ≡ ok thin
unfolding verify_chain
chain_runs = refl

root_runs : verify_chain toy wire (root ∷ []) (true ∷ []) 5 ≡ ok wide
unfolding verify_chain
root_runs = refl

untrusted_runs :
    verify_chain toy wire (root ∷ leaf ∷ []) (false ∷ []) 5 ≡ err (refused untrusted_root)
unfolding verify_chain
untrusted_runs = refl

delegate_runs : delegate toy wire root false true thin 0 ≡ ok leaf
unfolding delegate
delegate_runs = refl

authorize_runs : authorize toy wire request (true ∷ []) 5 ≡ ok (net_connect (codes "example.com"))
unfolding authorize
authorize_runs = refl

verify_chain_iff_example :
    (verify_chain toy wire (root ∷ leaf ∷ []) (true ∷ []) 5 ≡ ok thin)
    ↔ (RootOk toy wire 5 (true ∷ []) root × Linked toy wire 5 root (leaf ∷ []) × (thin ≡ thin))
verify_chain_iff_example = verify_chain_iff toy wire 5 (true ∷ []) root (leaf ∷ []) thin

wide_plain : HasPlainGrants wide
wide_plain = (λ g m. absurd m, λ g m. absurd m)

verify_chain-permits_example : permits wide (net_connect (codes "example.com")) ≡ true
verify_chain-permits_example =
    verify_chain-permits toy wire 5 (true ∷ []) root (leaf ∷ []) thin
      (net_connect (codes "example.com")) wide_plain chain_runs thin_permits
  where
    thin_permits : permits thin (net_connect (codes "example.com")) ≡ true
    thin_permits = unfold permits in refl

live_runs : has_expired leaf 5 ≡ false
unfolding has_expired
live_runs = refl

verify_chain-delegate_example :
    verify_chain toy wire (root ∷ leaf ∷ []) (true ∷ []) 5 ≡ ok (normalized thin)
verify_chain-delegate_example =
    verify_chain-delegate toy wire toy_laws 5 (true ∷ []) root [] wide thin false true 0 leaf
      root_runs delegate_runs live_runs

authorize-Authorized_example :
    Authorized toy wire request (true ∷ []) 5 (net_connect (codes "example.com"))
authorize-Authorized_example =
    authorize-Authorized toy wire request (true ∷ []) 5 (net_connect (codes "example.com"))
      authorize_runs
