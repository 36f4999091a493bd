-- ===== src/Gateway/Greeting.antt =====
-- The handshake of crates/ql-cli/src/mcp_gateway.rs reads a bounded number of lines and loses none.
use mathlib.Core.List.{append_assoc, append-nil}
use quantmlayer.Prelude.{
  ℕ, ◌+◌, ◌≤◌, ◌≡◌, refl, sym, ap, ◌∙◌, ◌⊎◌, inl, inr, true, false, List, [], ◌∷◌, ◌++◌, map, ltb,
  length, length-append, Bool-cases, arith,
}
use quantmlayer.Text.{Text}
use quantmlayer.Text.Trim.{trim_end}
use quantmlayer.Gateway.{Json, GatewayPolicy}
use quantmlayer.Gateway.Proxy.{Handshake, handshake, is_our_reply, learn}

module _ (j : Json) where
  open j use {from_str}

  -- The lines are those that were buffered, but for trailing white space, then the reply to the
  -- handshake if it came, then those not read; after the first `buffered`.
  abbrev pub Keeps : List Text → List Text → Handshake → Type 0
  Keeps buffered lines h =
      (seen : List Text) × (h.buffered ≡ buffered ++ map trim_end seen)
      × ((lines ≡ seen ++ h.unread)
          ⊎ ((reply : Text) × (is_our_reply j (from_str (trim_end reply)) ≡ true)
              × (lines ≡ seen ++ (reply ∷ h.unread))))

  abbrev IsShort : Handshake → Type 0
  IsShort h = length h.buffered ≤ 101

  Keeps-cons :
      (buffered lines : List Text) (line : Text) (h : Handshake)
      → Keeps (buffered ++ trim_end line ∷ []) lines h
      → Keeps buffered (line ∷ lines) h
  Keeps-cons buffered lines line h (seen, kept, rest) = (
    line ∷ seen,
    kept ∙ append_assoc buffered (trim_end line ∷ []) (map trim_end seen),
    longer rest,
  )
    where
      longer :
          (lines ≡ seen ++ h.unread)
            ⊎ ((reply : Text) × (is_our_reply j (from_str (trim_end reply)) ≡ true)
                × (lines ≡ seen ++ (reply ∷ h.unread)))
          → (line ∷ lines ≡ (line ∷ seen) ++ h.unread)
            ⊎ ((reply : Text) × (is_our_reply j (from_str (trim_end reply)) ≡ true)
                × (line ∷ lines ≡ (line ∷ seen) ++ (reply ∷ h.unread)))
      longer (inl e) = inl (ap (λ ls. line ∷ ls) e)
      longer (inr (reply, ours, e)) = inr (reply, ours, ap (λ ls. line ∷ ls) e)

  handshake-Keeps :
      (scanned : ℕ) (p : GatewayPolicy) (buffered lines : List Text)
      → length buffered ≡ scanned
      → scanned ≤ 100
      → IsShort (handshake j scanned p buffered lines)
        × Keeps buffered lines (handshake j scanned p buffered lines)
  unfolding handshake
  handshake-Keeps scanned p buffered [] e small =
      (omega arith, ([], sym (append-nil buffered), inl refl))
  handshake-Keeps scanned p buffered (line ∷ lines) e small =
      let grown = length-append buffered (trim_end line ∷ []) in
      elim (Bool-cases (is_our_reply j (from_str (trim_end line)))) [
        | inl ours ↦ rw ours (omega arith, ([], sym (append-nil buffered), inr (line, ours, refl)))
        | inr other ↦ rw other (elim (Bool-cases (ltb 100 (scanned + 1))) [
          | inl full ↦ rw full (omega (arith, grown), (line ∷ [], refl, inl refl))
          | inr room ↦ rw room (
              let taught = learn j p (from_str (trim_end line)) in
              let (short, kept) =
                handshake-Keeps (scanned + 1) taught (buffered ++ trim_end line ∷ []) lines
                  (omega (arith, grown)) (not_full room) in
              (
                short,
                Keeps-cons buffered lines line
                    (handshake j (scanned + 1) taught (buffered ++ trim_end line ∷ []) lines) kept,
              ))
        ])
      ]
    where
      not_full : ltb 100 (scanned + 1) ≡ false → scanned + 1 ≤ 100
      not_full h = ground arith

  -- The handshake buffers at most 101 lines, and buffers each line that it reads, but for trailing
  -- white space; the one line that it reads and does not buffer is the reply to its own request,
  -- after which it stops.
  pub handshake_bounds :
      (p : GatewayPolicy) (lines : List Text)
      → (length (handshake j 0 p [] lines).buffered ≤ 101)
        × Keeps [] lines (handshake j 0 p [] lines)
  handshake_bounds p lines = handshake-Keeps 0 p [] lines refl (omega arith)
