-- ===== src/Firmware/Packet/Copies.antt =====
-- About the two loops of modules/teensy/lib/packet/packet.cpp that copy a payload.
use native.Mathlib.Nat.{zero-add, suc-add}
use rdml_blue_rov2_deploymen.Common.{ℕ, zero, suc, ◌+◌, ◌≡◌, refl, sym, ap, arith}
use rdml_blue_rov2_deploymen.Common.{
  List, [], ◌∷◌, ◌++◌, append_assoc, length, length-append, replicate,
}
use rdml_blue_rov2_deploymen.Common.{ok, load-append, store-append}
use rdml_blue_rov2_deploymen.Firmware.Packet.{copy_to_frame, copy_from_frame}

pub two-add : (n : ℕ) → 2 + n ≡ suc (suc n)
two-add n = omega arith

next_index : (done : List ℕ) (x : ℕ) → length done + 1 ≡ length (done ++ (x ∷ []))
next_index done x = sym (length-append done (x ∷ []))

-- `done` is what a loop has copied, `p` what it has yet to, and `room` what it overwrites.
pub copy_to_frame-append :
    (p done rest room after : List ℕ) (a b : ℕ)
    → length room ≡ length p
    → copy_to_frame
        (length p)
        (length done)
        (done ++ (p ++ rest))
        (a ∷ b ∷ (done ++ (room ++ after)))
      ≡ ok (a ∷ b ∷ (done ++ (p ++ after)))
unfolding copy_to_frame
copy_to_frame-append [] done rest [] after a b h = refl
copy_to_frame-append [] done rest (t ∷ room) after a b h = absurd (omega arith)
copy_to_frame-append (x ∷ p) done rest [] after a b h = absurd (omega arith)
copy_to_frame-append (x ∷ p) done rest (t ∷ room) after a b h =
    rw
      (
        load-append,
        two-add (length done),
        store-append,
        next_index done x,
        ← append_assoc done (x ∷ []) (p ++ rest),
        ← append_assoc done (x ∷ []) (room ++ after),
        ← append_assoc done (x ∷ []) (p ++ after),
      )
      (copy_to_frame-append p (done ++ (x ∷ [])) rest room after a b (omega arith))

pub copy_from_frame-append :
    (p done rest room after : List ℕ) (a b : ℕ)
    → length room ≡ length p
    → copy_from_frame
        (length p)
        (length done)
        (a ∷ b ∷ (done ++ (p ++ rest)))
        (done ++ (room ++ after))
      ≡ ok (done ++ (p ++ after))
unfolding copy_from_frame
copy_from_frame-append [] done rest [] after a b h = refl
copy_from_frame-append [] done rest (t ∷ room) after a b h = absurd (omega arith)
copy_from_frame-append (x ∷ p) done rest [] after a b h = absurd (omega arith)
copy_from_frame-append (x ∷ p) done rest (t ∷ room) after a b h =
    rw
      (
        two-add (length done),
        load-append,
        store-append,
        next_index done x,
        ← append_assoc done (x ∷ []) (p ++ rest),
        ← append_assoc done (x ∷ []) (room ++ after),
        ← append_assoc done (x ∷ []) (p ++ after),
      )
      (copy_from_frame-append p (done ++ (x ∷ [])) rest room after a b (omega arith))

-- An array of zeros in two parts.
pub replicate-add : (n m x : ℕ) → replicate (n + m) x ≡ replicate n x ++ replicate m x
replicate-add zero m x = rw zero-add
replicate-add (suc n) m x = rw (suc-add n m) (ap (λ l. x ∷ l) (replicate-add n m x))
