-- ===== src/Host/Cobs/Decode.antt =====
-- About decode_cobs of modules/autonomy_pi/ros/autonomy_teensy/src/cobs.cpp.
use native.Mathlib.Nat.{le_trans}
use native.Mathlib.Decide.{ℕ_discrete}
use native.Mathlib.Numerals.{sub-one}
use rdml_blue_rov2_deploymen.Common.{ℕ, zero, suc, ◌-◌, ◌<◌, ◌≤◌, ◌≡◌, refl, sym, subst, ap, ◌∙◌}
use rdml_blue_rov2_deploymen.Common.{List, [], ◌∷◌, ◌++◌, append-nil, append_assoc, arith}
use rdml_blue_rov2_deploymen.Common.{◌⊎◌, inl, inr, ◌↔◌}
use rdml_blue_rov2_deploymen.Common.{length, length-append, All, All-append_right, IsByte, is_empty}
use rdml_blue_rov2_deploymen.Common.{Bool, true, false, not, ◌&&◌, Bool-cases, ◌==◌, if◌then◌else◌}
use rdml_blue_rov2_deploymen.Common.{ok, err, ok_injective, ok-ne-err}
use rdml_blue_rov2_deploymen.Wire.Cobs.{Stuffed, none, last, zeroed, full}
use rdml_blue_rov2_deploymen.Host.Error.{InvalidArgument, zero_in_frame, code_past_end}
use rdml_blue_rov2_deploymen.Host.Cobs.{copy_block, decode_loop, decode_cobs}

-- The inner loop splits off as many bytes as it has rounds.
pub copy_block-append :
    (p rest decoded : List ℕ) → copy_block (length p) (p ++ rest) decoded ≡ ok (rest, decoded ++ p)
unfolding copy_block
copy_block-append [] rest decoded = rw append-nil
copy_block-append (b ∷ p) rest decoded =
    copy_block-append p rest (decoded ++ (b ∷ [])) ∙ rw append_assoc

-- It does that, or fails for want of bytes.
pub copy_block_cases :
    (n : ℕ) (bytes decoded : List ℕ)
    → ((p : List ℕ) × (rest : List ℕ) × (bytes ≡ p ++ rest)
        × (length p ≡ n)
        × (copy_block n bytes decoded ≡ ok (rest, decoded ++ p)))
      ⊎ ((x : InvalidArgument) × (copy_block n bytes decoded ≡ err x))
unfolding copy_block
copy_block_cases zero bytes decoded = inl ([], bytes, refl, refl, rw append-nil)
copy_block_cases (suc n) [] decoded = inr (code_past_end, refl)
copy_block_cases (suc n) (b ∷ bytes) decoded =
    elim (copy_block_cases n bytes (decoded ++ (b ∷ []))) [
      | inl (p, rest, e, h, c) ↦ inl (b ∷ p, rest, ap (λ l. b ∷ l) e, ap suc h, c ∙ rw append_assoc)
      | inr (x, c) ↦ inr (x, c)
    ]

-- One round, on a block whose bytes are there.
module _ (fuel : ℕ) (p decoded : List ℕ) where
  round_last :
      length p < 254 → decode_loop (suc fuel) (suc (length p) ∷ p) decoded ≡ ok (decoded ++ p)
  unfolding decode_loop
  round_last h = rw sub-one (ground (arith, copy))
    where
      copy : copy_block (length p) p decoded ≡ ok ([], decoded ++ p)
      copy = rw append-nil at (copy_block-append p [] decoded)

  round_zeroed :
      (b : ℕ) (e : List ℕ)
      → length p < 254
      → decode_loop (suc fuel) (suc (length p) ∷ (p ++ (b ∷ e))) decoded
        ≡ decode_loop fuel (b ∷ e) ((decoded ++ p) ++ (0 ∷ []))
  unfolding decode_loop
  round_zeroed b e h = rw sub-one (ground (arith, copy_block-append p (b ∷ e) decoded))

  round_full :
      (e : List ℕ)
      → length p ≡ 254
      → decode_loop (suc fuel) (255 ∷ (p ++ e)) decoded ≡ decode_loop fuel e (decoded ++ p)
  unfolding decode_loop
  round_full e h = rw (← h, copy_block-append p e decoded)

-- A frame is decoded, with any fuel from its length up.
decode_loop-ok :
    {e d : List ℕ} (fuel : ℕ) (decoded : List ℕ)
    → length e ≤ fuel
    → Stuffed e d
    → decode_loop fuel e decoded ≡ ok (decoded ++ d)
decode_loop-ok fuel decoded h none = unfold decode_loop in rw append-nil
decode_loop-ok zero decoded h (last p hp) = absurd (omega arith)
decode_loop-ok (suc fuel) decoded h (last p hp) = round_last fuel p decoded hp
decode_loop-ok zero decoded h (zeroed p e hp ne s) = absurd (omega arith)
decode_loop-ok (suc fuel) decoded h (zeroed p [] hp ne s) = absurd (ne refl)
decode_loop-ok (suc fuel) decoded h (zeroed p (b ∷ e) {d} hp ne s) =
    round_zeroed fuel p decoded b e hp
    ∙ decode_loop-ok fuel _ (omega (arith, length-append p (b ∷ e))) s
    ∙ rw (append_assoc (decoded ++ p) (0 ∷ []) d, append_assoc)
decode_loop-ok zero decoded h (full p e hp s) = absurd (omega arith)
decode_loop-ok (suc fuel) decoded h (full p e {d} hp s) =
    round_full fuel p decoded e hp
    ∙ decode_loop-ok fuel _ (omega (arith, length-append p e)) s
    ∙ rw append_assoc

-- What is decoded is a frame, or an exception is thrown.
abbrev pub Decodes : ℕ → List ℕ → List ℕ → Type 0
Decodes fuel e decoded =
    ((d : List ℕ) × Stuffed e d × (decode_loop fuel e decoded ≡ ok (decoded ++ d)))
    ⊎ ((x : InvalidArgument) × (decode_loop fuel e decoded ≡ err x))

-- One block, given the claim about what is behind it.
block-Decodes :
    (fuel : ℕ) (p rest decoded : List ℕ)
    → length p < 255
    → ((decoded' : List ℕ) → Decodes fuel rest decoded')
    → Decodes (suc fuel) (suc (length p) ∷ (p ++ rest)) decoded
block-Decodes fuel p rest decoded h behind = elim (ℕ_discrete (length p) 254) [
  | yes hp ↦ rw hp (elim (behind (decoded ++ p)) [
    | inl (d, s, e) ↦
        inl (p ++ d, full p rest hp s, round_full fuel p decoded rest hp ∙ e ∙ rw append_assoc)
    | inr (x, e) ↦ inr (x, round_full fuel p decoded rest hp ∙ e)
  ])
  | no hp ↦ short rest behind (omega arith)
]
  where
    short :
        (rest : List ℕ)
        → ((decoded' : List ℕ) → Decodes fuel rest decoded')
        → length p < 254
        → Decodes (suc fuel) (suc (length p) ∷ (p ++ rest)) decoded
    short [] behind hp = rw append-nil (inl (p, last p hp, round_last fuel p decoded hp))
    short (b ∷ e) behind hp = elim (behind ((decoded ++ p) ++ (0 ∷ []))) [
      | inl (d, s, eq) ↦ inl (
        p ++ (0 ∷ d),
        zeroed p (b ∷ e) hp (λ q. cc) s,
        round_zeroed fuel p decoded b e hp
            ∙ eq
            ∙ rw (append_assoc (decoded ++ p) (0 ∷ []) d, append_assoc),
      )
      | inr (x, eq) ↦ inr (x, round_zeroed fuel p decoded b e hp ∙ eq)
    ]

pub decode_loop-Decodes :
    (fuel : ℕ) (e decoded : List ℕ) → length e ≤ fuel → All IsByte e → Decodes fuel e decoded
decode_loop-Decodes fuel [] decoded h bytes = inl ([], none, unfold decode_loop in rw append-nil)
decode_loop-Decodes zero (code ∷ rest) decoded h bytes = absurd (omega arith)
decode_loop-Decodes (suc fuel) (zero ∷ rest) decoded h bytes =
    inr (zero_in_frame, unfold decode_loop in refl)
decode_loop-Decodes (suc fuel) (suc n ∷ rest) decoded h bytes =
    elim (copy_block_cases n rest decoded) [
      | inr (x, e) ↦ inr (x, unfold decode_loop in rw sub-one (ground (arith, e)))
      | inl (p, rest', e, hp, _) ↦
          rw (e, ← hp)
            (block-Decodes fuel p rest' decoded (omega arith) λ decoded'.
              decode_loop-Decodes fuel rest' decoded'
                (omega (arith, length-append p rest', ap length e))
                (All-append_right IsByte p rest' (subst (All IsByte) e bytes.1)))
    ]

-- On a list of bytes `decode_cobs` returns `d` exactly when the list is a frame of `d`, in the sense
-- of `Stuffed`.
pub decode_cobs_iff : (e d : List ℕ) → All IsByte e → (decode_cobs e ≡ ok d) ↔ Stuffed e d
unfolding decode_cobs
decode_cobs_iff e d bytes = (
  λ h. elim (decode_loop-Decodes (length e) e [] (omega arith) bytes) [
    | inl (d', s, h') ↦ rw (ok_injective (sym h ∙ h')) s
    | inr (x, h') ↦ absurd (ok-ne-err (sym h ∙ h'))
  ],
  decode_loop-ok (length e) [] (omega arith),
)

grown : (z : Bool) (d p : List ℕ) → length d ≤ length (if z then (d ++ p) ++ (0 ∷ []) else d ++ p)
grown true d p = rw (length-append, length-append) (omega arith)
grown false d p = rw length-append (omega arith)

-- On any list the loop ends with its result or an exception, and takes nothing back that was decoded.
pub decode_loop_total :
    (fuel : ℕ) (e decoded : List ℕ)
    → length e ≤ fuel
    → ((d : List ℕ) × (decode_loop fuel e decoded ≡ ok d) × (length decoded ≤ length d))
      ⊎ ((x : InvalidArgument) × (decode_loop fuel e decoded ≡ err x))
unfolding decode_loop
decode_loop_total fuel [] decoded h = inl (decoded, refl, omega arith)
decode_loop_total zero (code ∷ rest) decoded h = absurd (omega arith)
decode_loop_total (suc fuel) (code ∷ rest) decoded h = elim (Bool-cases (code == 0)) [
  | inl z ↦ inr (zero_in_frame, rw z)
  | inr z ↦ elim (copy_block_cases (code - 1) rest decoded) [
    | inr (x, c) ↦ inr (x, rw (z, c))
    | inl (p, rest', e, hp, c) ↦
        rw (z, c)
          (elim (decode_loop_total fuel rest'
            (if not (code == 0xff) && not (is_empty rest')
              then (decoded ++ p) ++ (0 ∷ [])
              else decoded ++ p)
            (omega (arith, ap length e, length-append p rest'))) [
              | inl (d, r, g) ↦
                  inl (
                    d,
                    r,
                    le_trans (grown (not (code == 0xff) && not (is_empty rest')) decoded p) g,
                  )
              | inr (x, r) ↦ inr (x, r)
            ])
  ]
]
