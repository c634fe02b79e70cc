-- ===== src/Firmware/Cobs/Decode.antt =====
-- About decode_cobs of modules/teensy/lib/packet/cobs.cpp, beside decode_cobs of the driver.
use native.Mathlib.Nat.{lt_of_lt_of_le}
use native.Mathlib.Decide.{dec_lt}
use rdml_blue_rov2_deploymen.Common.{ℕ, zero, suc, ◌+◌, ◌-◌, ◌<◌, ◌≤◌, ◌≡◌, refl, ap}
use rdml_blue_rov2_deploymen.Common.{List, [], ◌∷◌, ◌++◌, append_assoc, arith}
use rdml_blue_rov2_deploymen.Common.{length, length-append, inl, inr, is_empty}
use rdml_blue_rov2_deploymen.Common.{Bool, true, false, not, ◌&&◌, Bool-cases, ◌==◌, if◌then◌else◌}
use rdml_blue_rov2_deploymen.Common.{Result, ok, err, store-append}
use rdml_blue_rov2_deploymen.Host.Error.{InvalidArgument, zero_in_frame, code_past_end}
use rdml_blue_rov2_deploymen.Host.Cobs
use rdml_blue_rov2_deploymen.Host.Cobs.Decode
use rdml_blue_rov2_deploymen.Firmware.Cobs.{
  Failure, minus_one, put, copy_block, decode_loop, decode_cobs,
}

-- `put` behind the bytes of `d`: it writes if `out_size` and the array leave room.
put-ok :
    (out_size : ℕ) (d : List ℕ) (t : ℕ) (unused : List ℕ) (b : ℕ)
    → length d < out_size
    → put out_size (d ++ (t ∷ unused)) (length d) b
      ≡ ok ((d ++ (b ∷ [])) ++ unused, length (d ++ (b ∷ [])))
unfolding put
put-ok out_size d t unused b h =
    rw store-append (ground (arith, append_assoc d (b ∷ []) unused, length-append d (b ∷ [])))

put-err :
    (out_size : ℕ) (d unused : List ℕ) (b : ℕ)
    → out_size ≤ length d
    → put out_size (d ++ unused) (length d) b ≡ err minus_one
unfolding put
put-err out_size d unused b h = ground arith

-- The firmware's array holds what the driver has decoded, or the firmware has failed because the
-- driver did, or because the array is too small.
data SameCopy (out_size total left : ℕ) (h : Result InvalidArgument (List ℕ × List ℕ))
    (f : Result Failure (List ℕ × List ℕ × ℕ)) : Type 0 where
  fits :
      (rest d unused : List ℕ)
      → h ≡ ok (rest, d)
      → f ≡ ok (rest, d ++ unused, length d)
      → length rest ≤ left
      → length d ≤ out_size
      → length d + length unused ≡ total
      → SameCopy out_size total left h f
  long :
      (rest d : List ℕ)
      → h ≡ ok (rest, d)
      → f ≡ err minus_one
      → length rest ≤ left
      → out_size < length d
      → SameCopy out_size total left h f
  bad : (x : InvalidArgument) → h ≡ err x → f ≡ err minus_one → SameCopy out_size total left h f

-- The firmware has stopped at a full array; the driver goes on.
copy_full :
    (out_size n total left : ℕ) (bytes d : List ℕ)
    → length bytes ≤ left
    → out_size < length d
    → SameCopy out_size total left (Cobs.copy_block n bytes d) (err minus_one)
copy_full out_size n total left bytes d short h = elim (Decode.copy_block_cases n bytes d) [
  | inl (p, rest, e, hp, c) ↦
      long rest (d ++ p) c refl (omega (arith, ap length e, length-append p rest))
        (omega (arith, length-append d p))
  | inr (x, c) ↦ bad x c refl
]

copy_block-SameCopy :
    (out_size n total left : ℕ) (bytes d unused : List ℕ)
    → length d + length unused ≡ total
    → length bytes ≤ left
    → length d ≤ out_size
    → out_size ≤ total
    → SameCopy out_size total left
        (Cobs.copy_block n bytes d)
        (copy_block out_size n bytes (d ++ unused) (length d))
unfolding copy_block Cobs.copy_block
copy_block-SameCopy out_size zero total left bytes d unused e short h room =
    fits bytes d unused refl refl short h e
copy_block-SameCopy out_size (suc n) total left [] d unused e short h room =
    bad code_past_end refl refl
copy_block-SameCopy out_size (suc n) total left (b ∷ bytes) d [] e short h room =
    rw (put-err out_size d [] b (omega arith)) (
      copy_full out_size n total left bytes (d ++ (b ∷ [])) (omega arith)
        (omega (arith, length-append d (b ∷ []))))
copy_block-SameCopy out_size (suc n) total left (b ∷ bytes) d (t ∷ unused) e short h room =
    elim (dec_lt (length d) out_size) [
      | yes more ↦ rw (put-ok out_size d t unused b more) (
          copy_block-SameCopy out_size n total left bytes (d ++ (b ∷ [])) unused
            (omega (arith, length-append d (b ∷ []))) (omega arith)
            (omega (arith, length-append d (b ∷ []))) room)
      | no full ↦ rw (put-err out_size d (t ∷ unused) b (omega arith)) (
          copy_full out_size n total left bytes (d ++ (b ∷ [])) (omega arith)
            (omega (arith, length-append d (b ∷ []))))
    ]

-- The same of the whole loop. Neither a fault nor a lack of fuel is among the cases.
pub data SameDecode (out_size total : ℕ) (h : Result InvalidArgument (List ℕ))
    (f : Result Failure (List ℕ × ℕ)) : Type 0 where
  fits :
      (d unused : List ℕ)
      → h ≡ ok d
      → f ≡ ok (d ++ unused, length d)
      → length d ≤ out_size
      → length d + length unused ≡ total
      → SameDecode out_size total h f
  long :
      (d : List ℕ)
      → h ≡ ok d
      → f ≡ err minus_one
      → out_size < length d
      → SameDecode out_size total h f
  bad : (x : InvalidArgument) → h ≡ err x → f ≡ err minus_one → SameDecode out_size total h f

loop_full :
    (out_size total fuel : ℕ) (bytes d : List ℕ)
    → length bytes ≤ fuel
    → out_size < length d
    → SameDecode out_size total (Cobs.decode_loop fuel bytes d) (err minus_one)
loop_full out_size total fuel bytes d short h = elim (Decode.decode_loop_total fuel bytes d short) [
  | inl (d', r, g) ↦ long d' r refl (omega arith)
  | inr (x, r) ↦ bad x r refl
]

-- The zero behind a block, where the code asks for one.
abbrev with_zero : Bool → List ℕ → List ℕ
with_zero z d = if z then d ++ (0 ∷ []) else d

length-with_zero : (z : Bool) (d : List ℕ) → length d ≤ length (with_zero z d)
length-with_zero true d = rw length-append (omega arith)
length-with_zero false d = omega arith

data Separates (out_size total : ℕ) (d : List ℕ) (f : Result Failure (List ℕ × ℕ)) : Type 0 where
  fits :
      (unused : List ℕ)
      → f ≡ ok (d ++ unused, length d)
      → length d ≤ out_size
      → length d + length unused ≡ total
      → Separates out_size total d f
  long : f ≡ err minus_one → out_size < length d → Separates out_size total d f

put-Separates :
    (z : Bool) (out_size total : ℕ) (d unused : List ℕ)
    → length d + length unused ≡ total
    → length d ≤ out_size
    → out_size ≤ total
    → Separates out_size total
        (with_zero z d)
        (if z then put out_size (d ++ unused) (length d) 0 else ok (d ++ unused, length d))
put-Separates false out_size total d unused e h room = fits unused refl h e
put-Separates true out_size total d [] e h room =
    long (put-err out_size d [] 0 (omega arith)) (omega (arith, length-append d (0 ∷ [])))
put-Separates true out_size total d (t ∷ unused) e h room = elim (dec_lt (length d) out_size) [
  | yes more ↦
      fits unused (put-ok out_size d t unused 0 more) (omega (arith, length-append d (0 ∷ [])))
        (omega (arith, length-append d (0 ∷ [])))
  | no full ↦
      long (put-err out_size d (t ∷ unused) 0 (omega arith))
        (omega (arith, length-append d (0 ∷ [])))
]

decode_loop-SameDecode :
    (out_size total fuel : ℕ) (bytes d unused : List ℕ)
    → length d + length unused ≡ total
    → length bytes ≤ fuel
    → length d ≤ out_size
    → out_size ≤ total
    → SameDecode out_size total
        (Cobs.decode_loop fuel bytes d)
        (decode_loop fuel out_size bytes (d ++ unused) (length d))
unfolding decode_loop Cobs.decode_loop
decode_loop-SameDecode out_size total fuel [] d unused e short h room = fits d unused refl refl h e
decode_loop-SameDecode out_size total zero (code ∷ rest) d unused e short h room =
    absurd (omega arith)
decode_loop-SameDecode out_size total (suc fuel) (code ∷ rest) d unused e short h room =
    elim (Bool-cases (code == 0)) [
      | inl z ↦ rw z (bad zero_in_frame refl refl)
      | inr z ↦
          elim (copy_block-SameCopy out_size (code - 1) total fuel rest d unused e (omega arith) h
            room) [
              | bad x c f ↦ rw (z, c, f) (bad x refl refl)
              | long rest' d' c f short' g ↦
                  rw (z, c, f)
                    (loop_full out_size total fuel rest' _ short' (
                      lt_of_lt_of_le g
                        (length-with_zero (not (code == 0xff) && not (is_empty rest')) d')))
              | fits rest' d' unused' c f short' g e' ↦
                  rw (z, c, f)
                    (elim (put-Separates (not (code == 0xff) && not (is_empty rest')) out_size total
                      d' unused' e' g room) [
                        | fits unused'' f' g' e'' ↦ rw f' (
                            decode_loop-SameDecode out_size total fuel rest'
                              (with_zero (not (code == 0xff) && not (is_empty rest')) d') unused''
                              e'' short' g' room)
                        | long f' g' ↦ rw f' (
                            loop_full out_size total fuel rest'
                              (with_zero (not (code == 0xff) && not (is_empty rest')) d') short' g')
                      ])
            ]
    ]

-- On every list and every array of at least `out_size` bytes `decode_cobs` does one of three things:
-- it leaves at the front of the array what the driver's `decode_cobs` returns, and returns its length;
-- or it returns -1, because that is longer than `out_size`; or it returns -1, because the driver throws.
pub decode_cobs-SameDecode :
    (bytes out : List ℕ) (out_size : ℕ)
    → out_size ≤ length out
    → SameDecode out_size (length out) (Cobs.decode_cobs bytes) (decode_cobs bytes out out_size)
unfolding decode_cobs Cobs.decode_cobs
decode_cobs-SameDecode bytes out out_size room =
    decode_loop-SameDecode out_size (length out) (length bytes) bytes [] out (omega arith)
      (omega arith) (omega arith) room
