-- ===== src/Firmware/SerialBuffer/Holds.antt =====
-- What a serial buffer stands for: the bytes since the last delimiter, or the fact that they are too many.
use mathlib.Core.Bool.{false≢true}
use rdml_blue_rov2_deploymen.Common.{
  ℕ, ◌+◌, ◌<◌, ◌≡◌, ◌≢◌, refl, sym, ap, ◌∙◌, arith, Bool, true, false, not, ◌&&◌,
}
use rdml_blue_rov2_deploymen.Common.{
  List, [], ◌∷◌, ◌++◌, append_assoc, length, length-append, length-replicate, take-append,
  replicate, is_empty,
}
use rdml_blue_rov2_deploymen.Common.{ltb, leb, ne→==_false, ok, store-append}
use rdml_blue_rov2_deploymen.Firmware.Packet.{max_encoded_size}
use rdml_blue_rov2_deploymen.Firmware.SerialBuffer.{
  SerialBuffer, empty_buffer, reset, push, contents,
}

abbrev pub filled : List ℕ → List ℕ → SerialBuffer
filled q unused = record { buffer = q ++ unused; len = length q; overflowed = false }

contents-filled : (q unused : List ℕ) → contents (filled q unused) ≡ q
unfolding contents
contents-filled q unused = take-append q unused

pub data Holds (b : SerialBuffer) (q : List ℕ) : Type 0 where
  within :
      (unused : List ℕ)
      → b ≡ filled q unused
      → length q + length unused ≡ max_encoded_size
      → Holds b q
  overflow :
      (array : List ℕ)
      → b ≡ record { buffer = array; len = max_encoded_size; overflowed = true }
      → length array ≡ max_encoded_size
      → max_encoded_size < length q
      → Holds b q

pub empty_buffer-Holds : Holds empty_buffer []
empty_buffer-Holds =
    within (replicate max_encoded_size 0) refl (length-replicate {A = ℕ} max_encoded_size 0)

pub reset-Holds : {b : SerialBuffer} (q : List ℕ) → Holds b q → Holds (reset b) []
unfolding reset
reset-Holds q (within unused e h) =
    within (q ++ unused) (ap reset e) (omega (arith, length-append q unused))
reset-Holds q (overflow array e h gt) = within array (ap reset e) (omega arith)

-- On a buffer that holds the bytes `q` a byte that is no delimiter completes no frame, and the buffer then
-- holds `q` and that byte; bytes beyond the size of the array count as an overflow.
pub push-byte :
    {b : SerialBuffer} (q : List ℕ) (byte : ℕ)
    → byte ≢ 0
    → Holds b q
    → (b' : SerialBuffer) × (push b byte ≡ ok (false, b')) × Holds b' (q ++ (byte ∷ []))
unfolding push
push-byte q byte ne (within (t ∷ unused) e h) = (
  filled (q ++ (byte ∷ [])) unused,
  rw (e, ne→==_false byte 0 ne, room, store-append)
      (ground (arith, append_assoc q (byte ∷ []) unused, length-append q (byte ∷ []))),
  within unused refl (omega (arith, length-append q (byte ∷ []))),
)
  where
    room : leb max_encoded_size (length q) ≡ false
    room = ground arith
push-byte q byte ne (within [] e h) = (
  record { buffer = q ++ []; len = max_encoded_size; overflowed = true },
  rw (e, ne→==_false byte 0 ne, full) refl,
  overflow (q ++ []) refl (omega (arith, length-append q []))
      (omega (arith, length-append q (byte ∷ []))),
)
  where
    full : length q ≡ max_encoded_size
    full = omega arith
push-byte q byte ne (overflow array e h gt) = (
  record { buffer = array; len = max_encoded_size; overflowed = true },
  rw (e, ne→==_false byte 0 ne) refl,
  overflow array refl h (omega (arith, length-append q (byte ∷ []))),
)

-- The bytes before a delimiter are a frame if there are any and the array has held them.
abbrev pub complete : List ℕ → Bool
complete q = not (is_empty q) && leb (length q) max_encoded_size

-- On a buffer that holds the bytes `q` a delimiter completes a frame exactly when there are between one
-- byte and as many as the array has; then `data()` and `size()` give `q`, and if not, the buffer is empty.
pub push-delimiter :
    {b : SerialBuffer} (q : List ℕ)
    → Holds b q
    → (b' : SerialBuffer) × (push b 0 ≡ ok (complete q, b'))
      × (complete q ≡ true → (contents b' ≡ q) × Holds b' q)
      × (complete q ≡ false → Holds b' [])
unfolding push
push-delimiter [] (within unused e h) =
    (filled [] unused, rw e refl, (λ c. cc), λ c. within unused refl h)
push-delimiter (x ∷ q) (within unused e h) = (
  filled (x ∷ q) unused,
  rw (e, fits, pos) refl,
  (λ c. (contents-filled (x ∷ q) unused, within unused refl h)),
  (λ c. absurd (false≢true (sym c ∙ fits))),
)
  where
    fits : leb (length (x ∷ q)) max_encoded_size ≡ true
    fits = ground arith

    pos : ltb 0 (length (x ∷ q)) ≡ true
    pos = ground arith
push-delimiter [] (overflow array e h gt) = absurd (omega arith)
push-delimiter (x ∷ q) (overflow array e h gt) = (
  record { buffer = array; len = 0; overflowed = false },
  rw (e, long) refl,
  (λ c. absurd (false≢true (sym long ∙ c))),
  λ c. within array refl (omega arith),
)
  where
    long : leb (length (x ∷ q)) max_encoded_size ≡ false
    long = ground arith
