-- ===== src/Firmware/Crc/Detection.antt =====
-- About errors in a message and the checksum of modules/teensy/lib/packet/crc.cpp.
use rdml_blue_rov2_deploymen.Common.{
  ℕ, zero, suc, ◌+◌, ◌/◌, ◌%◌, ◌<◌, ◌≡◌, ◌≢◌, refl, sym, ap, ◌∙◌, arith,
}
use rdml_blue_rov2_deploymen.Common.{List, [], ◌∷◌, ◌++◌, All, IsByte, bit_xor, bit_xor-IsByte}
use rdml_blue_rov2_deploymen.Common.{
  bit_xor_cancel, bit_xor_self, agree_below, agree_below→eq, bit_xor_comm, ◌==◌, if◌then◌else◌,
}
use rdml_blue_rov2_deploymen.Firmware.Crc.{shift_bits, add_byte, crc_loop, calculate_crc}
use rdml_blue_rov2_deploymen.Firmware.Crc.Laws.{add_byte-IsByte}

crc_loop-append :
    (crc : ℕ) (xs ys : List ℕ) → crc_loop crc (xs ++ ys) ≡ crc_loop (crc_loop crc xs) ys
unfolding crc_loop
crc_loop-append crc [] ys = refl
crc_loop-append crc (x ∷ xs) ys = crc_loop-append (add_byte crc x) xs ys

crc_loop-IsByte :
    (crc : ℕ) (bytes : List ℕ) → IsByte crc → All IsByte bytes → IsByte (crc_loop crc bytes)
unfolding crc_loop
crc_loop-IsByte crc [] h hb = h
crc_loop-IsByte crc (b ∷ bytes) h (hb, hbs) =
    crc_loop-IsByte (add_byte crc b) bytes (add_byte-IsByte crc b h hb) hbs

-- The rounds for one byte run backwards.
unshift_bits : ℕ → ℕ → ℕ
unshift_bits zero c = c
unshift_bits (suc n) c = unshift_bits n (if c % 2 == 1 then bit_xor c 0x07 / 2 + 128 else c / 2)

unshift : (c : ℕ) → c < 256 → unshift_bits 8 (shift_bits 8 c) ≡ c
unfolding unshift_bits shift_bits agree_below
unshift = agree_below→eq _ _ 256 refl

module _ {a b c : ℕ} (hc : IsByte c) (ha : IsByte a) (hb : IsByte b) where
  add_byte-injective : add_byte c a ≡ add_byte c b → a ≡ b
  unfolding add_byte
  add_byte-injective e = sym (bit_xor_cancel c a) ∙ ap (bit_xor c) same ∙ bit_xor_cancel c b
    where
      same : bit_xor c a ≡ bit_xor c b
      same =
          sym (unshift (bit_xor c a) (bit_xor-IsByte c a hc ha))
          ∙ ap (unshift_bits 8) e
          ∙ unshift (bit_xor c b) (bit_xor-IsByte c b hc hb)

add_byte_comm : (a b : ℕ) → add_byte a b ≡ add_byte b a
unfolding add_byte
add_byte_comm a b = ap (shift_bits 8) (bit_xor_comm a b)

crc_loop-injective :
    (bytes : List ℕ) {c d : ℕ}
    → IsByte c
    → IsByte d
    → All IsByte bytes
    → crc_loop c bytes ≡ crc_loop d bytes
    → c ≡ d
unfolding crc_loop
crc_loop-injective [] hc hd h e = e
crc_loop-injective (b ∷ bytes) {c} {d} hc hd (hb, h) e =
    add_byte-injective_left
      (crc_loop-injective bytes (add_byte-IsByte c b hc hb) (add_byte-IsByte d b hd hb) h e)
  where
    add_byte-injective_left : add_byte c b ≡ add_byte d b → c ≡ d
    add_byte-injective_left q =
        add_byte-injective hb hc hd (rw (add_byte_comm b c, add_byte_comm b d) q)

-- Two lists of bytes that differ in exactly one byte have different checksums.
pub calculate_crc-detects :
    (xs : List ℕ) (a b : ℕ) (ys : List ℕ)
    → All IsByte xs
    → IsByte a
    → IsByte b
    → All IsByte ys
    → a ≢ b
    → calculate_crc (xs ++ (a ∷ ys)) ≢ calculate_crc (xs ++ (b ∷ ys))
unfolding calculate_crc
calculate_crc-detects xs a b ys hx ha hb hy ne e = ne (
    add_byte-injective c ha hb (
      crc_loop-injective ys (add_byte-IsByte _ a c ha) (add_byte-IsByte _ b c hb) hy
        (unfold crc_loop in (rw (crc_loop-append, crc_loop-append) at e))))
  where
    c : IsByte (crc_loop 0 xs)
    c = crc_loop-IsByte 0 xs (omega arith) hx

-- A list of bytes followed by its checksum has the checksum zero.
calculate_crc_residue : (bytes : List ℕ) → calculate_crc (bytes ++ (calculate_crc bytes ∷ [])) ≡ 0
unfolding calculate_crc
calculate_crc_residue bytes = rw crc_loop-append (unfold crc_loop add_byte in rw bit_xor_self refl)
