-- ===== src/Wire/Cobs.antt =====
-- Consistent overhead byte stuffing, described apart from the code: a relation between a frame
-- and the bytes that it stands for, and the stuffing of a list of bytes block by block.
pub mod Laws
use rdml_blue_rov2_deploymen.Common.{ℕ, zero, suc, ◌+◌, ◌<◌, ◌≡◌, ◌≢◌}
use rdml_blue_rov2_deploymen.Common.{List, [], ◌∷◌, ◌++◌, length, ◌==◌, if◌then◌else◌}

-- A frame is a row of blocks, each led by its length; a block of fewer than 254 bytes that is not the
-- last stands for its bytes and a zero, a block of 254 bytes for its bytes alone.
pub data Stuffed : List ℕ → List ℕ → Type 0 where
  none : Stuffed [] []
  last : (p : List ℕ) → length p < 254 → Stuffed (suc (length p) ∷ p) p
  zeroed :
      (p e : List ℕ) {d : List ℕ}
      → length p < 254
      → e ≢ []
      → Stuffed e d
      → Stuffed (suc (length p) ∷ (p ++ e)) (p ++ (0 ∷ d))
  full :
      (p e : List ℕ) {d : List ℕ} → length p ≡ 254 → Stuffed e d → Stuffed (255 ∷ (p ++ e)) (p ++ d)

-- The frame of `p ++ bytes`, where `p` is the block at hand.
unfoldable pub stuff : List ℕ → List ℕ → List ℕ
stuff p [] = suc (length p) ∷ p
stuff p (b ∷ bytes) =
    let zeroed = (suc (length p) ∷ p) ++ stuff [] bytes in
    let full = (255 ∷ (p ++ (b ∷ []))) ++ stuff [] bytes in
    let more = stuff (p ++ (b ∷ [])) bytes in
    if b == 0 then zeroed else if length p == 253 then full else more
