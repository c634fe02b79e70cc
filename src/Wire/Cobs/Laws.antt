-- ===== src/Wire/Cobs/Laws.antt =====
-- About the stuffing of a list: the relation of frames, the bytes of a frame and its length.
use rdml_blue_rov2_deploymen.Common.{ℕ, suc, ◌+◌, ◌/◌, ◌<◌, ◌≤◌, ◌≡◌, ◌≢◌, refl}
use rdml_blue_rov2_deploymen.Common.{List, [], ◌∷◌, ◌++◌, append-nil, append_assoc, arith}
use rdml_blue_rov2_deploymen.Common.{length, length-append, All, All-append, IsByte, inl, inr}
use rdml_blue_rov2_deploymen.Common.{Bool-cases, ◌==◌, ==_iff, ==_false→ne}
use rdml_blue_rov2_deploymen.Wire.Cobs.{Stuffed, last, zeroed, full, stuff}

-- The four ways that `stuff` goes on.
module _ (p : List ℕ) where
  pub stuff-nil : stuff p [] ≡ suc (length p) ∷ p
  unfolding stuff
  stuff-nil = refl

  pub stuff-zero : (bytes : List ℕ) → stuff p (0 ∷ bytes) ≡ (suc (length p) ∷ p) ++ stuff [] bytes
  unfolding stuff
  stuff-zero bytes = refl

  module _ (b : ℕ) (bytes : List ℕ) (h : b ≢ 0) where
    pub stuff_full :
        length p ≡ 253 → stuff p (b ∷ bytes) ≡ (255 ∷ (p ++ (b ∷ []))) ++ stuff [] bytes
    unfolding stuff
    stuff_full hp = ground arith

    pub stuff_more : length p ≢ 253 → stuff p (b ∷ bytes) ≡ stuff (p ++ (b ∷ [])) bytes
    unfolding stuff
    stuff_more hp = ground arith

-- A split on the byte at hand and on the length of the block.
pub stuff_cases {ℓ} :
    (P : List ℕ → Type ℓ) (p : List ℕ) (b : ℕ) (bytes : List ℕ)
    → (b ≡ 0 → P ((suc (length p) ∷ p) ++ stuff [] bytes))
    → (b ≢ 0 → length p ≡ 253 → P ((255 ∷ (p ++ (b ∷ []))) ++ stuff [] bytes))
    → (b ≢ 0 → length p ≢ 253 → P (stuff (p ++ (b ∷ [])) bytes))
    → P (stuff p (b ∷ bytes))
unfolding stuff
stuff_cases P p b bytes zero_case full_case more_case = elim (Bool-cases (b == 0)) [
  | inl e ↦ rw e (zero_case ((==_iff b 0).0 e))
  | inr e ↦ elim (Bool-cases (length p == 253)) [
    | inl e' ↦ rw (e, e') (full_case (==_false→ne b 0 e) ((==_iff _ 253).0 e'))
    | inr e' ↦ rw (e, e') (more_case (==_false→ne b 0 e) (==_false→ne _ 253 e'))
  ]
]

pub stuff-ne-nil : (p bytes : List ℕ) → stuff p bytes ≢ []
stuff-ne-nil p [] = rw stuff-nil (λ e. cc)
stuff-ne-nil p (b ∷ bytes) =
    stuff_cases (λ l. l ≢ []) p b bytes (λ _ e. cc) (λ _ _ e. cc)
      (λ _ _. stuff-ne-nil (p ++ (b ∷ [])) bytes)

-- `stuff` produces a frame of its bytes.
pub stuff-Stuffed : (p bytes : List ℕ) → length p < 254 → Stuffed (stuff p bytes) (p ++ bytes)
stuff-Stuffed p [] h = rw (stuff-nil, append-nil) (last p h)
stuff-Stuffed p (b ∷ bytes) h =
    stuff_cases (λ l. Stuffed l (p ++ (b ∷ bytes))) p b bytes
      (λ e. rw e (zeroed p _ h (stuff-ne-nil [] bytes) (stuff-Stuffed [] bytes (omega arith))))
      (λ _ hp. rw (← append_assoc p (b ∷ []) bytes) (
        full (p ++ (b ∷ [])) _ (rw length-append (omega (arith, hp)))
          (stuff-Stuffed [] bytes (omega arith))))
      (λ _ hp.
        rw (← append_assoc p (b ∷ []) bytes)
          (stuff-Stuffed (p ++ (b ∷ [])) bytes (rw length-append (omega (arith, hp)))))

abbrev pub IsNonzero : ℕ → Type 0
IsNonzero b = b ≢ 0

-- No byte of a frame that `stuff` produces is the delimiter.
pub stuff-IsNonzero : (p bytes : List ℕ) → All IsNonzero p → All IsNonzero (stuff p bytes)
stuff-IsNonzero p [] h = rw stuff-nil (omega arith, h)
stuff-IsNonzero p (b ∷ bytes) h =
    stuff_cases (All IsNonzero) p b bytes
      (λ e.
        All-append IsNonzero (suc (length p) ∷ p) _ (omega arith, h) (stuff-IsNonzero [] bytes tt))
      (λ ne _.
        All-append IsNonzero (255 ∷ (p ++ (b ∷ []))) _
          (omega arith, All-append IsNonzero p (b ∷ []) h (ne, tt)) (stuff-IsNonzero [] bytes tt))
      (λ ne _. stuff-IsNonzero (p ++ (b ∷ [])) bytes (All-append IsNonzero p (b ∷ []) h (ne, tt)))

-- A frame of bytes holds bytes.
pub stuff-IsByte :
    (p bytes : List ℕ)
    → length p < 254
    → All IsByte p
    → All IsByte bytes
    → All IsByte (stuff p bytes)
stuff-IsByte p [] h hp hb = rw stuff-nil (omega arith, hp)
stuff-IsByte p (b ∷ bytes) h hp hb =
    stuff_cases (All IsByte) p b bytes
      (λ e.
        All-append IsByte (suc (length p) ∷ p) _ (omega arith, hp)
          (stuff-IsByte [] bytes (omega arith) tt hb.1))
      (λ ne e.
        All-append IsByte (255 ∷ (p ++ (b ∷ []))) _
          (omega arith, All-append IsByte p (b ∷ []) hp (hb.0, tt))
          (stuff-IsByte [] bytes (omega arith) tt hb.1))
      (λ ne e.
        stuff-IsByte (p ++ (b ∷ [])) bytes (rw length-append (omega (arith, e)))
          (All-append IsByte p (b ∷ []) hp (hb.0, tt)) hb.1)

-- The frame of `p ++ bytes` has a code byte for every started run of 254 bytes at most.
pub length-stuff :
    (p bytes : List ℕ)
    → length p < 254
    → length (stuff p bytes) ≤ length p + length bytes + (length p + length bytes) / 254 + 1
length-stuff p [] h = rw stuff-nil (omega arith)
length-stuff p (b ∷ bytes) h =
    stuff_cases
      (λ l. length l ≤ length p + length (b ∷ bytes) + (length p + length (b ∷ bytes)) / 254 + 1) p
      b bytes (λ e. rw length-append (omega (arith, length-stuff [] bytes (omega arith))))
      (λ _ e. simp length-append (omega (arith, e, length-stuff [] bytes (omega arith))))
      (λ _ e.
        let ih = length-stuff (p ++ (b ∷ [])) bytes (rw length-append (omega (arith, e))) in
        omega (arith, ih, length-append p (b ∷ [])))

-- It is longer than its first block.
pub lt-length-stuff : (p bytes : List ℕ) → length p < length (stuff p bytes)
lt-length-stuff p [] = rw stuff-nil (omega arith)
lt-length-stuff p (b ∷ bytes) =
    stuff_cases (λ l. length p < length l) p b bytes (λ _. rw length-append (omega arith))
      (λ _ _. simp length-append (omega arith))
      (λ _ _.
        let ih = lt-length-stuff (p ++ (b ∷ [])) bytes in
        omega (arith, ih, length-append p (b ∷ [])))

pub lt-length-stuff_cons :
    (p : List ℕ) (b : ℕ) (bytes : List ℕ) → length p + 1 < length (stuff p (b ∷ bytes))
lt-length-stuff_cons p b bytes =
    stuff_cases (λ l. length p + 1 < length l) p b bytes
      (λ _. rw length-append (omega (arith, lt-length-stuff [] bytes)))
      (λ _ _. simp length-append (omega arith))
      (λ _ _.
        let ih = lt-length-stuff (p ++ (b ∷ [])) bytes in
        omega (arith, ih, length-append p (b ∷ [])))
