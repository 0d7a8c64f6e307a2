-- ===== src/CString/Dirname.antt =====
-- The length of what dirname(3) returns.
use rs_serve.Base.{
  arith, ℕ, ◌+◌, ◌<◌, ◌≤◌, ◌≡◌, refl, inl, inr, ◌⊎◌, [], ◌∷◌, Bytes, length, reverse, reverse_aux,
}
use rs_serve.CString.{skip_byte, from_byte, dirname_prefix, dirname_above, dirname_last, dirname}

length-reverse_aux : (s r : Bytes) → length (reverse_aux s r) ≡ length s + length r
length-reverse_aux [] r = omega arith
length-reverse_aux (c ∷ s) r = omega (arith, length-reverse_aux s (c ∷ r))

length-reverse : (s : Bytes) → length (reverse s) ≡ length s
length-reverse s = omega (arith, length-reverse_aux s [])

length-skip_byte : (d : ℕ) (s : Bytes) → length (skip_byte d s) ≤ length s
unfolding skip_byte
length-skip_byte d [] = omega arith
length-skip_byte d (c ∷ s) = ground (arith, length-skip_byte d s)

-- From a delimiter on, without the delimiters there, is less than all.
length-skip_byte-from_byte :
    (d : ℕ) (s : Bytes) → (from_byte d s ≡ []) ⊎ (length (skip_byte d (from_byte d s)) < length s)
unfolding skip_byte from_byte
length-skip_byte-from_byte d [] = inl refl
length-skip_byte-from_byte d (c ∷ s) =
    ground (arith, length-skip_byte d s, length-skip_byte-from_byte d s)

-- What dirname may return on a path of length `n`.
abbrev pub IsParent : ℕ → Bytes → Type 0
IsParent n dir = (dir ≡ b'.' ∷ []) ⊎ ((dir ≡ b'/' ∷ []) ⊎ ((0 < length dir) × (length dir < n)))

dirname_prefix-IsParent : (n : ℕ) (s : Bytes) → length s < n → IsParent n (dirname_prefix s)
unfolding dirname_prefix
dirname_prefix-IsParent n [] h = inr (inl refl)
dirname_prefix-IsParent n (c ∷ s) h =
    let same = length-reverse (c ∷ s) in inr (inr (omega (arith, same), omega (arith, same)))

dirname_above-IsParent :
    (n : ℕ) (s : Bytes) → (s ≡ []) ⊎ (length (skip_byte b'/' s) < n) → IsParent n (dirname_above s)
unfolding dirname_above
dirname_above-IsParent n [] h = inl refl
dirname_above-IsParent n (c ∷ s) (inl e) = cc
dirname_above-IsParent n (c ∷ s) (inr short) =
    dirname_prefix-IsParent n (skip_byte b'/' (c ∷ s)) short

dirname_last-IsParent :
    (path s : Bytes) → length s ≤ length path → IsParent (length path) (dirname_last path s)
unfolding dirname_last
dirname_last-IsParent [] [] h = inl refl
dirname_last-IsParent (c ∷ path) [] h = inr (inl refl)
dirname_last-IsParent path (c ∷ s) h =
    dirname_above-IsParent (length path) (from_byte b'/' (c ∷ s))
      (longer (length-skip_byte-from_byte b'/' (c ∷ s)))
  where
    longer :
        (from_byte b'/' (c ∷ s) ≡ [])
          ⊎ (length (skip_byte b'/' (from_byte b'/' (c ∷ s))) < length (c ∷ s))
        → (from_byte b'/' (c ∷ s) ≡ [])
          ⊎ (length (skip_byte b'/' (from_byte b'/' (c ∷ s))) < length path)
    longer (inl e) = inl e
    longer (inr short) = inr (omega (arith, h, short))

-- dirname returns `.` or `/`, or something shorter that is not empty.
pub dirname-IsParent : (path : Bytes) → IsParent (length path) (dirname path)
unfolding dirname
dirname-IsParent path =
    dirname_last-IsParent path (skip_byte b'/' (reverse path))
      (omega (arith, length-skip_byte b'/' (reverse path), length-reverse path))
