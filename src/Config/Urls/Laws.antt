-- ===== src/Config/Urls/Laws.antt =====
-- What the text functions keep of a text.
use azoth_balancer.Prelude.{
  ℕ, zero, suc, ◌+◌, ◌≤◌, ◌≡◌, refl, Bool, true, false, [], ◌∷◌, ◌++◌, arith, Text, length, any,
  All,
}
use azoth_balancer.Config.Urls.{has_scheme, drop, trim_end, trim, byte_len, is_whitespace}

module _ (P : ℕ → Type 0) where
  pub All-trim_end : (p : ℕ → Bool) (s : Text) → All P s → All P (trim_end p s)
  unfolding trim_end
  All-trim_end p [] h = tt
  All-trim_end p (c ∷ s) h = ground (arith, h.0, All-trim_end p s h.1)

  pub All-drop : (n : ℕ) (s : Text) → All P s → All P (drop n s)
  All-drop zero s h = h
  All-drop (suc n) [] h = tt
  All-drop (suc n) (c ∷ s) h = All-drop n s h.1

pub trim_end_idem : (p : ℕ → Bool) (s : Text) → trim_end p (trim_end p s) ≡ trim_end p s
unfolding trim_end
trim_end_idem p [] = refl
trim_end_idem p (c ∷ s) = ground (arith, trim_end_idem p s)

pub byte_len-trim_end-le : (p : ℕ → Bool) (s : Text) → byte_len (trim_end p s) ≤ byte_len s
unfolding trim_end byte_len
byte_len-trim_end-le p [] = omega arith
byte_len-trim_end-le p (c ∷ s) = ground (arith, byte_len-trim_end-le p s)

pub trim_end_keep : (p : ℕ → Bool) (s : Text) → All (λ c. p c ≡ false) s → trim_end p s ≡ s
unfolding trim_end
trim_end_keep p [] h = refl
trim_end_keep p (c ∷ s) h = ground (arith, h.0, trim_end_keep p s h.1)

-- A text with no white space is its own trimming.
pub trim_keep : (s : Text) → All (λ c. is_whitespace c ≡ false) s → trim s ≡ s
unfolding trim
trim_keep [] h = refl
trim_keep (c ∷ s) h = rw h.0 (trim_end_keep is_whitespace (c ∷ s) h)

-- A character before the scheme's end takes one byte at least.
pub byte_len-has_scheme :
    (scheme s : Text)
    → has_scheme scheme s ≡ true
    → length scheme + byte_len (drop (length scheme) s) ≤ byte_len s
unfolding has_scheme byte_len
byte_len-has_scheme [] s h = omega arith
byte_len-has_scheme (p ∷ ps) [] h = ground arith
byte_len-has_scheme (p ∷ ps) (c ∷ s) h = ground (arith, byte_len-has_scheme ps s)

pub any-All : (p : ℕ → Bool) (s : Text) → any p s ≡ false → All (λ c. p c ≡ false) s
any-All p [] h = tt
any-All p (c ∷ s) h = ground (arith, any-All p s)

pub All-any : (p : ℕ → Bool) (s : Text) → All (λ c. p c ≡ false) s → any p s ≡ false
All-any p [] h = refl
All-any p (c ∷ s) h = ground (arith, h.0, All-any p s h.1)

pub byte_len-append : (s t : Text) → byte_len (s ++ t) ≡ byte_len s + byte_len t
unfolding byte_len
byte_len-append [] t = omega arith
byte_len-append (c ∷ s) t = omega (arith, byte_len-append s t)
