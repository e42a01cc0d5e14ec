-- ===== src/PhoneNumber/Canonical.antt =====
-- What a canonical number looks like (packages/dto/src/common/primitives.ts).
use iziphone.Prelude.{
  ℕ, Bool, true, false, ◌&&◌, ◌||◌, ◌≡◌, refl, ap, ◌∙◌, some, List, [], ◌∷◌, ◌++◌, arith, ◌==◌, leb,
  any, length,
}
use mathlib.Core.List.{reverse, reverse-reverse, reverse-cons}
use iziphone.PhoneNumber.{
  is_digit, is_space, drop_spaces, trim, digits_of, plus, normalize_trimmed, normalize_phone_number,
}

abbrev pub all_digits : List ℕ → Bool
all_digits [] = true
all_digits (c ∷ cs) = is_digit c && all_digits cs

-- E.164: a plus and 7 to 15 digits.
abbrev pub is_e164 : List ℕ → Bool
is_e164 [] = false
is_e164 (c ∷ cs) = c == plus && (all_digits cs && (leb 7 (length cs) && leb (length cs) 15))

digits_of-all : (cs : List ℕ) → all_digits (digits_of cs) ≡ true
digits_of-all [] = refl
digits_of-all (c ∷ cs) = ground (arith, digits_of-all cs)

digits_of_digits : (cs : List ℕ) → all_digits cs ≡ true → digits_of cs ≡ cs
digits_of_digits [] h = refl
digits_of_digits (c ∷ cs) h = ground (arith, digits_of_digits cs)

normalize_trimmed-e164 : (cs n : List ℕ) → normalize_trimmed cs ≡ some n → is_e164 n ≡ true
normalize_trimmed-e164 [] n h = cc
normalize_trimmed-e164 (c ∷ cs) n h = ground (arith, digits_of-all cs, digits_of-all (c ∷ cs))

-- Whatever text is typed, the number made of it is a plus and 7 to 15 digits.
normalize_phone_number-e164 :
    (value n : List ℕ) → normalize_phone_number value ≡ some n → is_e164 n ≡ true
unfolding normalize_phone_number
normalize_phone_number-e164 value n h = normalize_trimmed-e164 (trim value) n h

any-append : (p : ℕ → Bool) (xs ys : List ℕ) → any p (xs ++ ys) ≡ (any p xs || any p ys)
any-append p [] ys = refl
any-append p (x ∷ xs) ys = ground (arith, any-append p xs ys)

any-reverse : (p : ℕ → Bool) (xs : List ℕ) → any p (reverse xs) ≡ any p xs
any-reverse p [] = refl
any-reverse p (x ∷ xs) =
    rw (reverse-cons x xs) (ground (arith, any-append p (reverse xs) (x ∷ []), any-reverse p xs))

drop_spaces_lem : (cs : List ℕ) → any is_space cs ≡ false → drop_spaces cs ≡ cs
drop_spaces_lem [] h = refl
drop_spaces_lem (c ∷ cs) h = ground arith

trim_lem : (cs : List ℕ) → any is_space cs ≡ false → trim cs ≡ cs
unfolding trim
trim_lem cs h =
    ap (λ s. reverse (drop_spaces (reverse s))) (drop_spaces_lem cs h)
    ∙ ap reverse (drop_spaces_lem (reverse cs) (any-reverse is_space cs ∙ h))
    ∙ reverse-reverse cs

digits_no_space : (cs : List ℕ) → all_digits cs ≡ true → any is_space cs ≡ false
digits_no_space [] h = refl
digits_no_space (c ∷ cs) h = ground (arith, digits_no_space cs)

e164_no_space : (cs : List ℕ) → is_e164 cs ≡ true → any is_space cs ≡ false
e164_no_space [] h = cc
e164_no_space (c ∷ cs) h = ground (arith, digits_no_space cs)

normalize_trimmed_canonical : (n : List ℕ) → is_e164 n ≡ true → normalize_trimmed n ≡ some n
normalize_trimmed_canonical [] h = cc
normalize_trimmed_canonical (c ∷ cs) h = ground (arith, digits_of_digits cs)

-- A plus and 7 to 15 digits is its own canonical number.
pub normalize_phone_number_canonical :
    (n : List ℕ) → is_e164 n ≡ true → normalize_phone_number n ≡ some n
unfolding normalize_phone_number
normalize_phone_number_canonical n h =
    ap normalize_trimmed (trim_lem n (e164_no_space n h)) ∙ normalize_trimmed_canonical n h

-- The number made of a typed text is made of itself again: normalizing twice is normalizing once.
pub normalize_phone_number_idem :
    (value n : List ℕ) → normalize_phone_number value ≡ some n → normalize_phone_number n ≡ some n
normalize_phone_number_idem value n h =
    normalize_phone_number_canonical n (normalize_phone_number-e164 value n h)
