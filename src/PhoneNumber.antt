-- ===== src/PhoneNumber.antt =====
-- The canonical form of a number a person typed (packages/dto/src/common/primitives.ts). A text is
-- the list of its code points.
pub mod Canonical
use iziphone.Prelude.{
  ℕ, suc, ◌+◌, Bool, true, false, not, ◌&&◌, ◌||◌, Option, none, some, List, [], ◌∷◌, ◌==◌, ltb,
  leb, if◌then◌else◌, filter, length,
}
use mathlib.Core.List.{reverse}

abbrev pub is_digit : ℕ → Bool
is_digit c = leb 48 c && leb c 57

-- White space and line ends, as `String.prototype.trim` has them.
abbrev pub is_space : ℕ → Bool
is_space c =
    (leb 9 c && leb c 13)
    || (c == 32
        || (c == 160
            || (c == 5760
                || ((leb 8192 c && leb c 8202)
                    || (c == 8232
                        || (c == 8233
                            || (c == 8239 || (c == 8287 || (c == 12288 || c == 65279)))))))))

abbrev pub drop_spaces : List ℕ → List ℕ
drop_spaces [] = []
drop_spaces (c ∷ cs) = if is_space c then drop_spaces cs else c ∷ cs

-- `value.trim()`
unfoldable pub trim : List ℕ → List ℕ
trim cs = reverse (drop_spaces (reverse (drop_spaces cs)))

-- `text.replace(/\D/g, '')`
abbrev pub digits_of : List ℕ → List ℕ
digits_of = filter is_digit

-- `+` and `1`
abbrev pub plus : ℕ
plus = 43

abbrev pub one : ℕ
one = 49

abbrev pub starts_with_one : List ℕ → Bool
starts_with_one [] = false
starts_with_one (c ∷ cs) = c == one

-- A number typed with a country code.
abbrev pub international : List ℕ → Option (List ℕ)
international digits =
    if leb 7 (length digits) && leb (length digits) 15 then some (plus ∷ digits) else none

-- A North American number.
abbrev pub national : List ℕ → Option (List ℕ)
national digits =
    if length digits == 10
    then some (plus ∷ one ∷ digits)
    else if length digits == 11 && starts_with_one digits
    then some (plus ∷ digits)
    else none

abbrev pub normalize_trimmed : List ℕ → Option (List ℕ)
normalize_trimmed [] = national []
normalize_trimmed (c ∷ cs) =
    if c == plus then international (digits_of cs) else national (digits_of (c ∷ cs))

-- `normalizePhoneNumber`
unfoldable pub normalize_phone_number : List ℕ → Option (List ℕ)
unfolding trim
normalize_phone_number value = normalize_trimmed (trim value)

-- `isDialablePhoneNumber`
unfoldable pub is_dialable_phone_number : List ℕ → Bool
unfolding normalize_phone_number
is_dialable_phone_number value = elim (normalize_phone_number value) [
  | none ↦ false
  | some n ↦ true
]
