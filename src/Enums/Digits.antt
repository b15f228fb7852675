-- ===== src/Enums/Digits.antt =====
-- The decimal text of a number can be read back.
use sysrepo_cpp.Base.{
  ℕ, zero, suc, ◌+◌, ◌-◌, ◌*◌, ◌/◌, ◌%◌, ◌<◌, ◌≡◌, Bool, false, ◌&&◌, [], ◌∷◌, ◌++◌, arith, refl,
  Text, leb, ◌==◌, if◌then◌else◌, inl, inr, Bool-cases,
}
use sysrepo_cpp.Enums.Codes.{put_digits, to_string}

abbrev pub is_digit : ℕ → Bool
is_digit c = leb 48 c && leb c 57

-- The number that the digits at the head of a text continue.
unfoldable pub read_digits : ℕ → Text → ℕ
read_digits acc [] = acc
read_digits acc (c ∷ s) =
    let more = read_digits (acc * 10 + (c - 48)) s in if is_digit c then more else acc

read_digits-digit :
    (acc n : ℕ) (rest : Text)
    → read_digits acc ((48 + n % 10) ∷ rest) ≡ read_digits (acc * 10 + n % 10) rest
unfolding read_digits
read_digits-digit acc n rest = ground arith

read_digits-put_digits :
    (fuel n : ℕ) (rest : Text)
    → n < fuel
    → read_digits 0 (put_digits fuel n rest) ≡ read_digits n rest
unfolding put_digits
read_digits-put_digits zero n rest h = elim h [ ]
read_digits-put_digits (suc fuel) n rest h = elim (Bool-cases (n / 10 == 0)) [
  | inl last ↦ rw last (ground (arith, read_digits-digit 0 n rest))
  | inr more ↦ rw more (
      ground (
        arith,
        read_digits-put_digits fuel (n / 10) ((48 + n % 10) ∷ rest),
        read_digits-digit (n / 10) n rest,
      ))
]

put_digits-append :
    (fuel n : ℕ) (s t : Text) → put_digits fuel n (s ++ t) ≡ put_digits fuel n s ++ t
unfolding put_digits
put_digits-append zero n s t = refl
put_digits-append (suc fuel) n s t =
    ground (arith, put_digits-append fuel (n / 10) ((48 + n % 10) ∷ s) t)

-- Before a text that starts with no digit, the digits of n read as n.
pub read_digits-to_string :
    (n c : ℕ) (s : Text) → is_digit c ≡ false → read_digits 0 (to_string n ++ c ∷ s) ≡ n
unfolding to_string read_digits
read_digits-to_string n c s h =
    ground (arith, put_digits-append (suc n) n [] (c ∷ s), read_digits-put_digits (suc n) n (c ∷ s))
