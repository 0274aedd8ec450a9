-- ===== src/Common/Decimal.antt =====
-- strconv.Itoa of a number that is not negative, and strconv.Atoi, which is strconv.ParseInt with 64 bits.
use herdr_telegram_agents.Common.{
  ℕ, zero, suc, ◌+◌, ◌-◌, ◌*◌, ◌/◌, ◌%◌, ◌^◌, Bool, ◌&&◌, Option, none, some, [], ◌∷◌, nat_eq, ◌==◌,
  ltb, leb, if◌then◌else◌, all,
}
use herdr_telegram_agents.Common.Text.{Text}
use herdr_telegram_agents.Common.Int.{ℤ, pos, negsuc}

abbrev pub is_digit : ℕ → Bool
is_digit c = leb 0x30 c && leb c 0x39

-- One step of fuel for each digit.
itoa_loop : ℕ → ℕ → Text → Text
itoa_loop zero n rest = rest
itoa_loop (suc fuel) n rest =
    let c = 0x30 + n % 10 in
    let longer = itoa_loop fuel (n / 10) (c ∷ rest) in if ltb n 10 then c ∷ rest else longer

-- strconv.Itoa; a number has fewer digits than n + 1.
unfoldable pub itoa : ℕ → Text
unfolding itoa_loop
itoa n = itoa_loop (n + 1) n []

value_from : ℕ → Text → ℕ
value_from n [] = n
value_from n (c ∷ s) = value_from (n * 10 + (c - 0x30)) s

-- The digits of a number without its sign.
digits_value : Text → Option ℕ
digits_value [] = none
digits_value (c ∷ s) = if all is_digit (c ∷ s) then some (value_from 0 (c ∷ s)) else none

-- -n
negated : ℕ → ℤ
negated zero = pos 0
negated (suc n) = negsuc n

positive : Option ℕ → Option ℤ
positive none = none
positive (some n) = if ltb n (2 ^ 63) then some (pos n) else none

negative : Option ℕ → Option ℤ
negative none = none
negative (some n) = if leb n (2 ^ 63) then some (negated n) else none

-- strconv.Atoi; `none` is an error.
unfoldable pub atoi : Text → Option ℤ
unfolding digits_value value_from negated positive negative
atoi [] = none
atoi (c ∷ s) =
    if c == b'-'
    then negative (digits_value s)
    else if c == b'+'
    then positive (digits_value s)
    else positive (digits_value (c ∷ s))
