-- ===== src/Base/Decimal.antt =====
-- `std::to_string` and `std::stoi` of the standard library, as far as the field codec uses them.
use my_ulog.Base.{
  ℕ, zero, suc, ◌+◌, ◌-◌, ◌*◌, ◌/◌, ◌%◌, ◌^◌, ◌≤◌, ◌<◌, ◌≡◌, refl, ◌∙◌, [], ◌∷◌, ◌++◌, Bool, false,
  ◌&&◌, ◌||◌, arith, ltb, leb, ◌==◌, if◌then◌else◌, ℤ, pos, negsuc, Bool-cases, inl, inr, All, ap,
}
use my_ulog.Base.Bytes.{Bytes, Lacks}
use my_ulog.Base.Result.{Result, ok, throw, invalid_argument, out_of_range, IsSound}

abbrev pub is_digit : ℕ → Bool
is_digit c = leb b'0' c && leb c b'9'

-- The decimal digits of `n` in front of `out`. One round of fuel for each digit is enough.
digits : ℕ → ℕ → Bytes → Bytes
digits zero n out = out
digits (suc f) n out =
    let rest = digits f (n / 10) ((b'0' + n % 10) ∷ out) in
    if ltb n 10 then (b'0' + n) ∷ out else rest

unfoldable pub to_string : ℤ → Bytes
unfolding digits
to_string (pos n) = digits (suc n) n []
to_string (negsuc n) = b'-' ∷ digits (suc (suc n)) (suc n) []

-- The number that the leading digits spell behind `acc`.
scan : Bytes → ℕ → ℕ
scan [] acc = acc
scan (c ∷ s) acc = let more = scan s (acc * 10 + (c - b'0')) in if is_digit c then more else acc

abbrev starts_with_digit : Bytes → Bool
starts_with_digit [] = false
starts_with_digit (c ∷ s) = is_digit c

-- The unsigned part, checked against the range of a 32-bit int.
unfoldable pub read_positive : Bytes → Result ℤ
unfolding scan
read_positive s =
    if starts_with_digit s
    then if ltb (scan s 0) (2 ^ 31) then ok (pos (scan s 0)) else throw out_of_range
    else throw invalid_argument

minus : ℕ → ℤ
minus zero = pos 0
minus (suc n) = negsuc n

read_negative : Bytes → Result ℤ
unfolding scan minus
read_negative s =
    if starts_with_digit s
    then if leb (scan s 0) (2 ^ 31) then ok (minus (scan s 0)) else throw out_of_range
    else throw invalid_argument

abbrev pub is_space : ℕ → Bool
is_space c = c == b' ' || (leb 9 c && leb c 13)

-- Leading white space, an optional sign, and at least one digit; what follows is ignored.
unfoldable pub stoi : Bytes → Result ℤ
unfolding read_positive read_negative
stoi [] = throw invalid_argument
stoi (c ∷ s) =
    let skip = stoi s in
    if is_space c
    then skip
    else if c == b'-'
    then read_negative s
    else if c == b'+'
    then read_positive s
    else read_positive (c ∷ s)

-- `stoi` ends with a number or an exception.
pub stoi-IsSound : (s : Bytes) → IsSound (stoi s)
unfolding stoi
stoi-IsSound [] = tt
stoi-IsSound (c ∷ s) = ground (arith, stoi-IsSound s)

scan_digit : (d acc : ℕ) (s : Bytes) → d < 10 → scan ((b'0' + d) ∷ s) acc ≡ scan s (acc * 10 + d)
unfolding scan
scan_digit d acc s h = ground arith

scan-digits : (f n : ℕ) (out : Bytes) → n < f → scan (digits f n out) 0 ≡ scan out n
unfolding digits
scan-digits zero n out h = elim h [ ]
scan-digits (suc f) n out h = ground (
  arith,
  scan_digit n 0 out,
  scan_digit (n % 10) (n / 10) out,
  scan-digits f (n / 10) ((b'0' + n % 10) ∷ out),
)

scan_stop : (c : ℕ) (rest : Bytes) (acc : ℕ) → is_digit c ≡ false → scan (c ∷ rest) acc ≡ acc
unfolding scan
scan_stop c rest acc h = rw h

-- The print begins with a digit.
digits_head :
    (f n : ℕ) (out : Bytes)
    → n < f
    → (c : ℕ) × (s : Bytes) × (digits f n out ≡ c ∷ s) × (b'0' ≤ c) × (c ≤ b'9')
unfolding digits
digits_head zero n out h = elim h [ ]
digits_head (suc f) n out h = elim (Bool-cases (ltb n 10)) [
  | inl small ↦ (b'0' + n, out, rw small, omega arith, ground arith)
  | inr large ↦
      let (c, s, e, lo, hi) = digits_head f (n / 10) ((b'0' + n % 10) ∷ out) (ground arith) in
      (c, s, rw large e, lo, hi)
]

stoi_digit :
    (c : ℕ) (s : Bytes)
    → b'0' ≤ c
    → c ≤ b'9'
    → scan (c ∷ s) 0 < 2 ^ 31
    → stoi (c ∷ s) ≡ ok (pos (scan (c ∷ s) 0))
unfolding stoi
stoi_digit c s lo hi h = ground arith

digits-append : (f n : ℕ) (out more : Bytes) → digits f n out ++ more ≡ digits f n (out ++ more)
unfolding digits
digits-append zero n out more = refl
digits-append (suc f) n out more =
    ground (arith, digits-append f (n / 10) ((b'0' + n % 10) ∷ out) more)

-- A nonnegative int that was printed is read back, if no digit follows.
pub stoi-to_string :
    (n c : ℕ) (rest : Bytes)
    → n < 2 ^ 31
    → is_digit c ≡ false
    → stoi (to_string (pos n) ++ (c ∷ rest)) ≡ ok (pos n)
unfolding to_string
stoi-to_string n c rest small stop =
    let (d, s, e, lo, hi) = digits_head (suc n) n (c ∷ rest) (omega arith) in
    let value : scan (d ∷ s) 0 ≡ n =
      rw (← e) (scan-digits (suc n) n (c ∷ rest) (omega arith) ∙ scan_stop c rest n stop) in
    rw (digits-append (suc n) n [] (c ∷ rest), e)
      (stoi_digit d s lo hi (omega (arith, value)) ∙ ap (λ v. ok (pos v)) value)

scan_end : (acc : ℕ) → scan [] acc ≡ acc
unfolding scan
scan_end acc = refl

-- And if nothing follows.
pub stoi-to_string_alone : (n : ℕ) → n < 2 ^ 31 → stoi (to_string (pos n)) ≡ ok (pos n)
unfolding to_string
stoi-to_string_alone n small =
    let (d, s, e, lo, hi) = digits_head (suc n) n [] (omega arith) in
    let value : scan (d ∷ s) 0 ≡ n =
      rw (← e) (scan-digits (suc n) n [] (omega arith) ∙ scan_end n) in
    rw e (stoi_digit d s lo hi (omega (arith, value)) ∙ ap (λ v. ok (pos v)) value)

abbrev pub IsDigit : ℕ → Type 0
IsDigit c = (b'0' ≤ c) × (c ≤ b'9')

digits-IsDigit : (f n : ℕ) (out : Bytes) → All IsDigit out → All IsDigit (digits f n out)
unfolding digits
digits-IsDigit zero n out h = h
digits-IsDigit (suc f) n out h = ground (arith, digits-IsDigit f (n / 10) ((b'0' + n % 10) ∷ out))

IsDigit-Lacks : (c : ℕ) (s : Bytes) → is_digit c ≡ false → All IsDigit s → Lacks c s
IsDigit-Lacks c [] h all = tt
IsDigit-Lacks c (d ∷ s) h all = (λ e. ground arith, IsDigit-Lacks c s h all.1)

-- A printed nonnegative int holds digits only.
pub to_string-Lacks : (n c : ℕ) → is_digit c ≡ false → Lacks c (to_string (pos n))
unfolding to_string
to_string-Lacks n c h = IsDigit-Lacks c _ h (digits-IsDigit (suc n) n [] tt)

runs :
    (to_string (pos 1500) ≡ b'1' ∷ b'5' ∷ b'0' ∷ b'0' ∷ [])
    × (stoi (b' ' ∷ b'-' ∷ b'7' ∷ b']' ∷ []) ≡ ok (negsuc 6))
    × (stoi (b']' ∷ []) ≡ throw invalid_argument)
unfolding to_string stoi
runs = (refl, refl, refl)
