-- ===== src/Tests/Totp.antt =====
-- A time-based code that is typed in thirty seconds after it was shown.
use Prim.Native.Char.{Char, code}
use io_tables.Common.{
  ℕ, ◌+◌, ◌*◌, ◌≡◌, refl, Bool, true, false, not, ◌&&◌, some, List, [], ◌∷◌, leb, arith,
}
use io_tables.Access.Otp.Codes.{digit, zfill}
use io_tables.Security.Totp.{
  TotpServices, generate_totp_code, decode_base32_secret, totp_of, verify_totp_code,
}
use io_tables.Security.TotpWindow.{any-nth, verify_totp_code-generate_totp_code}

abbrev pub is_ascii_digit : Char → Bool
is_ascii_digit c = leb 48 (code c) && leb (code c) 57

-- Twenty bytes that depend on the key and the counter.
abbrev pub digest : List ℕ → ℕ → List ℕ
digest [] counter = []
digest (b ∷ key) counter =
    200
    ∷ b
    ∷ counter
    ∷ 7
    ∷ 9
    ∷ 250
    ∷ 3
    ∷ (counter * 3)
    ∷ 17
    ∷ 90
    ∷ 5
    ∷ 6
    ∷ 7
    ∷ 8
    ∷ 9
    ∷ 10
    ∷ 11
    ∷ 12
    ∷ 13
    ∷ (b + counter)
    ∷ []

abbrev pub services : TotpServices
services = record {
  hmac_sha1 = digest;
  b32decode = λ s. some (40 ∷ 2 ∷ []);
  upper = λ s. s;
  is_digit = is_ascii_digit;
}

pub digit_accepted : (n : ℕ) → is_ascii_digit (digit n) ≡ true
digit_accepted n =
    let passes : not (is_ascii_digit (digit n)) ≡ false =
      any-nth (λ c. not (is_ascii_digit c)) n "0"
        ("1" ∷ "2" ∷ "3" ∷ "4" ∷ "5" ∷ "6" ∷ "7" ∷ "8" ∷ "9" ∷ []) refl in
    ground (arith, passes)

pub shown_code : generate_totp_code services "GEZDGNBV" 3 ≡ some "124105"
unfolding generate_totp_code decode_base32_secret totp_of zfill
shown_code = refl

verify_totp_code-generate_totp_code_example :
    verify_totp_code services "GEZDGNBV" "124105" 130 ≡ some true
verify_totp_code-generate_totp_code_example =
    verify_totp_code-generate_totp_code services digit_accepted "GEZDGNBV" "124105" 100 130
      shown_code (omega arith) (omega arith) (omega arith)
