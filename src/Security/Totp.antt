-- ===== src/Security/Totp.antt =====
-- generate_totp_code and verify_totp_code of security/totp.py. `none` is an exception.
-- Times are whole seconds since the epoch.
use Prim.Native.Char.{Char, code}
use Prim.Native.String.{String}
use Prim.Native.Nat.{◌/◌, ◌%◌}
use io_tables.Common.{
  ℕ, zero, suc, ◌+◌, ◌-◌, ◌*◌, Bool, true, false, not, ◌||◌, Option, none, some, List, [], ◌∷◌,
  ◌++◌, to_list, of_list, strip, any, length, leb, str_eq, ◌==◌, if◌then◌else◌,
}
use io_tables.Access.Otp.Codes.{zfill}

-- HMAC-SHA1 of a counter in eight bytes under a key, base64.b32decode, str.upper and str.isdigit.
pub record TotpServices : Type 0 where
  pub hmac_sha1 : List ℕ → ℕ → List ℕ
  pub b32decode : String → Option (List ℕ)
  pub upper : String → String
  pub is_digit : Char → Bool

abbrev pub repeated : ℕ → Char → List Char
repeated zero c = []
repeated (suc n) c = c ∷ repeated n c

-- `decode_base32_secret`
unfoldable pub decode_base32_secret : TotpServices → String → Option (List ℕ)
decode_base32_secret services secret = services.b32decode (
    services.upper
      (of_list (to_list secret ++ repeated ((8 - length (to_list secret) % 8) % 8) "=")))

abbrev pub last_byte : List ℕ → ℕ
last_byte [] = 0
last_byte (b ∷ []) = b
last_byte (b ∷ c ∷ bytes) = last_byte (c ∷ bytes)

abbrev pub byte_at : ℕ → List ℕ → ℕ
byte_at n [] = 0
byte_at zero (b ∷ bytes) = b
byte_at (suc n) (b ∷ bytes) = byte_at n bytes

-- The four bytes from the offset on, without the first bit.
abbrev pub truncated : List ℕ → ℕ
truncated digest =
    let offset : ℕ = last_byte digest % 16 in
    (byte_at offset digest * 16777216
      + byte_at (offset + 1) digest * 65536
      + byte_at (offset + 2) digest * 256
      + byte_at (offset + 3) digest)
    % 2147483648

-- `generate_totp_code` once the secret is decoded.
unfoldable pub totp_of : TotpServices → List ℕ → ℕ → String
totp_of services key counter = zfill 6 (truncated (services.hmac_sha1 key counter) % 1000000) ""

abbrev pub with_key : TotpServices → Option (List ℕ) → ℕ → Option String
with_key services none counter = none
with_key services (some key) counter = some (totp_of services key counter)

unfoldable pub generate_totp_code : TotpServices → String → ℕ → Option String
generate_totp_code services secret counter =
    with_key services (decode_base32_secret services secret) counter

-- The loop over the counters.
abbrev pub compare_code : String → Option String → Option Bool → Option Bool
compare_code normalized_code none rest = none
compare_code normalized_code (some text) rest =
    if str_eq text normalized_code then some true else rest

unfoldable pub matches_any : TotpServices → String → String → List ℕ → Option Bool
matches_any services secret normalized_code [] = some false
matches_any services secret normalized_code (counter ∷ counters) =
    compare_code normalized_code (generate_totp_code services secret counter)
      (matches_any services secret normalized_code counters)

-- compare_digest takes texts of ASCII characters only.
abbrev pub is_ascii : List Char → Bool
is_ascii s = not (any (λ c. leb 128 (code c)) s)

-- The counter before the first one does not fit into the eight bytes.
unfoldable pub check_counters : TotpServices → String → String → ℕ → Option Bool
check_counters services secret normalized_code zero = none
check_counters services secret normalized_code (suc counter) =
    matches_any services secret normalized_code (counter ∷ suc counter ∷ suc (suc counter) ∷ [])

unfoldable pub verify_totp_code : TotpServices → String → String → ℕ → Option Bool
verify_totp_code services secret given_code now =
    let normalized_code : String = strip given_code in
    if any (λ c. not (services.is_digit c)) (to_list normalized_code)
      || not (length (to_list normalized_code) == 6)
    then some false
    else (if is_ascii (to_list normalized_code)
        then check_counters services secret normalized_code (now / 30)
        else none)
