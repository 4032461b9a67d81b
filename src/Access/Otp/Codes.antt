-- ===== src/Access/Otp/Codes.antt =====
-- The texts of modules/access/otp.py: codes, their hashes, and the hint of a phone number.
use Prim.Native.Char.{Char}
use Prim.Native.String.{String}
use Prim.Native.Nat.{◌/◌, ◌%◌}
use io_tables.Common.{
  ℕ, zero, suc, ◌-◌, select, to_list, of_list, Bool, List, [], ◌∷◌, length, leb, str_eq, strip,
  if◌then◌else◌,
}
use io_tables.Session.{Exec, ◌>>=◌, pure, uuid4}

-- The settings that the service reads, the HMAC-SHA256 of `id:code` under a key, and str.isdigit.
pub record OtpServices : Type 0 where
  pub security_secret_key : String
  pub otp_delivery_mode : String
  pub otp_fixed_code : String
  pub hmac_hex : String → ℕ → String → String
  pub is_digit : Char → Bool

-- `_hash_code`
abbrev pub hash_code : OtpServices → ℕ → String → String
hash_code services challenge_id code =
    services.hmac_hex services.security_secret_key challenge_id (strip code)

-- The nth of some characters, the last one where there are too few.
abbrev pub nth : ℕ → Char → List Char → Char
nth n c [] = c
nth zero c (d ∷ digits) = c
nth (suc n) c (d ∷ digits) = nth n d digits

abbrev pub digit : ℕ → Char
digit n = nth n "0" ("1" ∷ "2" ∷ "3" ∷ "4" ∷ "5" ∷ "6" ∷ "7" ∷ "8" ∷ "9" ∷ [])

-- `str(n).zfill(width)` of a number of at most `width` digits, before a text.
unfoldable pub zfill : ℕ → ℕ → String → String
zfill zero n text = text
zfill (suc width) n text = zfill width (n / 10) (String.◌∷◌ (digit (n % 10)) text)

-- `_generate_code`: the module's, by the random value that is drawn.
abbrev pub random_code : ℕ → String
random_code random = zfill 6 (random % 1000000) ""

-- And the service's.
unfoldable pub generate_code : OtpServices → Exec String
generate_code services =
    if str_eq services.otp_delivery_mode "fixed"
    then pure services.otp_fixed_code
    else uuid4 >>= λ random. pure (random_code random)

hide : ℕ → List Char → List Char
hide zero digits = digits
hide (suc n) [] = []
hide (suc n) (d ∷ digits) = "*" ∷ hide n digits

-- All but the last four digits are hidden.
unfoldable pub mask_gsm : OtpServices → String → String
unfolding to_list of_list hide
mask_gsm services gsm =
    let digits : List Char = select services.is_digit (to_list gsm) in
    if leb (length digits) 4 then "****" else of_list (hide (length digits - 4) digits)
