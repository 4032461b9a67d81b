-- ===== src/Security/TotpWindow.antt =====
-- How long a time-based code is accepted.
use Prim.Native.Char.{Char, code}
use Prim.Native.String.{String}
use Prim.Native.Nat.{◌/◌, ◌%◌}
use mathlib.Core.List.{reverse, reverse_aux, reverse-reverse}
use io_tables.Common.{
  ℕ, zero, suc, ◌+◌, ◌-◌, ◌≤◌, ◌≡◌, refl, sym, ap, ◌∙◌, Bool, true, false, not, ◌||◌, Option, none,
  some, List, [], ◌∷◌, to_list, of_list, is_space, drop_spaces, strip, any, length, leb, str_eq,
  eq_refl, arith, ◌⊎◌, inl, inr,
}
use io_tables.Access.Otp.Codes.{nth, digit, zfill}
use io_tables.Security.RoundTrip.{of_list-to_list}
use io_tables.Security.Totp.{
  TotpServices, decode_base32_secret, truncated, totp_of, with_key, compare_code,
  generate_totp_code, matches_any, check_counters, verify_totp_code,
}

-- What holds of each of some characters holds of the nth.
pub any-nth :
    (p : Char → Bool) (n : ℕ) (c : Char) (s : List Char)
    → any p (c ∷ s) ≡ false
    → p (nth n c s) ≡ false
any-nth p n c [] h = ground (arith, h)
any-nth p zero c (d ∷ s) h = ground (arith, h)
any-nth p (suc n) c (d ∷ s) h = any-nth p n d s (ground (arith, h))

any-reverse_aux :
    (p : Char → Bool) (s t : List Char) → any p (reverse_aux s t) ≡ (any p s || any p t)
any-reverse_aux p [] t = refl
any-reverse_aux p (c ∷ s) t = ground (arith, any-reverse_aux p s (c ∷ t))

drop_spaces_none : (s : List Char) → any is_space s ≡ false → drop_spaces s ≡ s
unfolding drop_spaces
drop_spaces_none [] h = refl
drop_spaces_none (c ∷ s) h = ground (arith, h)

strip_none : (s : String) → any is_space (to_list s) ≡ false → strip s ≡ s
unfolding strip
strip_none s h =
    let reversed : any is_space (reverse (to_list s)) ≡ false =
      any-reverse_aux is_space (to_list s) [] ∙ ground (arith, h) in
    ap (λ t. of_list (reverse (drop_spaces (reverse t)))) (drop_spaces_none (to_list s) h)
    ∙ ap (λ t. of_list (reverse t)) (drop_spaces_none (reverse (to_list s)) reversed)
    ∙ ap of_list (reverse-reverse (to_list s))
    ∙ of_list-to_list s

-- A test that no digit passes, no character of a padded number passes.
any-zfill :
    (p : Char → Bool)
    → ((n : ℕ) → p (digit n) ≡ false)
    → (width n : ℕ) (text : String) → any p (to_list (zfill width n text)) ≡ any p (to_list text)
unfolding zfill to_list
any-zfill p none_passes zero n text = refl
any-zfill p none_passes (suc width) n text =
    any-zfill p none_passes width (n / 10) (String.◌∷◌ (digit (n % 10)) text)
    ∙ ground (arith, none_passes (n % 10))

length-zfill :
    (width n : ℕ) (text : String)
    → length (to_list (zfill width n text)) ≡ width + length (to_list text)
unfolding zfill to_list
length-zfill zero n text = omega arith
length-zfill (suc width) n text =
    omega (arith, length-zfill width (n / 10) (String.◌∷◌ (digit (n % 10)) text))

same_code : {a b : String} → some a ≡ some b → a ≡ b
same_code h = ground (arith, h)

totp_text :
    (p : Char → Bool)
    → ((n : ℕ) → p (digit n) ≡ false)
    → (services : TotpServices) (key : Option (List ℕ)) (counter : ℕ) (text : String)
    → with_key services key counter ≡ some text
    → any p (to_list text) ≡ false
unfolding totp_of to_list
totp_text p none_passes services none counter text h = ground (arith, h)
totp_text p none_passes services (some key) counter text h =
    ap (λ t. any p (to_list t)) (sym (same_code h))
    ∙ any-zfill p none_passes 6 (truncated (services.hmac_sha1 key counter) % 1000000) ""

totp_length :
    (services : TotpServices) (key : Option (List ℕ)) (counter : ℕ) (text : String)
    → with_key services key counter ≡ some text
    → length (to_list text) ≡ 6
unfolding totp_of to_list
totp_length services none counter text h = ground (arith, h)
totp_length services (some key) counter text h =
    ap (λ t. length (to_list t)) (sym (same_code h))
    ∙ length-zfill 6 (truncated (services.hmac_sha1 key counter) % 1000000) ""

-- Of three counters in a row, each one's code passes.
one_of_three :
    (services : TotpServices) (key : Option (List ℕ)) (text : String) (counter shown : ℕ)
    → with_key services key shown ≡ some text
    → (shown ≡ counter) ⊎ ((shown ≡ suc counter) ⊎ (shown ≡ suc (suc counter)))
    → compare_code text (with_key services key counter) (
        compare_code text
          (with_key services key (suc counter))
          (compare_code text (with_key services key (suc (suc counter))) (some false)))
      ≡ some true
one_of_three services none text counter shown h at_one = ground (arith, h)
one_of_three services (some key) text counter shown h at_one =
    let same : str_eq (totp_of services key shown) text ≡ true =
      ap (λ t. str_eq t text) (same_code h) ∙ eq_refl text in
    elim at_one [
      | inl now ↦ ground (arith, same, ap (totp_of services key) now)
      | inr (inl next) ↦ ground (arith, same, ap (totp_of services key) next)
      | inr (inr last) ↦ ground (arith, same, ap (totp_of services key) last)
    ]

digit-is_space : (n : ℕ) → is_space (digit n) ≡ false
unfolding is_space
digit-is_space n =
    any-nth is_space n "0" ("1" ∷ "2" ∷ "3" ∷ "4" ∷ "5" ∷ "6" ∷ "7" ∷ "8" ∷ "9" ∷ []) refl

digit_ascii : (n : ℕ) → leb 128 (code (digit n)) ≡ false
digit_ascii n =
    any-nth (λ c. leb 128 (code c)) n "0" ("1" ∷ "2" ∷ "3" ∷ "4" ∷ "5" ∷ "6" ∷ "7" ∷ "8" ∷ "9" ∷ [])
      refl

-- A text of six digits is compared with the codes.
code_compared :
    (services : TotpServices) (secret text : String) (later : ℕ)
    → any is_space (to_list text) ≡ false
    → any (λ c. not (services.is_digit c)) (to_list text) ≡ false
    → any (λ c. leb 128 (code c)) (to_list text) ≡ false
    → length (to_list text) ≡ 6
    → verify_totp_code services secret text later ≡ check_counters services secret text (later / 30)
unfolding verify_totp_code
code_compared services secret text later no_space digits ascii six =
    rw (strip_none text no_space) (ground (arith, digits, ascii, six))

one_accepted :
    (services : TotpServices) (secret text : String) (counter shown : ℕ)
    → generate_totp_code services secret shown ≡ some text
    → (shown ≡ counter) ⊎ ((shown ≡ suc counter) ⊎ (shown ≡ suc (suc counter)))
    → check_counters services secret text (suc counter) ≡ some true
unfolding generate_totp_code check_counters matches_any
one_accepted services secret text counter shown h at_one =
    one_of_three services (decode_base32_secret services secret) text counter shown h at_one

-- The counter of a time, where it is not the first, and the one before it.
counter_before : (later : ℕ) → 30 ≤ later → later / 30 ≡ suc (later / 30 - 1)
counter_before later started = omega arith

near :
    (shown later : ℕ)
    → 30 ≤ later
    → shown ≤ later + 30
    → later ≤ shown + 30
    → (shown / 30 ≡ later / 30 - 1)
      ⊎ ((shown / 30 ≡ suc (later / 30 - 1)) ⊎ (shown / 30 ≡ suc (suc (later / 30 - 1))))
near shown later started after before = omega arith

-- Where isdigit accepts the ten digits, the code that is shown at a time is accepted at every other
-- time at most thirty seconds before or after it, from the second counter of the epoch on.
pub verify_totp_code-generate_totp_code :
    (services : TotpServices)
    → ((n : ℕ) → services.is_digit (digit n) ≡ true)
    → (secret text : String) (shown later : ℕ)
    → generate_totp_code services secret (shown / 30) ≡ some text
    → 30 ≤ later
    → shown ≤ later + 30
    → later ≤ shown + 30
    → verify_totp_code services secret text later ≡ some true
unfolding generate_totp_code
verify_totp_code-generate_totp_code services digits secret text shown later h started after before =
    let sent : with_key services (decode_base32_secret services secret) (shown / 30) ≡ some text =
      h in
    let test : (p : Char → Bool) → ((n : ℕ) → p (digit n) ≡ false) → any p (to_list text) ≡ false =
      λ p none_passes.
        totp_text p none_passes services (decode_base32_secret services secret) (shown / 30) text
          sent in
    code_compared services secret text later (test is_space digit-is_space)
      (test (λ c. not (services.is_digit c)) (λ n. ap not (digits n)))
      (test (λ c. leb 128 (code c)) digit_ascii)
      (totp_length services (decode_base32_secret services secret) (shown / 30) text sent)
    ∙ ap (check_counters services secret text) (counter_before later started)
    ∙ one_accepted services secret text (later / 30 - 1) (shown / 30) h
        (near shown later started after before)
