-- ===== src/Security/RoundTrip.antt =====
-- A password is verified against the text that it was hashed to.
use Prim.Native.Char.{Char}
use Prim.Native.String.{String}
use io_tables.Common.{
  ℕ, zero, suc, ◌≡◌, refl, ap, ◌∙◌, false, some, List, [], ◌∷◌, ◌++◌, to_list, of_list, any, arith,
}
use io_tables.Security.Passwords.{
  PasswordServices, is_dollar, split, join_dollars, same_bytes, hash_password, verify_password,
}

to_list-of_list : (s : List Char) → to_list (of_list s) ≡ s
unfolding to_list of_list
to_list-of_list [] = refl
to_list-of_list (c ∷ s) = ap (λ t. c ∷ t) (to_list-of_list s)

pub of_list-to_list : (s : String) → of_list (to_list s) ≡ s
unfolding to_list of_list
of_list-to_list String.[] = refl
of_list-to_list (String.◌∷◌ c s) = ap (λ t. String.◌∷◌ c t) (of_list-to_list s)

-- A part without a separator ends at the next one.
split-append :
    (n : ℕ) (w s : List Char)
    → any is_dollar w ≡ false
    → split (suc n) (w ++ "$" ∷ s) ≡ w ∷ split n s
unfolding split
split-append n [] s h = refl
split-append n (c ∷ w) s h = ground (arith, split-append n w s)

split_last : (n : ℕ) (w : List Char) → any is_dollar w ≡ false → split n w ≡ w ∷ []
unfolding split
split_last n [] h = refl
split_last zero (c ∷ w) h = ground (arith, split_last zero w)
split_last (suc n) (c ∷ w) h = ground (arith, split_last (suc n) w)

split_joined :
    (a b c d : String)
    → any is_dollar (to_list a) ≡ false
    → any is_dollar (to_list b) ≡ false
    → any is_dollar (to_list c) ≡ false
    → any is_dollar (to_list d) ≡ false
    → split 3 (to_list (join_dollars a b c d)) ≡ to_list a ∷ to_list b ∷ to_list c ∷ to_list d ∷ []
unfolding join_dollars
split_joined a b c d ha hb hc hd =
    rw (to_list-of_list (to_list a ++ "$" ∷ (to_list b ++ "$" ∷ (to_list c ++ "$" ∷ to_list d)))) (
      split-append 2 (to_list a) (to_list b ++ "$" ∷ (to_list c ++ "$" ∷ to_list d)) ha
      ∙ ap (λ t. to_list a ∷ t)
          (split-append 1 (to_list b) (to_list c ++ "$" ∷ to_list d) hb
            ∙ ap (λ t. to_list b ∷ t)
                (split-append 0 (to_list c) (to_list d) hc
                  ∙ ap (λ t. to_list c ∷ t) (split_last 0 (to_list d) hd))))

-- Where base64 decodes what it encoded and writes no separator, and the iterations are read back, a
-- password is accepted against the text that a password was hashed to, with whatever salt, exactly
-- where the two have the same digest under that salt.
pub verify_password-hash_password :
    (services : PasswordServices) (random : ℕ) (password other : String)
    → ((bytes : List ℕ) → any is_dollar (to_list (services.urlsafe_b64encode bytes)) ≡ false)
    → ((bytes : List ℕ)
        → services.urlsafe_b64decode (services.urlsafe_b64encode bytes) ≡ some bytes)
    → services.int_of "390000" ≡ some 390000
    → verify_password services other (hash_password services random password)
      ≡ same_bytes
          (services.pbkdf2_hmac other (services.token_bytes random) 390000)
          (services.pbkdf2_hmac password (services.token_bytes random) 390000)
unfolding verify_password hash_password to_list
verify_password-hash_password services random password other plain decodes reads =
    rw
      (split_joined "pbkdf2_sha256" "390000"
        (services.urlsafe_b64encode (services.token_bytes random))
        (services.urlsafe_b64encode
          (services.pbkdf2_hmac password (services.token_bytes random) 390000))
        refl refl (plain _) (plain _))
      (simp (of_list-to_list, decodes, reads))
