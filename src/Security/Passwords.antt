-- ===== src/Security/Passwords.antt =====
-- security/passwords.py.
use Prim.Native.Char.{Char, code}
use Prim.Native.String.{String}
use io_tables.Common.{
  ℕ, zero, suc, Bool, true, false, ◌&&◌, Option, some, List, [], ◌∷◌, ◌++◌, to_list, of_list,
  str_eq, ◌==◌, if◌then◌else◌,
}

-- hashlib.pbkdf2_hmac by password, salt and iterations, base64, int() and secrets.token_bytes by
-- the random value that is drawn. What raises ValueError or TypeError is `none`.
pub record PasswordServices : Type 0 where
  pub pbkdf2_hmac : String → List ℕ → ℕ → List ℕ
  pub urlsafe_b64encode : List ℕ → String
  pub urlsafe_b64decode : String → Option (List ℕ)
  pub int_of : String → Option ℕ
  pub token_bytes : ℕ → List ℕ

abbrev pub is_dollar : Char → Bool
is_dollar c = code c == 36

-- The head of a split grows by a character.
abbrev pub on_head : Char → List (List Char) → List (List Char)
on_head c [] = []
on_head c (part ∷ parts) = (c ∷ part) ∷ parts

-- `s.split("$", n)`
unfoldable pub split : ℕ → List Char → List (List Char)
split n [] = [] ∷ []
split zero (c ∷ s) = on_head c (split zero s)
split (suc n) (c ∷ s) =
    let parts = split n s in
    let rest = split (suc n) s in if is_dollar c then [] ∷ parts else on_head c rest

-- `a$b$c$d`
unfoldable pub join_dollars : String → String → String → String → String
join_dollars a b c d =
    of_list (to_list a ++ "$" ∷ (to_list b ++ "$" ∷ (to_list c ++ "$" ∷ to_list d)))

-- hmac.compare_digest
abbrev pub same_bytes : List ℕ → List ℕ → Bool
same_bytes [] [] = true
same_bytes (a ∷ xs) (b ∷ ys) = (a == b) && same_bytes xs ys
same_bytes _ _ = false

module _ (services : PasswordServices) where
  -- `hash_password`, by the random value of the salt.
  unfoldable pub hash_password : ℕ → String → String
  hash_password random password =
      let salt : List ℕ = services.token_bytes random in
      join_dollars "pbkdf2_sha256" "390000" (services.urlsafe_b64encode salt)
        (services.urlsafe_b64encode (services.pbkdf2_hmac password salt 390000))

  abbrev pub compare_digests : String → Option (List ℕ) → Option (List ℕ) → Option ℕ → Bool
  compare_digests password (some salt) (some expected) (some iterations) =
      same_bytes (services.pbkdf2_hmac password salt iterations) expected
  compare_digests password _ _ _ = false

  abbrev pub verify_parts : String → List (List Char) → Bool
  verify_parts password (algorithm ∷ iterations ∷ salt ∷ expected ∷ []) =
      str_eq (of_list algorithm) "pbkdf2_sha256"
      && compare_digests password (services.urlsafe_b64decode (of_list salt))
          (services.urlsafe_b64decode (of_list expected)) (services.int_of (of_list iterations))
  verify_parts password _ = false

  unfoldable pub verify_password : String → String → Bool
  verify_password password encoded_hash = verify_parts password (split 3 (to_list encoded_hash))
