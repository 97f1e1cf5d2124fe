-- ===== src/Recovery/Crypto.antt =====
-- src/lib/recoveryCrypto.ts and src/lib/password.ts, without the hashes.
-- A text is the sequence of its code points. `toUpperCase` is given for the letters a to z and for
-- the other characters whose upper case is made of the letters A to Z.
pub mod Laws
use backend_v.Prelude.{
  ℕ, ◌+◌, ◌-◌, ◌*◌, ◌/◌, ◌%◌, ◌^◌, Bool, ◌&&◌, ◌||◌, not, true, false, Option, none, some, List, [],
  ◌∷◌, ◌++◌, map, nat_beq, ltb, leb, length, filter, any, if◌then◌else◌, String,
}
use backend_v.Prelude.Text.{codes}

abbrev pub Text : Type 0
Text = List ℕ

-- What a request's JSON holds where the code asks for a text.
pub data Unknown : Type 0 where
  some_text : Text → Unknown
  not_text : Unknown

-- The code units of a character.
abbrev pub units : ℕ → ℕ
units c = if ltb c 65_536 then 1 else 2

-- `text.length`
unfoldable pub text_length : Text → ℕ
text_length [] = 0
text_length (c ∷ s) = units c + text_length s

abbrev between : ℕ → ℕ → ℕ → Bool
between low high c = leb low c && leb c high

abbrev pub is_digit : ℕ → Bool
is_digit c = between 48 57 c

abbrev pub is_letter : ℕ → Bool
is_letter c = between 65 90 c || between 97 122 c

-- `CROCKFORD[i]`, for an index below 32.
unfoldable pub crockford : ℕ → ℕ
crockford i =
    if ltb i 10
    then 48 + i
    else (if ltb i 18
        then 55 + i
        else (if ltb i 20
            then 56 + i
            else (if ltb i 22 then 57 + i else (if ltb i 27 then 58 + i else 59 + i))))

-- `CODE_PATTERN`, for one character.
unfoldable pub is_code_char : ℕ → Bool
is_code_char c =
    is_digit c
    || (between 65 72 c
        || (between 74 75 c || (between 77 78 c || (between 80 84 c || between 86 90 c))))

-- The rounds of `while (bits >= 5)`, on fuel, with the bits that are left.
unfoldable pub emit : ℕ → ℕ → ℕ → Text × ℕ
emit ℕ.zero value bits = ([], bits)
emit (ℕ.suc fuel) value bits =
    let rest = emit fuel value (bits - 5) in
    if leb 5 bits then (crockford (value / 2 ^ (bits - 5) % 32) ∷ rest.0, rest.1) else ([], bits)

-- `value` and `bits` are those that the loop over the bytes has at this byte. There are at most 12
-- bits, so two rounds are enough.
unfoldable pub encode_from : ℕ → ℕ → List ℕ → Text
encode_from value bits [] = if ltb 0 bits then crockford (value * 2 ^ (5 - bits) % 32) ∷ [] else []
encode_from value bits (byte ∷ bytes) =
    let shifted = value * 256 + byte in
    let emitted = emit 2 shifted (bits + 8) in
    emitted.0 ++ encode_from (shifted % 2 ^ emitted.1) emitted.1 bytes

unfoldable pub encode_crockford : List ℕ → Text
unfolding encode_from
encode_crockford bytes = encode_from 0 0 bytes

-- `match(/.{4}/g)`
unfoldable pub groups_of_four : Text → List Text
groups_of_four (a ∷ b ∷ c ∷ d ∷ rest) = (a ∷ b ∷ c ∷ d ∷ []) ∷ groups_of_four rest
groups_of_four s = []

-- `join("-")`
unfoldable pub join_dashes : List Text → Text
join_dashes [] = []
join_dashes (s ∷ []) = s
join_dashes (s ∷ t ∷ rest) = s ++ 45 ∷ join_dashes (t ∷ rest)

-- The code of the random bytes.
unfoldable pub generate_recovery_code : List ℕ → Text
generate_recovery_code random_bytes = join_dashes (groups_of_four (encode_crockford random_bytes))

-- The upper case of a character.
unfoldable pub upper : ℕ → Text
upper c =
    if between 97 122 c
    then (c - 32) ∷ []
    else (if nat_beq c 223
        then 83 ∷ 83 ∷ []
        else (if nat_beq c 305
            then 73 ∷ []
            else (if nat_beq c 383
                then 83 ∷ []
                else (if nat_beq c 64_256
                    then 70 ∷ 70 ∷ []
                    else (if nat_beq c 64_257
                        then 70 ∷ 73 ∷ []
                        else (if nat_beq c 64_258
                            then 70 ∷ 76 ∷ []
                            else (if nat_beq c 64_259
                                then 70 ∷ 70 ∷ 73 ∷ []
                                else (if nat_beq c 64_260
                                    then 70 ∷ 70 ∷ 76 ∷ []
                                    else (if between 64_261 64_262 c
                                        then 83 ∷ 84 ∷ []
                                        else c ∷ [])))))))))

unfoldable pub to_upper_case : Text → Text
unfolding upper
to_upper_case [] = []
to_upper_case (c ∷ s) = upper c ++ to_upper_case s

-- `/[\s-]/`
unfoldable pub is_separator : ℕ → Bool
is_separator c =
    nat_beq c 45
    || (between 9 13 c
        || (nat_beq c 32
            || (nat_beq c 160
                || (nat_beq c 5_760
                    || (between 8_192 8_202 c
                        || (between 8_232 8_233 c
                            || (nat_beq c 8_239
                                || (nat_beq c 8_287
                                    || (nat_beq c 12_288 || nat_beq c 65_279)))))))))

-- The look-alikes: the letter O for 0, and I and L for 1.
unfoldable pub look_alike : ℕ → ℕ
look_alike c = if nat_beq c 79 then 48 else (if nat_beq c 73 || nat_beq c 76 then 49 else c)

unfoldable pub canonical : Text → Text
unfolding to_upper_case is_separator look_alike
canonical s = map look_alike (filter (λ c. not (is_separator c)) (to_upper_case s))

unfoldable pub normalize_recovery_code : Unknown → Option Text
unfolding canonical text_length is_code_char
normalize_recovery_code not_text = none
normalize_recovery_code (some_text s) =
    if ltb 64 (text_length s)
    then none
    else (if nat_beq (text_length (canonical s)) 32
          && not (any (λ c. not (is_code_char c)) (canonical s))
        then some (canonical s)
        else none)

-- `requirePepper`: whether it returns.
unfoldable pub has_pepper : Option String → Bool
unfolding text_length
has_pepper none = false
has_pepper (some pepper) = leb 32 (text_length (codes pepper))

abbrev is_token_char : ℕ → Bool
is_token_char c = is_letter c || (is_digit c || (nat_beq c 95 || nat_beq c 45))

unfoldable pub is_well_formed_grant_token : Unknown → Bool
unfolding text_length
is_well_formed_grant_token not_text = false
is_well_formed_grant_token (some_text s) =
    nat_beq (text_length s) 43 && not (any (λ c. not (is_token_char c)) s)

unfoldable pub is_password_strong_enough : Text → Bool
unfolding text_length
is_password_strong_enough password =
    leb 8 (text_length password) && (any is_letter password && any is_digit password)
