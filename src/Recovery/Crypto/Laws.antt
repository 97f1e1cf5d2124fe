-- ===== src/Recovery/Crypto/Laws.antt =====
-- A recovery code as it is shown, and as src/lib/recoveryCrypto.ts reads it back.
use backend_v.Prelude.{
  ℕ, ◌+◌, ◌-◌, ◌*◌, ◌/◌, ◌%◌, ◌^◌, ◌≤◌, ◌<◌, ◌≡◌, refl, ap, ◌∙◌, not, true, false, some, List, [],
  ◌∷◌, any, length, All, All-append, ltb, leb, arith, length-append, Bool-cases, inl, inr,
}
use backend_v.Recovery.Crypto.{
  Text, some_text, crockford, is_code_char, emit, encode_from, encode_crockford, groups_of_four,
  join_dashes, generate_recovery_code, upper, to_upper_case, is_separator, look_alike, canonical,
  normalize_recovery_code, text_length, units,
}

abbrev pub IsCodeChar : ℕ → Type 0
IsCodeChar c = is_code_char c ≡ true

crockford-IsCodeChar : (n : ℕ) → n < 32 → IsCodeChar (crockford n)
unfolding crockford is_code_char
crockford-IsCodeChar n h = ground arith

upper_code : (c : ℕ) → IsCodeChar c → upper c ≡ c ∷ []
unfolding upper is_code_char
upper_code c h = ground arith

separator_code : (c : ℕ) → IsCodeChar c → is_separator c ≡ false
unfolding is_separator is_code_char
separator_code c h = ground arith

look_alike_code : (c : ℕ) → IsCodeChar c → look_alike c ≡ c
unfolding look_alike is_code_char
look_alike_code c h = ground arith

units_code : (c : ℕ) → IsCodeChar c → units c ≡ 1
unfolding is_code_char
units_code c h = ground arith

emit-lem :
    (value bits : ℕ)
    → bits < 13
    → (5 * length (emit 2 value bits).0 + (emit 2 value bits).1 ≡ bits)
      × ((emit 2 value bits).1 < 5)
unfolding emit
emit-lem value bits h = ground arith

emit-All : (fuel value bits : ℕ) → All IsCodeChar (emit fuel value bits).0
unfolding emit
emit-All ℕ.zero value bits = tt
emit-All (ℕ.suc fuel) value bits = elim (Bool-cases (leb 5 bits)) [
  | inl more ↦ rw more (
    crockford-IsCodeChar (value / 2 ^ (bits - 5) % 32) (omega arith),
    emit-All fuel value (bits - 5),
  )
  | inr done ↦ rw done tt
]

encode_from-All : (value bits : ℕ) (bytes : List ℕ) → All IsCodeChar (encode_from value bits bytes)
unfolding encode_from
encode_from-All value bits [] = elim (Bool-cases (ltb 0 bits)) [
  | inl some_left ↦
      rw some_left (crockford-IsCodeChar (value * 2 ^ (5 - bits) % 32) (omega arith), tt)
  | inr none_left ↦ rw none_left tt
]
encode_from-All value bits (byte ∷ bytes) =
    let e = emit 2 (value * 256 + byte) (bits + 8) in
    All-append IsCodeChar e.0 (encode_from ((value * 256 + byte) % 2 ^ e.1) e.1 bytes)
      (emit-All 2 (value * 256 + byte) (bits + 8))
      (encode_from-All ((value * 256 + byte) % 2 ^ e.1) e.1 bytes)

-- Each character holds five bits, and the last one is filled up.
length-encode_from :
    (value bits : ℕ) (bytes : List ℕ)
    → bits < 5
    → (bits + 8 * length bytes ≤ 5 * length (encode_from value bits bytes))
      × (5 * length (encode_from value bits bytes) < bits + 8 * length bytes + 5)
unfolding encode_from
length-encode_from value bits [] h = elim (Bool-cases (ltb 0 bits)) [
  | inl some_left ↦
      let positive : 0 < bits = ground arith in rw some_left (omega arith, omega arith)
  | inr none_left ↦ rw none_left (ground arith, ground arith)
]
length-encode_from value bits (byte ∷ bytes) h =
    let shifted = value * 256 + byte in
    let e = emit 2 shifted (bits + 8) in
    let (sum, small) = emit-lem shifted (bits + 8) (omega arith) in
    let rest = encode_from (shifted % 2 ^ e.1) e.1 bytes in
    let (low, high) = length-encode_from (shifted % 2 ^ e.1) e.1 bytes small in
    rw (length-append e.0 rest) (omega (arith, sum, low), omega (arith, sum, high))

encoded_chars : (bytes : List ℕ) → All IsCodeChar (encode_crockford bytes)
unfolding encode_crockford
encoded_chars bytes = encode_from-All 0 0 bytes

-- The code of 20 bytes has 32 characters.
length-encode_crockford :
    (bytes : List ℕ) → length bytes ≡ 20 → length (encode_crockford bytes) ≡ 32
unfolding encode_crockford
length-encode_crockford bytes h =
    let (low, high) = length-encode_from 0 0 bytes (omega arith) in omega (arith, low, high, h)

canonical_code : (c : ℕ) (s : Text) → IsCodeChar c → canonical (c ∷ s) ≡ c ∷ canonical s
unfolding canonical to_upper_case
canonical_code c s h = rw (upper_code c h) (rw (separator_code c h) (rw (look_alike_code c h)))

canonical_dash : (s : Text) → canonical (45 ∷ s) ≡ canonical s
unfolding canonical to_upper_case upper is_separator
canonical_dash s = refl

canonical_codes : (s : Text) → All IsCodeChar s → canonical s ≡ s
unfolding canonical
canonical_codes [] h = refl
canonical_codes (c ∷ s) h = canonical_code c s h.0 ∙ ap (λ t. c ∷ t) (canonical_codes s h.1)

four_codes :
    (a b c d : ℕ) (s : Text)
    → IsCodeChar a
    → IsCodeChar b
    → IsCodeChar c
    → IsCodeChar d
    → canonical (a ∷ b ∷ c ∷ d ∷ s) ≡ a ∷ b ∷ c ∷ d ∷ canonical s
four_codes a b c d s ha hb hc hd =
    canonical_code a (b ∷ c ∷ d ∷ s) ha
    ∙ ap (λ t. a ∷ t) (canonical_code b (c ∷ d ∷ s) hb)
    ∙ ap (λ t. a ∷ b ∷ t) (canonical_code c (d ∷ s) hc)
    ∙ ap (λ t. a ∷ b ∷ c ∷ t) (canonical_code d s hd)

module _ (a b c d : ℕ) (ha : IsCodeChar a) (hb : IsCodeChar b) (hc : IsCodeChar c)
    (hd : IsCodeChar d) where
  -- The dash before the next group is read over.
  canonical_group :
      (gs : List Text)
      → canonical (join_dashes ((a ∷ b ∷ c ∷ d ∷ []) ∷ gs))
        ≡ a ∷ b ∷ c ∷ d ∷ canonical (join_dashes gs)
  unfolding join_dashes
  canonical_group [] = four_codes a b c d [] ha hb hc hd
  canonical_group (t ∷ gs) =
      four_codes a b c d (45 ∷ join_dashes (t ∷ gs)) ha hb hc hd
      ∙ ap (λ s. a ∷ b ∷ c ∷ d ∷ s) (canonical_dash (join_dashes (t ∷ gs)))

  length_group :
      (gs : List Text)
      → text_length (join_dashes ((a ∷ b ∷ c ∷ d ∷ []) ∷ gs)) ≤ 5 + text_length (join_dashes gs)
  unfolding join_dashes text_length
  length_group [] =
      omega (arith, units_code a ha, units_code b hb, units_code c hc, units_code d hd)
  length_group (t ∷ gs) =
      omega (arith, units_code a ha, units_code b hb, units_code c hc, units_code d hd)

-- A code in groups of four, as it is shown: it reads as it was, and is five characters a group.
shown :
    (k : ℕ) (s : Text)
    → length s ≡ 4 * k
    → All IsCodeChar s
    → (canonical (join_dashes (groups_of_four s)) ≡ s)
      × (text_length (join_dashes (groups_of_four s)) ≤ 5 * k)
unfolding join_dashes groups_of_four text_length
shown ℕ.zero [] e h = (canonical_codes [] tt, omega arith)
shown ℕ.zero (c ∷ s) e h = absurd (omega (arith, e))
shown (ℕ.suc k) [] e h = absurd (omega (arith, e))
shown (ℕ.suc k) (a ∷ []) e h = absurd (omega (arith, e))
shown (ℕ.suc k) (a ∷ b ∷ []) e h = absurd (omega (arith, e))
shown (ℕ.suc k) (a ∷ b ∷ c ∷ []) e h = absurd (omega (arith, e))
shown (ℕ.suc k) (a ∷ b ∷ c ∷ d ∷ s) e h =
    let (ha, (hb, (hc, (hd, rest)))) = h in
    let (reads, short) = shown k s (omega (arith, e)) rest in
    (
      canonical_group a b c d ha hb hc hd (groups_of_four s) ∙ ap (λ t. a ∷ b ∷ c ∷ d ∷ t) reads,
      omega (arith, short, length_group a b c d ha hb hc hd (groups_of_four s)),
    )

text_length_codes : (s : Text) → All IsCodeChar s → text_length s ≡ length s
unfolding text_length
text_length_codes [] h = refl
text_length_codes (c ∷ s) h = omega (arith, units_code c h.0, text_length_codes s h.1)

All-code_chars : (s : Text) → All IsCodeChar s → any (λ c. not (is_code_char c)) s ≡ false
All-code_chars [] h = refl
All-code_chars (c ∷ s) h = rw (h.0, All-code_chars s h.1)

-- A freshly generated code is always read back: what is shown of 20 random bytes normalizes to
-- their encoding, and never to nothing.
pub normalize_recovery_code-generate_recovery_code :
    (random_bytes : List ℕ)
    → length random_bytes ≡ 20
    → normalize_recovery_code (some_text (generate_recovery_code random_bytes))
      ≡ some (encode_crockford random_bytes)
unfolding normalize_recovery_code generate_recovery_code
normalize_recovery_code-generate_recovery_code random_bytes h =
    let code = encode_crockford random_bytes in
    let chars = encoded_chars random_bytes in
    let long = length-encode_crockford random_bytes h in
    let (reads, short) = shown 8 code long chars in
    let fits : ltb 64 (text_length (join_dashes (groups_of_four code))) ≡ false =
      ground (arith, short) in
    let size : text_length code ≡ 32 = text_length_codes code chars ∙ long in
    rw fits (rw reads (rw (size, All-code_chars code chars)))
