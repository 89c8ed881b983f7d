-- ===== src/Threads/Encryption/RoundTrip.antt =====
-- Decryption of what was encrypted.
use thread_pilot.Common.{
  ℕ, zero, suc, ◌+◌, ◌/◌, ◌%◌, ◌≤◌, ◌≡◌, ◌≢◌, refl, ap, ◌∙◌, true, some, List, [], ◌∷◌, ◌++◌, ◌==◌,
  All, arith, Bool-cases, ltb, ==_iff, sym, inl, inr, if◌then◌else◌, length,
}
use thread_pilot.Publishing.Text.{trim_start, is_space}
use thread_pilot.Threads.Encryption.{
  Node, Service, plus, plaintext, threw, wrong_version, first, skip, digits, digits_value, is_digit,
  parse_int, split_stored, encrypt, decrypt, sealed, opened, open_combined,
}

-- Reading the digits of `n` before `after` is reading `after` from `n` on.
digits_value-digits :
    (k n : ℕ) (after : List ℕ) → n ≤ k → digits_value 0 (digits k n after) ≡ digits_value n after
digits_value-digits zero n after le = ground arith
digits_value-digits (suc k) n after le =
    let rest = digits_value-digits k (n / 10) ((b'0' + n % 10) ∷ after) in ground (arith, rest)

abbrev AreDigits : List ℕ → Type 0
AreDigits cs = All (λ c. is_digit c ≡ true) cs

digits-AreDigits : (k n : ℕ) (after : List ℕ) → AreDigits after → AreDigits (digits k n after)
digits-AreDigits zero n after h = (ground arith, h)
digits-AreDigits (suc k) n after h = elim (Bool-cases (ltb n 10)) [
  | inl small ↦ rw small (ground arith, h)
  | inr large ↦ rw large (digits-AreDigits k (n / 10) ((b'0' + n % 10) ∷ after) (ground arith, h))
]

digits-++ : (k n : ℕ) (after rest : List ℕ) → digits k n (after ++ rest) ≡ digits k n after ++ rest
digits-++ zero n after rest = refl
digits-++ (suc k) n after rest =
    let more = digits-++ k (n / 10) ((b'0' + n % 10) ∷ after) rest in ground (arith, more)

digits-ne : (k n : ℕ) (after : List ℕ) → digits k n after ≢ []
digits-ne zero n after h = ground arith
digits-ne (suc k) n after h =
    let more = digits-ne k (n / 10) ((b'0' + n % 10) ∷ after) in ground (arith, more)

split_stored-++ :
    (version rest : List ℕ)
    → AreDigits version
    → split_stored (version ++ b':' ∷ rest) ≡ some (version, rest)
unfolding split_stored
split_stored-++ [] rest h = refl
split_stored-++ (c ∷ cs) rest h =
    let more = split_stored-++ cs rest h.1 in let digit = h.0 in ground (arith, more, digit)

parse_int-AreDigits :
    (cs : List ℕ) → AreDigits cs → cs ≢ [] → parse_int cs ≡ plus (digits_value 0 cs)
unfolding trim_start is_space
parse_int-AreDigits [] h ne = absurd (ne refl)
parse_int-AreDigits (c ∷ cs) h ne = let digit = h.0 in ground (arith, digit)

first-++ : (n : ℕ) (bs rest : List ℕ) → length bs ≡ n → first n (bs ++ rest) ≡ bs
first-++ zero [] rest h = refl
first-++ zero (b ∷ bs) rest h = absurd (let no : ⊥ = omega arith in no)
first-++ (suc n) [] rest h = absurd (let no : ⊥ = omega arith in no)
first-++ (suc n) (b ∷ bs) rest h = ap (λ xs. b ∷ xs) (first-++ n bs rest (omega arith))

skip-++ : (n : ℕ) (bs rest : List ℕ) → length bs ≡ n → skip n (bs ++ rest) ≡ rest
skip-++ zero [] rest h = refl
skip-++ zero (b ∷ bs) rest h = absurd (let no : ⊥ = omega arith in no)
skip-++ (suc n) [] rest h = absurd (let no : ⊥ = omega arith in no)
skip-++ (suc n) (b ∷ bs) rest h = skip-++ n bs rest (omega arith)

skip-nil : (n : ℕ) → skip n [] ≡ []
skip-nil zero = refl
skip-nil (suc n) = refl

skip-skip : (m n : ℕ) (bs : List ℕ) → skip (m + n) bs ≡ skip n (skip m bs)
skip-skip zero n bs = ap (λ k. skip k bs) (let same : 0 + n ≡ n = omega arith in same)
skip-skip (suc m) n [] = skip-nil (suc m + n) ∙ sym (skip-nil n)
skip-skip (suc m) n (b ∷ bs) =
    ap (λ k. skip k (b ∷ bs)) (let next : suc m + n ≡ suc (m + n) = omega arith in next)
    ∙ skip-skip m n bs

parse_int-digits : (n : ℕ) → parse_int (digits n n []) ≡ plus n
parse_int-digits n =
    parse_int-AreDigits _ (digits-AreDigits n n [] tt) (digits-ne n n [])
    ∙ ap plus (digits_value-digits n n [] (omega arith))

split_stored-encrypt :
    (e : Node) (s : Service) (iv text : List ℕ)
    → split_stored (encrypt e s iv text)
      ≡ some (
        digits s.key_version s.key_version [],
        e.to_base64 (sealed e s iv (e.seal s.key iv (e.to_utf8 text))),
      )
unfolding encrypt
split_stored-encrypt e s iv text =
    let n = s.key_version in
    ap split_stored (digits-++ n n [] _)
    ∙ split_stored-++ (digits n n []) _ (digits-AreDigits n n [] tt)

-- Where the tag has 16 bytes and the vector 12, the two and the ciphertext are found again.
open_combined-sealed :
    (e : Node) (s : Service) (iv tag ciphertext : List ℕ)
    → length iv ≡ 12
    → length tag ≡ 16
    → open_combined e s (sealed e s iv (tag, ciphertext))
      ≡ opened e s (e.unseal s.key iv tag ciphertext)
open_combined-sealed e s iv tag ciphertext twelve sixteen =
    let after_iv = skip-++ 12 iv (tag ++ ciphertext) twelve in
    let at_28 =
      skip-skip 12 16 (iv ++ (tag ++ ciphertext))
      ∙ ap (skip 16) after_iv
      ∙ skip-++ 16 tag ciphertext sixteen in
    let its_tag = ap (first 16) after_iv ∙ first-++ 16 tag ciphertext sixteen in
    rw (first-++ 12 iv (tag ++ ciphertext) twelve) (rw its_tag (rw at_28 refl))

-- With a vector of 12 bytes, and keys that their versions name: what one service encrypted, another
-- of the same key version decrypts to the same text, and one of another version refuses, naming the
-- version it found. AES-256-GCM makes tags of 16 bytes and opens what it sealed, base64 decodes what
-- it encoded, and the text is one that UTF-8 gives back.
pub decrypt-encrypt :
    (e : Node) (s s' : Service) (iv text : List ℕ)
    → length iv ≡ 12
    → (s.key_version ≡ s'.key_version → s'.key ≡ s.key)
    → ((key v message : List ℕ) → length (e.seal key v message).0 ≡ 16)
    → ((key v message : List ℕ)
        → e.unseal key v (e.seal key v message).0 (e.seal key v message).1 ≡ some message)
    → ((bytes : List ℕ) → e.from_base64 (e.to_base64 bytes) ≡ bytes)
    → e.from_utf8 (e.to_utf8 text) ≡ text
    → decrypt e s' (encrypt e s iv text) ≡ (
        if s.key_version == s'.key_version
        then plaintext text
        else threw (wrong_version (plus s.key_version)))
unfolding decrypt
decrypt-encrypt e s s' iv text twelve named sixteen opens base64 utf8 =
    rw (split_stored-encrypt e s iv text) (
      rw (parse_int-digits s.key_version) (elim (Bool-cases (s.key_version == s'.key_version)) [
        | inl same ↦
            let message = e.to_utf8 text in
            let (tag, ciphertext) = e.seal s.key iv message in
            let its_key = named ((==_iff s.key_version s'.key_version).0 same) in
            rw same (
              ap (open_combined e s') (base64 _)
              ∙ open_combined-sealed e s' iv tag ciphertext twelve (sixteen s.key iv message)
              ∙ ap (opened e s')
                  (ap (λ k. e.unseal k iv tag ciphertext) its_key ∙ opens s.key iv message)
              ∙ ap plaintext utf8)
        | inr other ↦ rw other refl
      ]))
