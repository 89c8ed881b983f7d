-- ===== src/Threads/Encryption.antt =====
-- packages/threads-client/src/token-encryption.service.ts. AES-256-GCM, base64 and UTF-8 are those of
-- Node, here the record `Node`; a string is its list of character codes, a buffer its list of bytes.
pub mod RoundTrip
mod Tests
use thread_pilot.Common.{
  ℕ, zero, suc, ◌+◌, ◌-◌, ◌*◌, ◌/◌, ◌%◌, ◌≤◌, Bool, true, false, ◌&&◌, Option, none, some, List, [],
  ◌∷◌, ◌++◌, length, ltb, leb, ◌==◌, if◌then◌else◌,
}
use thread_pilot.Publishing.Text.{trim_start}

pub record Node : Type 0 where
  pub to_base64 : List ℕ → List ℕ
  pub from_base64 : List ℕ → List ℕ
  pub to_utf8 : List ℕ → List ℕ
  pub from_utf8 : List ℕ → List ℕ
  -- By key, initialisation vector and message: the tag and the ciphertext.
  pub seal : List ℕ → List ℕ → List ℕ → List ℕ × List ℕ
  -- By key, initialisation vector, tag and ciphertext; nothing where `final` throws.
  pub unseal : List ℕ → List ℕ → List ℕ → List ℕ → Option (List ℕ)

pub record Service : Type 0 where
  pub key : List ℕ
  pub key_version : ℕ

-- What `parseInt` answers.
pub data Parsed : Type 0 where
  not_a_number : Parsed
  plus minus : ℕ → Parsed

pub data DecryptError : Type 0 where
  invalid_format not_authentic : DecryptError
  wrong_version : Parsed → DecryptError

pub data Decrypted : Type 0 where
  plaintext : List ℕ → Decrypted
  threw : DecryptError → Decrypted

-- `subarray` from the start, and from an offset.
abbrev pub first : ℕ → List ℕ → List ℕ
first zero bs = []
first (suc n) [] = []
first (suc n) (b ∷ bs) = b ∷ first n bs

abbrev pub skip : ℕ → List ℕ → List ℕ
skip zero bs = bs
skip (suc n) [] = []
skip (suc n) (b ∷ bs) = skip n bs

-- The constructor, which throws unless the key has 32 bytes.
unfoldable pub new_service : Node → List ℕ → ℕ → Option Service
new_service e key_base64 key_version =
    if length (e.from_base64 key_base64) == 32
    then some (record { key = e.from_base64 key_base64; key_version = key_version })
    else none

-- A number in a template string: its digits before `after`. The number itself is fuel enough.
abbrev pub digits : ℕ → ℕ → List ℕ → List ℕ
digits zero n after = (b'0' + n % 10) ∷ after
digits (suc k) n after =
    let more = digits k (n / 10) ((b'0' + n % 10) ∷ after) in
    if ltb n 10 then (b'0' + n) ∷ after else more

-- `parseInt(text, 10)`.
abbrev pub is_digit : ℕ → Bool
is_digit c = leb b'0' c && leb c b'9'

abbrev pub digits_value : ℕ → List ℕ → ℕ
digits_value n [] = n
digits_value n (c ∷ cs) =
    let more = digits_value (n * 10 + (c - b'0')) cs in if is_digit c then more else n

abbrev pub unsigned : (ℕ → Parsed) → List ℕ → Parsed
unsigned sign [] = not_a_number
unsigned sign (c ∷ cs) = if is_digit c then sign (digits_value 0 (c ∷ cs)) else not_a_number

abbrev pub signed : List ℕ → Parsed
signed [] = not_a_number
signed (c ∷ cs) =
    if c == b'-'
    then unsigned minus cs
    else if c == b'+'
    then unsigned plus cs
    else unsigned plus (c ∷ cs)

abbrev pub parse_int : List ℕ → Parsed
parse_int text = signed (trim_start text)

abbrev pub is_version : ℕ → Parsed → Bool
is_version v not_a_number = false
is_version v (plus n) = n == v
is_version v (minus n) = n == 0 && v == 0

-- The text before the first colon and the text after it.
abbrev pub cons_version : ℕ → Option (List ℕ × List ℕ) → Option (List ℕ × List ℕ)
cons_version c none = none
cons_version c (some (version, payload)) = some (c ∷ version, payload)

unfoldable pub split_stored : List ℕ → Option (List ℕ × List ℕ)
split_stored [] = none
split_stored (c ∷ cs) = if c == b':' then some ([], cs) else cons_version c (split_stored cs)

module _ (e : Node) (s : Service) where
  abbrev pub sealed : List ℕ → List ℕ × List ℕ → List ℕ
  sealed iv (tag, ciphertext) = iv ++ (tag ++ ciphertext)

  -- With the initialisation vector that `randomBytes` drew.
  unfoldable pub encrypt : List ℕ → List ℕ → List ℕ
  encrypt iv text =
      digits s.key_version s.key_version
        (b':' ∷ e.to_base64 (sealed iv (e.seal s.key iv (e.to_utf8 text))))

  abbrev pub opened : Option (List ℕ) → Decrypted
  opened none = threw not_authentic
  opened (some message) = plaintext (e.from_utf8 message)

  abbrev pub open_combined : List ℕ → Decrypted
  open_combined combined =
      opened (e.unseal s.key (first 12 combined) (first 16 (skip 12 combined)) (skip 28 combined))

  abbrev pub decrypt_parts : Option (List ℕ × List ℕ) → Decrypted
  decrypt_parts none = threw invalid_format
  decrypt_parts (some (version, payload)) =
      if is_version s.key_version (parse_int version)
      then open_combined (e.from_base64 payload)
      else threw (wrong_version (parse_int version))

  unfoldable pub decrypt : List ℕ → Decrypted
  decrypt stored = decrypt_parts (split_stored stored)
