-- ===== src/Threads/Encryption/Tests.antt =====
-- A service of key version 12, with a cipher that copies the message and tags with zeros.
use thread_pilot.Common.{ℕ, zero, suc, ◌≡◌, refl, some, List, [], ◌∷◌}
use thread_pilot.Threads.Encryption.{Node, Service, plaintext, encrypt, decrypt}
use thread_pilot.Threads.Encryption.RoundTrip.{decrypt-encrypt}

abbrev zeros : ℕ → List ℕ
zeros zero = []
zeros (suc n) = 0 ∷ zeros n

abbrev node : Node
node = record {
  to_base64 = λ bs. bs;
  from_base64 = λ bs. bs;
  to_utf8 = λ cs. cs;
  from_utf8 = λ bs. bs;
  seal = λ k iv m. (zeros 16, m);
  unseal = λ k iv tag c. some c;
}

abbrev service : Service
service = record { key = zeros 32; key_version = 12 }

decrypt-encrypt_example :
    decrypt node service (encrypt node service (zeros 12) (b'h' ∷ b':' ∷ []))
    ≡ plaintext (b'h' ∷ b':' ∷ [])
decrypt-encrypt_example =
    decrypt-encrypt node service service (zeros 12) (b'h' ∷ b':' ∷ []) refl (λ e. refl)
      (λ k v m. refl) (λ k v m. refl) (λ bs. refl) refl
