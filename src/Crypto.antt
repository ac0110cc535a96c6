-- ===== src/Crypto.antt =====
-- src/icrypto: encryption, the tokens of the tenants, and random keys. A Go string is here the list of
-- its bytes where the code converts it to bytes.
pub mod Base64
pub mod Aes
pub mod Rsa
pub mod KeyFiles
pub mod Tokens
pub mod RandomKeys
use pulsar_beam.Prelude.{ℕ, zero, suc, String, List, [], ◌∷◌, code}

abbrev pub Bytes : Type 0
Bytes = List ℕ

-- `[]byte(s)` of an ASCII text.
unfoldable pub ascii : String → Bytes
ascii String.[] = []
ascii (String.◌∷◌ c s) = code c ∷ ascii s

abbrev pub drop : ℕ → Bytes → Bytes
drop zero bytes = bytes
drop (suc n) [] = []
drop (suc n) (b ∷ bytes) = drop n bytes
