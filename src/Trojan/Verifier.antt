-- ===== src/Trojan/Verifier.antt =====
-- crates/daemon/src/trojan.rs: `TrojanVerifier`, the digest of a password in hexadecimal. SHA-224 is a
-- parameter.
use commeatus.Prelude.{ℕ, ◌+◌, ◌-◌, ◌/◌, ◌%◌, ◌||◌, [], ◌∷◌, ltb, if◌then◌else◌, Bytes, length}
use commeatus.Text.Hostname.{is_empty}
use commeatus.Io.{Result, ok, err, invalid_input}

abbrev pub max_trojan_password_bytes : ℕ
max_trojan_password_bytes = 1024

-- `HEX[digit]`, for a digit below 16
unfoldable pub hex_digit : ℕ → ℕ
hex_digit d = if ltb d 10 then b'0' + d else b'a' + (d - 10)

unfoldable pub hex : Bytes → Bytes
hex [] = []
hex (byte ∷ rest) = hex_digit (byte / 16) ∷ hex_digit (byte % 16) ∷ hex rest

-- `TrojanVerifier::new`
unfoldable pub new_verifier : (Bytes → Bytes) → Bytes → Result Bytes
new_verifier sha224 password =
    if is_empty password || ltb max_trojan_password_bytes (length password)
    then err invalid_input
    else ok (hex (sha224 password))
