-- ===== src/Idempotency/Key.antt =====
-- src/idempotency/key.rs: `IdempotencyKey`, a text that its constructor has checked.
use portfolio_server.Prelude.{
  ℕ, ◌<◌, ◌≡◌, ◌↔◌, Text, text, len, is_empty, leb, if◌then◌else◌, [], ◌∷◌, Result, ok, err, arith,
}
use portfolio_server.Errors.Sql.{Anyhow, msg}

pub record IdempotencyKey : Type 0 where
  pub value : Text

abbrev pub max_length : ℕ
max_length = 50

-- `TryFrom<String>`
unfoldable pub try_from : Text → Result IdempotencyKey Anyhow
try_from s =
    if is_empty s
    then err (msg (text "The idempotency key cannot be empty."))
    else if leb max_length (len s)
    then err (msg (text "The idempotency key must be shorter than 50 characters"))
    else ok (record { value = s })

-- `From<IdempotencyKey> for String` and `AsRef<str>`
abbrev pub as_ref : IdempotencyKey → Text
as_ref k = k.value

-- Exactly the texts of 1 to 49 bytes are keys, and a key is read back as the text it was made of.
pub try_from_iff :
    (s : Text) (k : IdempotencyKey)
    → (try_from s ≡ ok k) ↔ ((as_ref k ≡ s) × (0 < len s) × (len s < max_length))
unfolding try_from len
try_from_iff [] k = ground arith
try_from_iff (c ∷ s) k = ground arith
