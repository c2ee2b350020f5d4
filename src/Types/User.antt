-- ===== src/Types/User.antt =====
-- src/types/user.rs: the roles.
use portfolio_server.Prelude.{
  Text, text, text_eq, if◌then◌else◌, Result, ok, err, ◌≡◌, ◌↔◌, arith, text_eq_iff,
}

pub data UserRole : Type 0 where
  admin user chat_user : UserRole

-- `UserRole::from_str`
unfoldable pub parse : Text → Result UserRole (Unit {0})
parse s =
    if text_eq s (text "admin")
    then ok admin
    else if text_eq s (text "user")
    then ok user
    else if text_eq s (text "chat_user")
    then ok chat_user
    else err tt

-- `Display`
unfoldable pub to_string : UserRole → Text
to_string admin = text "admin"
to_string user = text "user"
to_string chat_user = text "chat_user"

-- The text of a role is read as that role, and no other text is.
pub parse_iff : (s : Text) (role : UserRole) → (parse s ≡ ok role) ↔ (s ≡ to_string role)
unfolding parse to_string
parse_iff s role = ground (
  arith,
  text_eq_iff s (text "admin"),
  text_eq_iff s (text "user"),
  text_eq_iff s (text "chat_user"),
)
