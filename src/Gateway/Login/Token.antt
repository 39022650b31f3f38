-- ===== src/Gateway/Login/Token.antt =====
-- The token on its way through the client.
use ace.Prelude.{ℕ, ◌≡◌, ap₂, ◌++◌, take, drop}
use ace.Bytes.{Bytes, put_le, get_le, put_le-get_le, put_le-IsBytes}
use ace.Gateway.Login.{session_token, sm_login_ok, sm_play_ok, l2auth_token}

-- What the client sends to the game port: the numbers of SM_PLAY_OK, the second one first, then
-- those of SM_LOGIN_OK, then eight bytes of its own.
abbrev pub l2auth_payload : Bytes → Bytes → Bytes → Bytes
l2auth_payload login play own = take 4 (drop 4 play) ++ (take 4 play ++ (take 8 login ++ own))

echo : (v : ℕ) → put_le 4 (get_le (put_le 4 v)) ≡ put_le 4 v
echo v = put_le-get_le (put_le 4 v) (put_le-IsBytes 4 v)

-- The game port rebuilds exactly the token that the auth port has stored from what SM_LOGIN_OK and
-- SM_PLAY_OK told the client, for all account ids and random numbers.
pub l2auth_token-session_token :
    (account_id login_ok play_ok1 play_ok2 server_id : ℕ) (own : Bytes)
    → l2auth_token (
        l2auth_payload
          (sm_login_ok account_id login_ok)
          (sm_play_ok play_ok1 play_ok2 server_id)
          own)
      ≡ session_token account_id login_ok play_ok1 play_ok2
unfolding l2auth_token session_token sm_login_ok sm_play_ok
l2auth_token-session_token account_id login_ok play_ok1 play_ok2 server_id own =
    ap₂ ◌++◌ (echo account_id) (ap₂ ◌++◌ (echo login_ok) (ap₂ ◌++◌ (echo play_ok1) (echo play_ok2)))
