-- ===== src/Stream/Server/Login.antt =====
-- The login line: StreamClient::start writes it, the thread of StreamServer::accept_loop checks it.
pub mod Accepts
use fmesh_cli.Common.{
  ℕ, zero, suc, ◌+◌, ◌≤◌, ◌<◌, ◌++◌, ◌≡◌, refl, sym, ap, ◌∙◌, ◌↔◌, Bool, true, false, ◌&&◌, not,
  List, [], ◌∷◌, Bytes, codes, length, length-append, take, ◌==◌, ◌=?◌, =?_iff, =?→eq, =?_refl,
  if◌then◌else◌, arith, append_assoc, Bool-cases, inl, inr,
}

-- "AUTH " + user + " " + password
pub auth_line : Bytes → Bytes → Bytes
auth_line user password = codes "AUTH " ++ (user ++ (codes " " ++ password))

-- What the client writes.
pub auth_cmd : Bytes → Bytes → Bytes
auth_cmd user password = auth_line user password ++ (b'\n' ∷ [])

-- A C string ends at its first NUL.
pub c_string : Bytes → Bytes
c_string [] = []
c_string (b ∷ bs) = if b == 0 then [] else b ∷ c_string bs

-- `if (!s.empty() && s.back() == c) s.pop_back();`
pub strip_last : ℕ → Bytes → Bytes
strip_last c [] = []
strip_last c (b ∷ []) = if b == c then [] else b ∷ []
strip_last c (b ∷ d ∷ bs) = b ∷ strip_last c (d ∷ bs)

-- `sizeof(auth_buf) - 1`: what one read returns at most.
abbrev pub auth_room : ℕ
auth_room = 255

-- The check of what was read; nothing read is a refusal.
pub auth_ok : Bytes → Bytes → Bytes → Bool
unfolding c_string strip_last auth_line
auth_ok user password [] = false
auth_ok user password (b ∷ bs) =
    let line = strip_last b'\r' (strip_last b'\n' (c_string (b ∷ bs))) in
    line =? auth_line user password

-- The line of a client, as the server reads it in one read, against the server's credentials.
pub login : (user password client_user client_password : Bytes) → Bool
unfolding auth_ok auth_cmd
login user password client_user client_password =
    auth_ok user password (take auth_room (auth_cmd client_user client_password))
