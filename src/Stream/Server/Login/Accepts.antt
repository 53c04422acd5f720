-- ===== src/Stream/Server/Login/Accepts.antt =====
-- Which logins pass.
use fmesh_cli.Common.{
  ℕ, zero, suc, ◌+◌, ◌≤◌, ◌<◌, ◌++◌, ◌≡◌, refl, sym, ap, ◌∙◌, ◌↔◌, Bool, true, false, [], ◌∷◌,
  Bytes, codes, length, length-append, length-take, take, drop, ◌==◌, ◌=?◌, =?_iff, =?→eq, arith,
  Bool-cases, inl, inr,
}
use fmesh_cli.Stream.Server.Login.{auth_line, auth_cmd, c_string, strip_last, auth_room, login}

abbrev pub NoNul : Bytes → Type 0
NoNul [] = Unit {0}
NoNul (b ∷ bs) = (0 < b) × NoNul bs

abbrev pub ends_in : ℕ → Bytes → Bool
ends_in c [] = false
ends_in c (b ∷ []) = b == c
ends_in c (b ∷ d ∷ bs) = ends_in c (d ∷ bs)

pub NoNul-append : (xs ys : Bytes) → NoNul xs → NoNul ys → NoNul (xs ++ ys)
NoNul-append [] ys hx hy = hy
NoNul-append (x ∷ xs) ys hx hy = (hx.0, NoNul-append xs ys hx.1 hy)

pub c_string-NoNul : (xs : Bytes) → NoNul xs → c_string xs ≡ xs
unfolding c_string
c_string-NoNul [] h = refl
c_string-NoNul (b ∷ bs) h = ground (arith, c_string-NoNul bs)

pub strip_last-append : (c : ℕ) (xs : Bytes) → strip_last c (xs ++ (c ∷ [])) ≡ xs
unfolding strip_last
strip_last-append c [] = ground arith
strip_last-append c (b ∷ []) = ground arith
strip_last-append c (b ∷ d ∷ bs) = ap (b ∷◌) (strip_last-append c (d ∷ bs))

strip_last-keep : (c : ℕ) (xs : Bytes) → ends_in c xs ≡ false → strip_last c xs ≡ xs
unfolding strip_last
strip_last-keep c [] h = refl
strip_last-keep c (b ∷ []) h = ground arith
strip_last-keep c (b ∷ d ∷ bs) h = ap (b ∷◌) (strip_last-keep c (d ∷ bs) h)

length-strip_last-le : (c : ℕ) (xs : Bytes) → length (strip_last c xs) ≤ length xs
unfolding strip_last
length-strip_last-le c [] = omega arith
length-strip_last-le c (b ∷ []) = ground arith
length-strip_last-le c (b ∷ d ∷ bs) = omega (arith, length-strip_last-le c (d ∷ bs))

length-c_string-le : (xs : Bytes) → length (c_string xs) ≤ length xs
unfolding c_string
length-c_string-le [] = omega arith
length-c_string-le (b ∷ bs) = ground (arith, length-c_string-le bs)

take_all : (n : ℕ) (xs : Bytes) → length xs ≤ n → take n xs ≡ xs
take_all zero [] h = refl
take_all zero (x ∷ xs) h = absurd (omega arith)
take_all (suc n) [] h = refl
take_all (suc n) (x ∷ xs) h = ap (x ∷◌) (take_all n xs (omega arith))

ends_in-append :
    (c : ℕ) (xs : Bytes) (d : ℕ) (ys : Bytes) → ends_in c (xs ++ (d ∷ ys)) ≡ ends_in c (d ∷ ys)
ends_in-append c [] d ys = refl
ends_in-append c (x ∷ []) d ys = refl
ends_in-append c (x ∷ y ∷ xs) d ys = ends_in-append c (y ∷ xs) d ys

length-auth_line :
    (user password : Bytes) → length (auth_line user password) ≡ 6 + length user + length password
unfolding auth_line
length-auth_line user password = omega (arith, length-append user (b' ' ∷ password))

-- The credentials of a client that can be told apart from the end of its line.
pub record Plain (user password : Bytes) : Type 0 where
  pub user_bytes : NoNul user
  pub password_bytes : NoNul password
  pub no_cr : ends_in b'\r' password ≡ false
  pub short : length user + length password ≤ 248

cr_of_password :
    (password : Bytes) → ends_in b'\r' password ≡ false → ends_in b'\r' (b' ' ∷ password) ≡ false
cr_of_password [] h = refl
cr_of_password (b ∷ bs) h = h

auth_line-NoNul :
    (user password : Bytes) → NoNul user → NoNul password → NoNul (auth_line user password)
unfolding auth_line
auth_line-NoNul user password hu hp =
    NoNul-append (codes "AUTH ") (user ++ (b' ' ∷ password)) (omega arith)
      (NoNul-append user (b' ' ∷ password) hu (omega arith, hp))

auth_line-cr :
    (user password : Bytes)
    → ends_in b'\r' password ≡ false
    → ends_in b'\r' (auth_line user password) ≡ false
unfolding auth_line
auth_line-cr user password h =
    ends_in-append b'\r' (codes "AUTH " ++ user) b' ' password ∙ cr_of_password password h

-- What the server compares with its own line.
seen : Bytes → Bytes → Bytes
seen user password =
    strip_last b'\r' (strip_last b'\n' (c_string (take auth_room (auth_cmd user password))))

seen-Plain :
    (user password : Bytes) → Plain user password → seen user password ≡ auth_line user password
unfolding seen auth_cmd
seen-Plain user password p =
    let line : Bytes = auth_line user password in
    let fits : length (line ++ (b'\n' ∷ [])) ≤ auth_room =
      omega (arith, length-append line (b'\n' ∷ []), length-auth_line user password) in
    let clean : NoNul (line ++ (b'\n' ∷ [])) =
      NoNul-append line (b'\n' ∷ []) (auth_line-NoNul user password p.user_bytes p.password_bytes)
        (omega arith) in
    rw
      (
        take_all auth_room (line ++ (b'\n' ∷ [])) fits,
        c_string-NoNul (line ++ (b'\n' ∷ [])) clean,
        strip_last-append b'\n' line,
      )
      (strip_last-keep b'\r' line (auth_line-cr user password p.no_cr))

login_lem :
    (user password client_user client_password : Bytes)
    → login user password client_user client_password
      ≡ (seen client_user client_password =? auth_line user password)
unfolding login seen
login_lem user password client_user client_password = refl

auth_line_iff :
    (u p v q : Bytes) → (auth_line u p ≡ auth_line v q) ↔ (u ++ (b' ' ∷ p) ≡ v ++ (b' ' ∷ q))
unfolding auth_line
auth_line_iff u p v q = (ap (drop 5), ap (codes "AUTH " ++◌))

-- A client with plain credentials, its line read in one read, is let in exactly if its user name,
-- a space and its password spell the server's.
pub login_iff :
    (user password client_user client_password : Bytes)
    → Plain client_user client_password
    → (login user password client_user client_password ≡ true)
      ↔ (client_user ++ (b' ' ∷ client_password) ≡ user ++ (b' ' ∷ password))
login_iff user password client_user client_password p =
    rw
      (
        login_lem user password client_user client_password,
        seen-Plain client_user client_password p,
      )
      (let same = =?_iff (auth_line client_user client_password) (auth_line user password) in
        let spelt = auth_line_iff client_user client_password user password in
        (λ h. spelt.0 (same.0 h), λ h. same.1 (spelt.1 h)))

length-seen-le : (user password : Bytes) → length (seen user password) ≤ 255
unfolding seen
length-seen-le user password =
    let read : Bytes = take auth_room (auth_cmd user password) in
    omega (
      arith,
      length-strip_last-le b'\r' (strip_last b'\n' (c_string read)),
      length-strip_last-le b'\n' (c_string read),
      length-c_string-le read,
      length-take auth_room (auth_cmd user password),
    )

-- With 250 bytes of credentials or more the line does not fit one read: even the right ones fail.
pub long_credentials_fail :
    (user password : Bytes)
    → 250 ≤ length user + length password
    → login user password user password ≡ false
long_credentials_fail user password h = elim (Bool-cases (login user password user password)) [
  | inl pass ↦ absurd (
      omega (
        arith,
        ap length (
            =?→eq (seen user password) (auth_line user password)
              (sym (login_lem user password user password) ∙ pass)),
        length-auth_line user password,
        length-seen-le user password,
      ))
  | inr fail ↦ fail
]
