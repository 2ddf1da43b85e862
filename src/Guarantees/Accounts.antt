-- ===== src/Guarantees/Accounts.antt =====
-- Login and password resets (server/internal/auth/service.go).
use at_app.Base.{◌≡◌}
use at_app.Store.{Text}
use at_app.World.{World, ok}
use at_app.Auth.Tokens.{Jwt, Token, Secret, TokenPair}
use at_app.Auth.Accounts.{Bcrypt, UserDto, login, confirm_password_reset}
use at_app.Auth.Logins.{LoggedIn, PasswordSet, login-Ends, confirm_password_reset-Ends}

-- When `Login` returns tokens: the first user with the email has the password, the tokens are
-- issued for that user's identifier, role and college, which the result repeats, and the database
-- is unchanged.
pub login-LoggedIn :
    (jwt : Jwt) (bcrypt : Bcrypt) (secret : Secret) (email password : Text) (w : World)
    (r : TokenPair × UserDto)
    → (login jwt bcrypt secret email password w).0 ≡ ok r
    → LoggedIn jwt bcrypt secret email password w r (login jwt bcrypt secret email password w).1
login-LoggedIn jwt bcrypt secret email password w r h =
    (login-Ends jwt bcrypt secret email password w).at r h

-- When `ConfirmPasswordReset` succeeds: the token was valid as a reset token, and a user with its
-- identifier has a hash of the new password.
pub confirm_password_reset-PasswordSet :
    (jwt : Jwt) (bcrypt : Bcrypt) (secret : Secret) (token : Token) (password : Text) (w : World)
    → (confirm_password_reset jwt bcrypt secret token password w).0 ≡ ok tt
    → PasswordSet jwt bcrypt secret token password w
        (confirm_password_reset jwt bcrypt secret token password w).1
confirm_password_reset-PasswordSet jwt bcrypt secret token password w h =
    (confirm_password_reset-Ends jwt bcrypt secret token password w).at tt h
