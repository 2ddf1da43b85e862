-- ===== src/Auth/Handlers.antt =====
-- The public endpoints of server/internal/auth/handler.go, and the responses of
-- server/internal/utils/http.go. A body that does not decode is `none`.
use at_app.Base.{ℕ, ◌||◌, ltb, ◌==◌, Option, none, some, [], ◌∷◌, String, if◌then◌else◌}
use at_app.Store.{Text}
use at_app.World.{World, Error, app, invalid_credentials, user_not_found, Result, ok, err, Svc}
use at_app.Auth.Tokens.{Jwt, Token, Secret, TokenPair}
use at_app.Auth.Accounts.{
  Bcrypt, UserDto, login, refresh, request_password_reset, confirm_password_reset,
}

-- WriteJSON and WriteError
pub data Response (A : Type 0) : Type 0 where
  json : ℕ → A → Response A
  error : ℕ → String → Response A

abbrev pub Handler : Type 0 → Type 0
Handler A = World → Response A × World

-- WriteServiceError: only an `AppError` shows its text.
unfoldable pub write_service_error : {A : Type 0} → Error → Response A
write_service_error (app status message) = error status message
write_service_error _ = error 500 "internal server error"

unfoldable pub bad_request : {A : Type 0} → String → Handler A
bad_request message w = (error 400 message, w)

-- A `utils.WriteError` that answers the request.
unfoldable pub refuse : {A : Type 0} → ℕ → String → Handler A
refuse status message w = (error status message, w)

-- `WriteJSON` of the result with a status, or `WriteServiceError`.
unfoldable pub answer_with : {A : Type 0} → ℕ → Result A → Response A
unfolding write_service_error
answer_with status (ok a) = json status a
answer_with status (err e) = write_service_error e

-- `errors.Is(err, ErrInvalidCredentials)` comes first.
unfoldable pub login_response : {A : Type 0} → Result A → Response A
unfolding write_service_error
login_response (ok a) = json 200 a
login_response (err invalid_credentials) = error 401 "invalid email or password"
login_response (err e) = write_service_error e

unfoldable pub refresh_response : {A : Type 0} → Result A → Response A
refresh_response (ok a) = json 200 a
refresh_response (err e) = error 401 "invalid or expired refresh token"

abbrev pub sent_message : String
sent_message = "if an account exists for that email, a password reset link has been sent"

unfoldable pub request_response : Result (Unit {0}) → Response String
request_response (ok u) = json 200 sent_message
request_response (err user_not_found) = json 200 sent_message
request_response (err e) = error 500 "failed to process password reset request"

unfoldable pub confirm_response : Result (Unit {0}) → Response String
confirm_response (ok u) = json 200 "password updated successfully"
confirm_response (err e) = error 400 "invalid or expired reset token"

-- The response to what a method has returned.
unfoldable pub respond : {A B : Type 0} → (Result A → Response B) → Svc A → Handler B
respond f m w = let (r, w') = m w in (f r, w')

-- `size` is the length of a text in bytes.
module _ (jwt : Jwt) (bcrypt : Bcrypt) (secret : Secret) (size : Text → ℕ) where
  unfoldable pub handle_login : Option (Text × Text) → Handler (TokenPair × UserDto)
  unfolding bad_request respond
  handle_login none = bad_request "invalid request body"
  handle_login (some (email, password)) =
      if email == 0 || password == 0
      then bad_request "email and password are required"
      else respond login_response (login jwt bcrypt secret email password)

  -- the bytes of the token
  unfoldable pub handle_refresh : Option Token → Handler TokenPair
  unfolding bad_request respond
  handle_refresh none = bad_request "invalid request body"
  handle_refresh (some []) = bad_request "refreshToken is required"
  handle_refresh (some (b ∷ bs)) = respond refresh_response (refresh jwt bcrypt secret (b ∷ bs))

  unfoldable pub handle_password_reset_request :
      (Text → Text → Token → Svc (Unit {0})) → Option Text → Handler String
  unfolding bad_request respond
  handle_password_reset_request send none = bad_request "invalid request body"
  handle_password_reset_request send (some email) =
      if email == 0
      then bad_request "email is required"
      else respond request_response (request_password_reset jwt bcrypt secret send email)

  unfoldable pub confirm_reset : Token → Text → Handler String
  unfolding bad_request respond
  confirm_reset token password =
      if password == 0
      then bad_request "token and newPassword are required"
      else if ltb (size password) 8
      then bad_request "newPassword must be at least 8 characters"
      else respond confirm_response (confirm_password_reset jwt bcrypt secret token password)

  unfoldable pub handle_password_reset_confirm : Option (Token × Text) → Handler String
  unfolding bad_request confirm_reset
  handle_password_reset_confirm none = bad_request "invalid request body"
  handle_password_reset_confirm (some ([], password)) =
      bad_request "token and newPassword are required"
  handle_password_reset_confirm (some ((b ∷ bs), password)) = confirm_reset (b ∷ bs) password
