-- ===== src/Tests/Colleges.antt =====
-- The theorems on new colleges, on the traffic of two colleges, and on whole HTTP requests.
use at_app.Base.{ℕ, true, Option, some, List, [], ◌∷◌, ◌≡◌, ◌⊎◌, refl}
use at_app.Store.{Uuid}
use at_app.Store.Rls.{outside}
use at_app.Store.Inside.{inside}
use at_app.World.{World}
use at_app.Auth.Tokens.{Claims}
use at_app.Admin.Import.{Row}
use at_app.Admin.Imported.{Imported}
use at_app.Tenant.Uuids.{
  Bytes, version_byte, variant_byte, set_bits, hex_digit, hex, drop, take, format_uuid, new_uuid_v4,
  IsVersion4, new_uuid_v4-IsVersion4,
}
use at_app.Tenant.Colleges.{CreatedCollege}
use at_app.Guarantees.Traffic.{
  creates_college, checks_in, serve, serves, here, next, serve-outside, Reach-inside,
}
use at_app.Gateway.Access.{Bytes as Header}
use at_app.Endpoints.Route.{get_courses, answer_request}
use at_app.Guarantees.Endpoints.{Authorized, answer_request-Authorized}
use at_app.Tests.Fixtures.{shown_code, floats, unmarshal, noon}
use at_app.Tests.Tokens.{jwt, bcrypt}

abbrev uuid_of : List ℕ → Uuid
uuid_of text = 900

abbrev bytes : Bytes
bytes = 1 ∷ 2 ∷ 3 ∷ 4 ∷ 5 ∷ 6 ∷ 255 ∷ 8 ∷ 255 ∷ 10 ∷ 11 ∷ 12 ∷ 13 ∷ 14 ∷ 15 ∷ 16 ∷ []

new_uuid_v4-IsVersion4_example :
    (uuid : List ℕ) × (new_uuid_v4 (some bytes) ≡ some uuid) × IsVersion4 uuid
new_uuid_v4-IsVersion4_example = new_uuid_v4-IsVersion4 1 2 3 4 5 6 255 8 255 10 11 12 13 14 15 16

abbrev rand : ℕ → Option Bytes
rand n = some bytes

abbrev campus : CreatedCollege
campus = record { id = 900; name = 44; admin_user_id = 106 }

abbrev checked : World
checked = serve floats unmarshal bcrypt jwt 9 uuid_of rand 1 (checks_in 20 shown_code 60 1 1) noon

serve-outside_example : outside 1 checked.db ≡ outside 1 noon.db
serve-outside_example =
    serve-outside floats unmarshal bcrypt jwt 9 uuid_of rand 1 (checks_in 20 shown_code 60 1 1) noon
      refl

Reach-inside_example :
    inside 1
      (serve floats unmarshal bcrypt jwt 9 uuid_of rand 2 (creates_college 44 45 46 47) noon).db
    ≡ inside 1 noon.db
unfolding version_byte variant_byte set_bits hex_digit hex drop take format_uuid new_uuid_v4
Reach-inside_example =
    Reach-inside floats unmarshal bcrypt jwt 9 uuid_of rand 1 refl
      (next here (serves 2 (creates_college 44 45 46 47) noon refl))

-- `Bearer ` and a student's token
abbrev header : Header
header = 66 ∷ 101 ∷ 97 ∷ 114 ∷ 101 ∷ 114 ∷ 32 ∷ 0 ∷ 9 ∷ 20 ∷ 2 ∷ 1 ∷ 0 ∷ 44100 ∷ 43200 ∷ 20 ∷ []

abbrev answered : ℕ × World
answered = answer_request floats unmarshal bcrypt (λ a b. true) jwt 9 header get_courses noon

answer_request-Authorized_example :
    (((answered.0 ≡ 401) ⊎ (answered.0 ≡ 403)) × (answered.1 ≡ noon))
    ⊎ ((c : Claims) × Authorized jwt 9 header 43200 get_courses c
        × (outside c.college_id answered.1.db ≡ outside c.college_id noon.db))
answer_request-Authorized_example =
    answer_request-Authorized floats unmarshal bcrypt (λ a b. true) jwt 9 header get_courses noon
      refl

-- A header, a new teacher, and a student who is there already.
abbrev file : List (Option Row)
file =
    some (90 ∷ 91 ∷ 92 ∷ 93 ∷ []) ∷ some (3 ∷ 44 ∷ 45 ∷ 46 ∷ []) ∷ some (2 ∷ 47 ∷ 20 ∷ 48 ∷ []) ∷ []
