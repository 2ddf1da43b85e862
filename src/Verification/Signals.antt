-- ===== src/Verification/Signals.antt =====
-- The signals of a check-in and the decision over them
-- (server/internal/verification/service.go, `distance` and `SubmitCheckin`).
use at_app.Base.{
  ℕ, ◌+◌, Bool, true, false, not, ◌&&◌, ◌||◌, Option, none, some, [], ◌∷◌, String, ◌==◌, same_bytes,
  if◌then◌else◌,
}
use at_app.Base.Int.{ℤ, pos, leb_ℤ, ltb_ℤ}
use at_app.Base.Floats.{Float, Floats}
use at_app.Store.{Text, Code, Section, ClassSession, CheckinOutcome, accepted, rejected}

pub record Policy : Type 0 where
  pub n_required : ℤ
  pub max_attempts : ℤ

abbrev pub default_policy : Policy
default_policy = record { n_required = pos 3; max_attempts = pos 3 }

-- The numbers of the texts `` and `{}`.
abbrev pub empty_text : Text
empty_text = 0

abbrev pub empty_object : Text
empty_object = 1

-- `json.Unmarshal` into the struct, with what it leaves there on an error.
abbrev pub Unmarshal : Type 0
Unmarshal = Text → Policy → Policy

-- Values that are not positive fall back to 3.
unfoldable pub load_policy : Unmarshal → Text → Policy
load_policy unmarshal raw =
    let decoded : Policy =
      if not (raw == empty_text) && not (raw == empty_object)
      then unmarshal raw default_policy
      else default_policy in
    record {
      n_required = if leb_ℤ decoded.n_required (pos 0) then pos 3 else decoded.n_required;
      max_attempts = if leb_ℤ decoded.max_attempts (pos 0) then pos 3 else decoded.max_attempts;
    }

-- Three columns that are all set.
unfoldable pub geofence : Option ℤ → Option ℤ → Option ℤ → Option (ℤ × ℤ × ℤ)
geofence (some lat) (some lng) (some radius) = some (lat, lng, radius)
geofence _ _ _ = none

-- A session's override counts only as a whole; else the classroom's geofence is the target.
unfoldable pub target : ClassSession → Section → Option (ℤ × ℤ × ℤ)
unfolding geofence
target cs s =
    elim (geofence cs.geofence_override_lat cs.geofence_override_lng
      cs.geofence_override_radius_m) [
        | some g ↦ some g
        | none ↦
            geofence s.classroom_geofence_lat s.classroom_geofence_lng s.classroom_geofence_radius_m
      ]

module _ (fl : Floats) where
  open fl use {add, sub, mul, div, sin, cos, sqrt, atan2, pi, le, of_int, of_numeric}

  abbrev int : ℕ → Float
  int n = of_int (pos n)

  -- The Haversine formula.
  unfoldable pub distance : Float → Float → Float → Float → Float
  distance lat1 lon1 lat2 lon2 =
      let phi1 = div (mul lat1 pi) (int 180) in
      let phi2 = div (mul lat2 pi) (int 180) in
      let delta_phi = div (mul (sub lat2 lat1) pi) (int 180) in
      let delta_lambda = div (mul (sub lon2 lon1) pi) (int 180) in
      let a = add (mul (sin (div delta_phi (int 2))) (sin (div delta_phi (int 2)))) (
        mul (mul (mul (cos phi1) (cos phi2)) (sin (div delta_lambda (int 2))))
          (sin (div delta_lambda (int 2)))) in
      let c = mul (int 2) (atan2 (sqrt a) (sqrt (sub (int 1) a))) in mul (int 6371000) c

  -- No geofence is a match. The columns have six decimals, the radius two.
  unfoldable pub geofence_match : Option (ℤ × ℤ × ℤ) → Float → Float → Bool
  unfolding distance
  geofence_match none lat lng = true
  geofence_match (some (tlat, tlng, radius)) lat lng =
      le (distance lat lng (of_numeric 6 tlat) (of_numeric 6 tlng)) (of_numeric 2 radius)

-- `activeCode, _ :=`: a missing key is the empty string.
abbrev pub or_empty : Option Code → Code
or_empty none = []
or_empty (some c) = c

abbrev pub is_empty : Code → Bool
is_empty [] = true
is_empty (b ∷ bs) = false

unfoldable pub code_match : Code → Option Code → Option Code → Bool
code_match code active prev =
    same_bytes code (or_empty active) && not (is_empty (or_empty active))
    || same_bytes code (or_empty prev) && not (is_empty (or_empty prev))

-- A classroom with no BSSID, or an empty one, takes any network.
unfoldable pub bssid_match : Text → Option Text → Bool
bssid_match submitted none = true
bssid_match submitted (some bssid) = if bssid == empty_text then true else submitted == bssid

pub record Signals : Type 0 where
  pub code : Bool
  pub bssid : Bool
  pub geo : Bool

-- matchedCount
unfoldable pub matched_count : Signals → ℕ
matched_count s =
    let one = if s.code then 1 else 0 in
    let two = if s.bssid then one + 1 else one in if s.geo then two + 1 else two

unfoldable pub rejection_reason : Signals → String
rejection_reason s =
    if not s.code
    then "invalid or expired class code"
    else if not s.bssid
    then "not connected to the classroom Wi-Fi network"
    else if not s.geo
    then "outside the classroom geofence boundary"
    else "insufficient validation signals"

unfoldable pub outcome : Policy → Signals → CheckinOutcome
unfolding matched_count
outcome p s = if ltb_ℤ (pos (matched_count s)) p.n_required then rejected else accepted
