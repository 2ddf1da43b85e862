-- ===== src/Guarantees/Checkins.antt =====
-- Submitting a check-in (server/internal/verification/service.go).
use at_app.Base.{◌≡◌, false, arith, some, sym, ap, subst, ◌∙◌, refl}
use at_app.Base.Floats.{Float, Floats}
use at_app.Store.{Uuid, Text, Code, accepted, rejected}
use at_app.World.{World, ok}
use at_app.Base.{true}
use at_app.Base.Int.{pos, leb_ℤ, ltb_ℤ}
use at_app.Verification.Signals.{Policy, Unmarshal, load_policy, Signals, matched_count, outcome}
use at_app.Verification.Checkin.{CheckinResult, find_policy, submit_checkin}
use at_app.Verification.Accepted.{Answered, taken, refused, turned_away, submit_checkin-Ends}
use at_app.Session.Started.{seen_by}

-- More than three signals never match.
outcome-unreachable :
    (p : Policy) (s : Signals) → ltb_ℤ (pos 3) p.n_required ≡ true → outcome p s ≡ rejected
unfolding outcome matched_count
outcome-unreachable p s h = ground (arith, h)

some-injective : {A : Type 0} {a b : A} → some a ≡ some b → a ≡ b
some-injective h = cc

pub submit_checkin-Answered :
    (fl : Floats) (unmarshal : Unmarshal) (c student : Uuid) (code : Code) (bssid : Text)
    (lat lng : Float) (w : World) (r : CheckinResult)
    → (submit_checkin fl unmarshal c student code bssid lat lng w).0 ≡ ok r
    → Answered fl unmarshal c student code bssid lat lng w r
        (submit_checkin fl unmarshal c student code bssid lat lng w).1
submit_checkin-Answered fl unmarshal c student code bssid lat lng w r h =
    (submit_checkin-Ends fl unmarshal c student code bssid lat lng w).at r h

-- A check-in under a policy that asks for more than the three signals is never accepted, and no
-- attendance record changes.
pub submit_checkin-unreachable :
    (fl : Floats) (unmarshal : Unmarshal) (c student : Uuid) (code : Code) (bssid : Text)
    (lat lng : Float) (w : World) (r : CheckinResult) (raw : Text)
    → find_policy c (seen_by c w) ≡ some raw
    → ltb_ℤ (pos 3) (load_policy unmarshal raw).n_required ≡ true
    → (submit_checkin fl unmarshal c student code bssid lat lng w).0 ≡ ok r
    → (r.result ≡ rejected)
      × ((submit_checkin fl unmarshal c student code bssid lat lng w).1.db.attendance_records
          ≡ w.db.attendance_records)
submit_checkin-unreachable fl unmarshal c student code bssid lat lng w r raw p h e =
    answer r _ p h (submit_checkin-Answered fl unmarshal c student code bssid lat lng w r e)
  where
    answer :
        (r : CheckinResult) (v : World)
        → find_policy c (seen_by c w) ≡ some raw
        → ltb_ℤ (pos 3) (load_policy unmarshal raw).n_required ≡ true
        → Answered fl unmarshal c student code bssid lat lng w r v
        → (r.result ≡ rejected) × (v.db.attendance_records ≡ w.db.attendance_records)
    answer r v p h (taken cs k d e) =
        let same : raw ≡ k.raw = some-injective (sym p ∙ k.found_policy) in
        let never =
          outcome-unreachable (load_policy unmarshal k.raw) k.signals
            (subst (λ x. ltb_ℤ (pos 3) (load_policy unmarshal x).n_required ≡ true) same h) in
        let clash : rejected ≡ accepted = sym never ∙ k.decided in cc
    answer r v p h (refused reason cs k same e) = (refl, same)
    answer r v p h (turned_away reason why d k) = (refl, ap (λ y. y.attendance_records) d)

-- Whatever the college's policy column holds, the policy in force asks for at least one signal and
-- allows at least one attempt.
pub load_policy-positive :
    (unmarshal : Unmarshal) (raw : Text)
    → (leb_ℤ (load_policy unmarshal raw).n_required (pos 0) ≡ false)
      × (leb_ℤ (load_policy unmarshal raw).max_attempts (pos 0) ≡ false)
unfolding load_policy
load_policy-positive unmarshal raw = ground arith
