-- ===== src/Endpoints/Confined.antt =====
-- Each handler stays in the college of the identity that it runs for.
use at_app.Base.{ℕ, Bool, true, false, Option, none, some, List, String, ◌≡◌, refl, if◌then◌else◌}
use at_app.Store.{Uuid}
use at_app.World.{World, Result, Svc}
use at_app.World.Promises.{Follows}
use at_app.World.Isolation.{Confined}
use at_app.Auth.Handlers.{Response, json, error, Handler, refuse, bad_request, respond}
use at_app.Endpoints.Teachers.{identified, with_body, required}
use at_app.Endpoints.Admins.{Form, broken, without_file, with_file, in_college, with_form}
use at_app.Endpoints.Route.{status_of}
use at_app.Admin.Import.{Row}

-- A handler that leaves the rows of other colleges alone.
pub record Stays (c : Uuid) {A : Type 0} (h : Handler A) : Type 0 where
  pub at : (w : World) → Confined c w (h w).1

abbrev pub same : (c : Uuid) (w : World) → Confined c w w
same c w = record { same_env = refl; kept = λ r. refl }

module _ (c : Uuid) {A : Type 0} where
  pub bad_request-Stays : (s : String) → Stays c {A = A} (bad_request s)
  unfolding bad_request
  bad_request-Stays s = record { at = same c }

  pub refuse-Stays : (n : ℕ) (s : String) → Stays c {A = A} (refuse n s)
  unfolding refuse
  refuse-Stays n s = record { at = same c }

  pub respond-Stays :
      {B : Type 0} (f : Result B → Response A) (m : Svc B)
      → Follows (Confined c) m
      → Stays c (respond f m)
  unfolding respond
  respond-Stays f m h = record { at = h.at }

  pub if-Stays : (b : Bool) (h k : Handler A) → Stays c h → Stays c k → Stays c (if b then h else k)
  if-Stays true h k p q = p
  if-Stays false h k p q = q

  pub identified-Stays :
      (college user : Uuid) (s : String) (h : Handler A)
      → Stays c h
      → Stays c (identified college user s h)
  unfolding identified
  identified-Stays college user s h p = if-Stays _ _ _ (refuse-Stays 401 s) p

  pub in_college-Stays :
      (college : Uuid) (h : Handler A) → Stays c h → Stays c (in_college college h)
  unfolding in_college
  in_college-Stays college h p = if-Stays _ _ _ (refuse-Stays 401 _) p

  pub required-Stays :
      (b : Bool) (s : String) (h : Handler A) → Stays c h → Stays c (required b s h)
  unfolding required
  required-Stays b s h p = if-Stays _ _ _ (bad_request-Stays s) p

  pub with_body-Stays :
      {B : Type 0} (o : Option B) (h : B → Handler A)
      → ((b : B) → Stays c (h b))
      → Stays c (with_body o h)
  unfolding with_body
  with_body-Stays none h p = bad_request-Stays _
  with_body-Stays (some b) h p = p b

  pub with_form-Stays :
      (f : Form) (h : List (Option Row) → Handler A)
      → ((l : List (Option Row)) → Stays c (h l))
      → Stays c (with_form f h)
  unfolding with_form
  with_form-Stays broken h p = bad_request-Stays _
  with_form-Stays without_file h p = bad_request-Stays _
  with_form-Stays (with_file l) h p = p l

  status_of-same : (x : Response A × World) → (status_of x).1 ≡ x.1
  unfolding status_of
  status_of-same (json n a, w) = refl
  status_of-same (error n s, w) = refl

  pub status_of-Confined :
      (h : Handler A) (w : World) → Stays c h → Confined c w (status_of (h w)).1
  status_of-Confined h w p = rw (status_of-same (h w)) (p.at w)
