-- ===== src/Guarantees/Endpoints.antt =====
-- Whole HTTP requests on the authenticated routes (server/main.go, server/internal/gateway and the
-- handlers).
use at_app.Base.{
  ℕ, String, ◌==◌, exists_where, subst, sym, [], ◌∷◌, Bool, true, Option, none, some, List, ◌≡◌,
  ◌⊎◌, inl, inr, refl, arith,
}
use at_app.Base.Floats.{Floats}
use at_app.Store.{Text, Time}
use at_app.Store.Rls.{outside}
use at_app.World.{World}
use at_app.Auth.Tokens.{Jwt, Secret, Claims, validate_access_token}
use at_app.Auth.Accounts.{Bcrypt}
use at_app.Verification.Signals.{Unmarshal}
use at_app.Gateway.Access.{
  Bytes, Gate, passes, answers, Identity, accept, check_token, token_part, split, auth_middleware,
  then_role, require_role, then_role-passes, auth_middleware-passes, identity_of,
}
use at_app.Endpoints.Route.{Route, role_of, with_roles, behind, dispatch, answer_request}
use at_app.Endpoints.Dispatched.{dispatch-Confined}

-- The role is the one that the route asks for, if it asks for one.
abbrev pub permits : Option (List Text) → Text → Bool
permits none role = true
permits (some allowed) role = exists_where (λ r. role == r) allowed

-- The header carried a valid access token whose role the route admits.
pub record Authorized (jwt : Jwt) (secret : Secret) (header : Bytes) (now : Time) (route : Route)
    (c : Claims) : Type 0 where
  pub token : Bytes
  pub carried : token_part (split header) ≡ some token
  pub valid : validate_access_token jwt token secret now ≡ some c
  pub may : permits (role_of route) c.role ≡ true

accept-status : (o : Option Claims) (n : ℕ) (s : String) → accept o ≡ answers n s → n ≡ 401
unfolding accept
accept-status none n s h = cc
accept-status (some c) n s h = cc

module _ (jwt : Jwt) (secret : Secret) where
  check_token-status :
      (o : Option Bytes) (now : Time) (n : ℕ) (s : String)
      → check_token jwt secret now o ≡ answers n s
      → n ≡ 401
  unfolding check_token
  check_token-status none now n s h = cc
  check_token-status (some t) now n s h = accept-status _ n s h

  auth_middleware-status :
      (header : Bytes) (now : Time) (n : ℕ) (s : String)
      → auth_middleware jwt secret header now ≡ answers n s
      → n ≡ 401
  unfolding auth_middleware
  auth_middleware-status [] now n s h = cc
  auth_middleware-status (b ∷ bs) now n s h = check_token-status _ now n s h

-- Nobody: the answer is 401 or 403.
with_roles-status :
    (roles : Option (List Text)) (g : Gate Identity) (n : ℕ) (s : String)
    → ((k : ℕ) (t : String) → g ≡ answers k t → k ≡ 401)
    → with_roles roles g ≡ answers n s
    → (n ≡ 401) ⊎ (n ≡ 403)
unfolding with_roles then_role require_role
with_roles-status none g n s q h = inl (q n s h)
with_roles-status (some allowed) (answers k t) n s q h = inl (q n s h)
with_roles-status (some allowed) (passes i) n s q h = ground arith

with_roles-passes :
    (roles : Option (List Text)) (g : Gate Identity) (i : Identity)
    → with_roles roles g ≡ passes i
    → (g ≡ passes i) × (permits roles i.role ≡ true)
unfolding with_roles
with_roles-passes none g i h = (h, refl)
with_roles-passes (some allowed) g i h = then_role-passes allowed g i h

Gate-cases :
    {A : Type 0} (g : Gate A)
    → ((n : ℕ) × (s : String) × (g ≡ answers n s)) ⊎ ((a : A) × (g ≡ passes a))
Gate-cases (answers n s) = inl (n, s, refl)
Gate-cases (passes a) = inr (a, refl)

module _ (fl : Floats) (unmarshal : Unmarshal) (bcrypt : Bcrypt) (collate : Text → Text → Bool)
    (jwt : Jwt) (secret : Secret) (header : Bytes) (route : Route) (w : World) where
  answer_refused :
      (n : ℕ) (s : String)
      → with_roles (role_of route) (auth_middleware jwt secret header w.now) ≡ answers n s
      → answer_request fl unmarshal bcrypt collate jwt secret header route w ≡ (n, w)
  unfolding answer_request behind
  answer_refused n s h = rw h refl

  answer_admitted :
      (i : Identity)
      → with_roles (role_of route) (auth_middleware jwt secret header w.now) ≡ passes i
      → answer_request fl unmarshal bcrypt collate jwt secret header route w
        ≡ dispatch fl unmarshal bcrypt collate route i w
  unfolding answer_request behind
  answer_admitted i h = rw h refl

  -- Where row-level security binds the server's role, every request on an authenticated route is
  -- answered 401 or 403 and changes nothing, or its header carried a valid access token with a role
  -- that the route admits, and it left the rows of all colleges but the token's as they were.
  pub answer_request-Authorized :
      w.env.rls ≡ true
      → (let (status, v) = answer_request fl unmarshal bcrypt collate jwt secret header route w in
          ((status ≡ 401) ⊎ (status ≡ 403)) × (v ≡ w))
        ⊎ ((c : Claims) × Authorized jwt secret header w.now route c
            × (outside c.college_id
                  (answer_request fl unmarshal bcrypt collate jwt secret header route w).1.db
                ≡ outside c.college_id w.db))
  unfolding identity_of
  answer_request-Authorized r =
      let g : Gate Identity =
        with_roles (role_of route) (auth_middleware jwt secret header w.now) in
      elim (Gate-cases g) [
        | inl (n, s, h) ↦
            let e = answer_refused n s h in
            inl (
              rw e (
                with_roles-status (role_of route) _ n s
                    (λ k t. auth_middleware-status jwt secret header w.now k t) h,
                refl,
              ))
        | inr (i, h) ↦
            let (p, may) = with_roles-passes (role_of route) _ i h in
            let (t, c, part, valid, e) = auth_middleware-passes jwt secret [] w.now header i p in
            inr (
              c,
              record {
                token = t;
                carried = part;
                valid = valid;
                may = subst (λ j. permits (role_of route) j.role ≡ true) (sym e) may;
              },
              rw (answer_admitted i h) (
                  subst
                    (λ j.
                      outside j.college_id (dispatch fl unmarshal bcrypt collate route i w).1.db
                      ≡ outside j.college_id w.db)
                    (sym e) ((dispatch-Confined fl unmarshal bcrypt collate route i w).kept r)),
            )
      ]
