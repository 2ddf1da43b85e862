-- ===== src/Notification/Devices.antt =====
-- Device tokens (server/internal/notification/devicetoken.go, and lookupDeviceToken of fcm.go).
use at_app.Base.{
  true, false, Bool, ◌||◌, ◌&&◌, Option, none, some, ◌≡◌, refl, arith, ◌==◌, select, first,
  update_where, if◌then◌else◌, String, select-update_where,
}
use at_app.Store.{Uuid, Text, User, Database}
use at_app.Store.Rls.{admits}
use at_app.Store.Isolation.{foreign, admits-foreign, outside-users}
use at_app.World.{
  World, Result, ok, err, Svc, ◌>>=◌, ◌>>◌, pure, query, statement, with_tenant, in_tx, always,
  never,
}
use at_app.World.Promises
use at_app.World.Promises.{Follows, promise_rules}
use at_app.World.Isolation.{Isolated, Confined, Isolated-IsPromise, Confined-in_tx}
use at_app.Auth.Accounts.{writable}
use at_app.Auth.Handlers.{
  Response, json, Handler, refuse, bad_request, respond, write_service_error,
}

-- UPDATE users SET fcm_token = $1 WHERE id = $2; the number of rows is not asked for.
unfoldable pub update_token : Uuid → Text → World → Option (Unit {0} × Database)
update_token user token w = some (
  tt,
  record (w.db) {
    users = update_where (writable w user) (λ u. record u { fcm_token = some token }) w.db.users;
  },
)

unfoldable pub register_device_token : Uuid → Uuid → Text → Svc (Unit {0})
unfolding update_token
register_device_token college user token =
    in_tx always (do with_tenant college; statement (update_token user token))

unfoldable pub token_response : Result (Unit {0}) → Response String
unfolding write_service_error
token_response (ok u) = json 200 "device token registered"
token_response (err e) = write_service_error e

-- A body that does not decode is `none`.
unfoldable pub handle_register_device_token : Uuid → Uuid → Option Text → Handler String
unfolding register_device_token token_response bad_request refuse respond
handle_register_device_token college user body =
    if college == 0 || user == 0
    then refuse 401 "unauthorized: missing token context information"
    else elim body [
      | none ↦ bad_request "invalid request body"
      | some token ↦ respond token_response (register_device_token college user token)
    ]

-- `sql.NullString`: no row, NULL and the empty text are all the empty text.
unfoldable pub token_text : Option User → Text
token_text none = 0
token_text (some u) = elim u.fcm_token [ none ↦ 0 | some t ↦ t ]

-- SELECT fcm_token FROM users WHERE id = $1, in a transaction that is rolled back
unfoldable pub lookup_device_token : Uuid → Uuid → Svc Text
unfolding token_text
lookup_device_token college user = in_tx never (do
  with_tenant college
  found ← query (λ d. first (select (λ u. u.id == user) d.users))
  pure (token_text found))

module _ (c : Uuid) where
  update_token_inv :
      (user : Uuid) (token : Text) (w : World) (u : Unit {0}) (d : Database)
      → update_token user token w ≡ some (u, d)
      → d ≡ record (w.db) {
        users =
            update_where (writable w user) (λ u. record u { fcm_token = some token }) w.db.users;
      }
  unfolding update_token
  update_token_inv user token w u d h = ground arith

  update_token-Isolated :
      (user : Uuid) (token : Text) (w : World) (u : Unit {0}) (d : Database)
      → update_token user token w ≡ some (u, d)
      → Isolated c w (record w { db = d })
  update_token-Isolated user token w u d h = record {
    same_env = refl;
    kept = λ r t. (
      t,
      rw (update_token_inv user token w u d h) (
          outside-users c w.db _ (
            select-update_where _ _ (λ x. record x { fcm_token = some token }) w.db.users
              (λ x k.
                touched x (admits w.env.rls w.tenant x.college_id) (x.id == user)
                  (admits-foreign c x.college_id r t) k))),
    );
  }
    where
      touched :
          (x : User) (a b : Bool)
          → (a ≡ true → foreign c x.college_id ≡ false)
          → (a && b) ≡ true
          → (foreign c x.college_id ≡ false) × (foreign c x.college_id ≡ false)
      touched x a b h e = ground arith

  pub register_device_token-Confined :
      (user : Uuid) (token : Text) → Follows (Confined c) (register_device_token c user token)
  unfolding register_device_token
  register_device_token-Confined user token =
      Confined-in_tx c _ _ (λ u.
        Promises.Follows-statement (Isolated-IsPromise c) _ (update_token-Isolated user token))
