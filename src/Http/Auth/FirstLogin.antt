-- ===== src/Http/Auth/FirstLogin.antt =====
-- What a sign-in does to the table of users: `GetByID` and `Upsert` in `RequireSupabaseAuth` of
-- control-plane/internal/auth/middleware.go.
use mesh_vpn.Store.Users
use mesh_vpn.Store.Users.{User, UserTable, UserStore}
use mesh_vpn.Text.{Text}
use mesh_vpn.Base.{
  List, Option, [], false, arith, first, none, refl, set_first, some, true, ℕ, ◌∷◌, ◌≡◌,
}
use mesh_vpn.Http.Auth.{Identity, first_login, load_from, load_user, signed_in}
use mesh_vpn.Text.Laws.{text_eq_iff, text_eq_refl}

-- The row of an id after its overwriting.
first-overwritten :
    (now : ℕ) (new user : User) (rows : UserTable)
    → first (Users.has_user_id new.user_id) rows ≡ some user
    → first
        (Users.has_user_id new.user_id)
        (set_first (Users.has_user_id new.user_id) (Users.overwritten now new) rows)
      ≡ some (Users.overwritten now new user)
unfolding first set_first
first-overwritten now new user [] h = cc
first-overwritten now new user (row ∷ rows) h = ground (
  arith,
  text_eq_refl new.user_id,
  text_eq_iff row.user_id new.user_id,
  first-overwritten now new user rows,
)

-- A user of an identity who has never subscribed.
abbrev pub as_new : Identity → ℕ → ℕ → User
as_new who created updated = record {
  user_id = who.sub;
  email = who.email;
  provider = who.provider;
  is_subscriber = false;
  subscription_tier = [];
  created_at = created;
  updated_at = updated;
}

-- A user who is stored and can be read is signed in as he is stored, and nothing is written. But where
-- the read fails and the write behind it does not, he is signed in as one who has never subscribed, with
-- the email and the provider of the token, and that is his row from then on, whatever it was; only the
-- time of its creation stays.
pub load_user-stored :
    (now : ℕ) (who : Identity) (user : User) (rows : UserTable) (text : Text)
    (faults : List (Option Text))
    → first (Users.has_user_id who.sub) rows ≡ some user
    → Users.is_scannable user ≡ true
    → let load = load_user (some Users.user_repository) now who in
      let calm = load (record { rows = rows; faults = [] }) in
      let failing = load (record { rows = rows; faults = some text ∷ none ∷ faults }) in
      (calm.0 ≡ signed_in who (some user))
      × (calm.1.rows ≡ rows)
      × (failing.0 ≡ signed_in who (some (as_new who 0 0)))
      × (first (Users.has_user_id who.sub) failing.1.rows ≡ some (as_new who user.created_at now))
unfolding load_user load_from Users.user_statement Users.get_by_id Users.upsert
load_user-stored now who user rows text faults stored readable = (
  rw (stored, readable) refl,
  rw (stored, readable) refl,
  refl,
  rw stored (first-overwritten now (first_login who) user rows stored),
)
