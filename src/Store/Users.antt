-- ===== src/Store/Users.antt =====
-- The table `users` and the statements of control-plane/internal/store/postgres_users.go. A row is held as
-- the user that it was written from. Email, provider and tier are written through `NULLIF`, so that a
-- column is NULL exactly where the text is empty; `provider` is scanned into a Go string, which fails on
-- NULL. A time of zero is the one that `IsZero` tests for. The errors of this repository are told apart
-- by their texts alone.
use mesh_vpn.Store.Errors.{Exec, database, err, ok, Result}
use mesh_vpn.Text.{Text, codes, is_empty, text_eq}
use mesh_vpn.Base.{
  Bool, List, Option, [], first, if◌then◌else◌, keep, ltb, none, not, set_first, some, update_first,
  ℕ, ◌&&◌, ◌++◌, ◌==◌, ◌∷◌,
}
use mesh_vpn.Base.Sorting.{sort_by}

pub record User : Type 0 where
  pub user_id : Text
  pub email : Text
  pub provider : Text
  pub is_subscriber : Bool
  pub subscription_tier : Text
  pub created_at : ℕ
  pub updated_at : ℕ

abbrev pub UserTable : Type 0
UserTable = List User

-- The repository as the sign-in uses it.
pub record UserRepository (S : Type 0) : Type 0 where
  pub get_by_id : Text → Exec S User
  pub upsert : ℕ → User → Exec S (Unit {0})

abbrev pub has_user_id : Text → User → Bool
has_user_id id user = text_eq user.user_id id

-- A NULL equals nothing.
abbrev pub has_email : Text → User → Bool
has_email email user = not (is_empty user.email) && text_eq user.email email

-- Whether `Scan` succeeds.
abbrev pub is_scannable : User → Bool
is_scannable user = not (is_empty user.provider)

abbrev pub scanned : Option User → Result User
scanned none = err (database (codes "user not found"))
scanned (some user) =
    if is_scannable user then ok user else err (database (codes "query user: scan NULL"))

unfoldable pub get_by_id : Text → Exec UserTable User
unfolding first
get_by_id id rows = (scanned (first (has_user_id id) rows), rows)

unfoldable pub get_by_email : Text → Exec UserTable User
unfolding first
get_by_email email rows = (scanned (first (has_email email) rows), rows)

-- The row that is inserted.
abbrev pub new_user : ℕ → User → User
new_user now user = record user {
  created_at = (if user.created_at == 0 then now else user.created_at);
  updated_at = now;
}

-- `ON CONFLICT`: the time of creation stays.
abbrev pub overwritten : ℕ → User → User → User
overwritten now user old = record user { created_at = old.created_at; updated_at = now }

unfoldable pub upsert : ℕ → User → Exec UserTable (Unit {0})
unfolding first set_first
upsert now user rows = (
  ok tt,
  elim (first (has_user_id user.user_id) rows) [
    | none ↦ rows ++ new_user now user ∷ []
    | some old ↦ set_first (has_user_id user.user_id) (overwritten now user) rows
  ],
)

abbrev pub subscribed : ℕ → Bool → Text → User → User
subscribed now subscriber tier user = record user {
  is_subscriber = subscriber;
  subscription_tier = tier;
  updated_at = now;
}

unfoldable pub update_subscription : ℕ → Text → Bool → Text → Exec UserTable (Unit {0})
unfolding update_first
update_subscription now id subscriber tier rows =
    elim (update_first (has_user_id id) (subscribed now subscriber tier) rows) [
      | none ↦ (err (database (codes "user not found")), rows)
      | some (user, rows') ↦ (ok tt, rows')
    ]

-- `ORDER BY created_at DESC`; rows that do not scan are skipped.
abbrev pub created_later : User → User → Bool
created_later u v = ltb v.created_at u.created_at

unfoldable pub list_users : UserTable → List User
unfolding keep sort_by
list_users rows = keep is_scannable (sort_by created_later rows)

-- The table under a driver that fails as a list says, a statement at a time.
pub record UserStore : Type 0 where
  pub rows : UserTable
  pub faults : List (Option Text)

abbrev on_rows : {A : Type 0} → Exec UserTable A → Exec UserStore A
on_rows m st = let (r, rows) = m st.rows in (r, record st { rows = rows })

abbrev statement_under : {A : Type 0} → List (Option Text) → Exec UserTable A → Exec UserStore A
statement_under [] m st = on_rows m st
statement_under (none ∷ faults) m st = on_rows m (record st { faults = faults })
statement_under (some text ∷ faults) m st = (err (database text), record st { faults = faults })

unfoldable pub user_statement : {A : Type 0} → Exec UserTable A → Exec UserStore A
user_statement m st = statement_under st.faults m st

abbrev pub user_repository : UserRepository UserStore
user_repository = record {
  get_by_id = λ id. user_statement (get_by_id id);
  upsert = λ now user. user_statement (upsert now user);
}
