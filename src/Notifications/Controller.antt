-- ===== src/Notifications/Controller.antt =====
-- `NotificationsController`. `sorted` is the order of the database, newest first.
-- Source: src/notifications/notifications.controller.ts.
use vault_api.Prelude.{ℕ, Bool, Option, List}
use vault_api.Common.Pagination.{PaginatedResult}
use vault_api.Http.Action.{Action, ◌>>=◌, gets}
use vault_api.Orm.{Repository}
use vault_api.Auth.Guards.{Principal, Access, signed_in, user_id_of}
use vault_api.Notifications.Entity.{Notification}
use vault_api.Notifications.{find_for_user, count_unread, mark_as_read, mark_all_as_read}

pub data Route : Type 0 where
  find_all : ℕ → ℕ → Bool → Route
  unread_count : Route
  mark_read : ℕ → Route
  mark_all_read : Route

unfoldable pub access : Route → Access
access _ = signed_in

abbrev pub Reply : Route → Type 0
Reply (find_all page limit unread_only) = PaginatedResult Notification × ℕ
Reply (mark_read id) = Notification
Reply _ = ℕ

module _ {Db : Type 0} (notifications : Repository Notification Db)
    (sorted : List Notification → List Notification) where
  unfoldable pub handle : ℕ → Option Principal → (route : Route) → Action Db (Reply route)
  handle now user (find_all page limit unread_only) =
      user_id_of user >>= λ u. gets (find_for_user notifications sorted u page limit unread_only)
  handle now user unread_count = user_id_of user >>= λ u. gets (count_unread notifications u)
  handle now user (mark_read id) = user_id_of user >>= λ u. mark_as_read notifications now id u
  handle now user mark_all_read = user_id_of user >>= λ u. mark_all_as_read notifications now u
