-- ===== src/Notifications/Inbox.antt =====
-- What the inbox of a user shows after each operation.
use mathlib.Core.Option
use vault_api.Prelude.{
  ℕ, ◌+◌, ◌≡◌, ◌≢◌, refl, ap, ◌∙◌, arith, Bool, ◌&&◌, Option, none, some, Among, ltb, nat_eq,
  if◌then◌else◌, inl, inr, Option-cases,
}
use vault_api.Http.Action.{ok}
use vault_api.Orm.{Repository, IsLawful, row}
use vault_api.Notifications.Entity.{Notification}
use vault_api.Notifications.{mark_all_as_read, delete_old, is_unread, as_read, retention_ms}

module _ {Db : Type 0} (notifications : Repository Notification Db)
    (L : IsLawful (λ n. n.id) notifications) where
  abbrev notification : ℕ → Db → Option Notification
  notification = row (λ n. n.id) notifications

  -- Once all are marked, no notification of the user is unread, and every row of another user is as
  -- it was.
  pub mark_all_as_read-ok :
      (now u count : ℕ) (db db' : Db)
      → mark_all_as_read notifications now u db ≡ (ok count, db')
      → ((n : Notification) → Among n (notifications.find (is_unread notifications u) db') → ⊥)
        × ((j : ℕ) (n : Notification)
            → notification j db ≡ some n
            → n.user_id ≢ u
            → notification j db' ≡ some n)
  unfolding mark_all_as_read
  mark_all_as_read-ok now u count db db' h = (
    λ n m.
        let (unread, stored) = (L.among-find (is_unread notifications u) db' n).0 m in
        let updated = L.row-update (is_unread notifications u) (as_read now) db n.id (λ _. refl) in
        elim (Option-cases (notification n.id db)) [
          | inl gone ↦ absurd (ground (arith, updated, stored))
          | inr (old, was) ↦ ground (arith, updated, stored, unread)
        ],
    λ j n was other.
        ground (arith, L.row-update (is_unread notifications u) (as_read now) db j (λ _. refl)),
  )

  -- The cleaning takes away exactly what is read and older than ninety days.
  pub delete_old-ok :
      (now j : ℕ) (db db' : Db) (n : Notification)
      → delete_old notifications now db ≡ (ok tt, db')
      → notification j db ≡ some n
      → notification j db'
        ≡ (if ltb (n.created_at + 7776000000) now && n.is_read then none else some n)
  unfolding delete_old Option.bind
  delete_old-ok now j db db' n h was =
      let is_old : Notification → Bool = λ n. ltb (n.created_at + retention_ms) now && n.is_read in
      let after : db' ≡ notifications.delete is_old db = ground arith in
      ap (notification j) after
      ∙ L.row-delete is_old db j
      ∙ ap (λ o. Option.bind o (λ n. if is_old n then none else some n)) was
