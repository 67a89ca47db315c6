-- ===== src/Transfers/Notified.antt =====
-- The notification and the deliveries that createIdempotent leaves
-- (backend/src/modules/notifications/notifications.service.ts).
use project_logictic.Prelude.{
  ◌≡◌, true, refl, List, [], ◌∷◌, ◌++◌, All, any_of, Bool-cases, inl, inr, arith, sym, ◌∙◌,
  if◌then◌else◌,
}
use mathlib.Core.Path.{subst}
use project_logictic.Prelude.Eq.{nat_eq}
use project_logictic.Store.{Store, Notification, after}
use project_logictic.Transfers.Receive.{same_event, add_deliveries, create_idempotent}
use project_logictic.Transfers.Deliveries.{
  any_of-last, same_event_refl, is_delivered, add_deliveries-is_delivered, add_deliveries-known,
}

module _ (input : Notification) where
  -- The notifications after the first `createMany`.
  abbrev created : Store → List Notification
  created s =
      if any_of (same_event input) s.notifications
      then s.notifications
      else s.notifications ++ (input ∷ [])

  created-any_of : (s : Store) → any_of (same_event input) (created s) ≡ true
  created-any_of s = elim (Bool-cases (any_of (same_event input) s.notifications)) [
    | inl known ↦ ground arith
    | inr fresh ↦
        ground (arith, any_of-last (same_event input) s.notifications input (same_event_refl input))
  ]

  abbrev delivered : Store → Store
  delivered s = record s {
    notifications = created s;
    notification_deliveries = add_deliveries input (created s) s.notification_deliveries;
  }

  -- The database after `createIdempotent`.
  abbrev pub notified : Store → Store
  notified s = after s (create_idempotent input s)

  notified-delivered : (s : Store) → notified s ≡ delivered s
  unfolding create_idempotent
  notified-delivered s = elim (Bool-cases (any_of (same_event input) s.notifications)) [
    | inl known ↦ rw known refl
    | inr fresh ↦ rw fresh refl
  ]

  delivered-again : (s : Store) → delivered (delivered s) ≡ delivered s
  delivered-again s =
      rw
        (
          created-any_of s,
          add_deliveries-known input (created s)
              (add_deliveries input (created s) s.notification_deliveries)
              (add_deliveries-is_delivered input (created s) s.notification_deliveries),
        )
        refl

-- The input's user has a notification with its key afterwards, and each such notification has a
-- delivery on every channel; createIdempotent with the same input once more changes nothing.
pub create_idempotent-Repeats :
    (input : Notification) (s : Store)
    → (any_of (same_event input) (notified input s).notifications ≡ true)
      × (All
            (λ n. is_delivered input (notified input s).notification_deliveries n ≡ true)
            (notified input s).notifications
          × (notified input (notified input s) ≡ notified input s))
create_idempotent-Repeats input s =
    subst
      (λ t.
        (any_of (same_event input) t.notifications ≡ true)
        × (All (λ n. is_delivered input t.notification_deliveries n ≡ true) t.notifications
            × (notified input t ≡ t)))
      (sym (notified-delivered input s))
      (
        created-any_of input s,
        (
          add_deliveries-is_delivered input (created input s) s.notification_deliveries,
          notified-delivered input (delivered input s) ∙ delivered-again input s,
        ),
      )
