-- ===== src/Transfers/Deliveries.antt =====
-- The delivery rows of createIdempotent
-- (backend/src/modules/notifications/notifications.service.ts).
use project_logictic.Prelude.{
  ◌≡◌, Bool, true, false, not, ◌||◌, ◌&&◌, refl, List, [], ◌∷◌, ◌++◌, All, any_of, Bool-cases, inl,
  inr, arith, sym,
}
use mathlib.Core.Path.{subst}
use project_logictic.Prelude.Eq.{nat_eq}
use project_logictic.Schema.{NotificationDeliveryChannel}
use project_logictic.Store.{Notification, NotificationDelivery, EventKey, warehouse_destination}
use project_logictic.Transfers.Receive.{
  same_key, same_channel, same_event, same_delivery, add_delivery, delivery_of, add_deliveries,
}

any_of-append :
    {A : Type 0} (p : A → Bool) (xs ys : List A) → any_of p xs ≡ true → any_of p (xs ++ ys) ≡ true
unfolding any_of
any_of-append p [] ys h = cc
any_of-append p (x ∷ xs) ys h = ground (arith, any_of-append p xs ys)

pub any_of-last :
    {A : Type 0} (p : A → Bool) (xs : List A) (x : A)
    → p x ≡ true
    → any_of p (xs ++ (x ∷ [])) ≡ true
unfolding any_of
any_of-last p [] x h = ground arith
any_of-last p (y ∷ ys) x h = ground (arith, any_of-last p ys x h)

same_channel_refl : (c : NotificationDeliveryChannel) → same_channel c c ≡ true
same_channel_refl NotificationDeliveryChannel.realtime = refl
same_channel_refl NotificationDeliveryChannel.email = refl

same_key_refl : (k : EventKey) → same_key k k ≡ true
same_key_refl (warehouse_destination shipment warehouse) = ground arith

pub same_event_refl : (n : Notification) → same_event n n ≡ true
same_event_refl n = ground (arith, same_key_refl n.event_key)

same_delivery_refl : (d : NotificationDelivery) → same_delivery d d ≡ true
same_delivery_refl d = ground (arith, same_key_refl d.event_key, same_channel_refl d.channel)

module _ (delivery : NotificationDelivery) (known : List NotificationDelivery) where
  add_delivery-keeps :
      (p : NotificationDelivery → Bool)
      → any_of p known ≡ true
      → any_of p (add_delivery delivery known) ≡ true
  unfolding add_delivery
  add_delivery-keeps p h = ground (arith, any_of-append p known (delivery ∷ []) h)

  add_delivery-any_of : any_of (same_delivery delivery) (add_delivery delivery known) ≡ true
  unfolding add_delivery
  add_delivery-any_of =
      ground
        (arith, any_of-last (same_delivery delivery) known delivery (same_delivery_refl delivery))

  add_delivery-known :
      any_of (same_delivery delivery) known ≡ true → add_delivery delivery known ≡ known
  unfolding add_delivery
  add_delivery-known h = ground arith

-- A row that is no notification of the input, or has its delivery on each channel.
abbrev pub is_delivered : Notification → List NotificationDelivery → Notification → Bool
is_delivered input deliveries n =
    not (same_event input n)
    || any_of (same_delivery (delivery_of NotificationDeliveryChannel.realtime n)) deliveries
      && any_of (same_delivery (delivery_of NotificationDeliveryChannel.email n)) deliveries

-- The deliveries of one notification are added.
abbrev with_both : Notification → List NotificationDelivery → List NotificationDelivery
with_both n known =
    add_delivery (delivery_of NotificationDeliveryChannel.email n)
      (add_delivery (delivery_of NotificationDeliveryChannel.realtime n) known)

module _ (n : Notification) (known : List NotificationDelivery) where
  with_both-realtime :
      any_of
        (same_delivery (delivery_of NotificationDeliveryChannel.realtime n))
        (with_both n known)
      ≡ true
  with_both-realtime =
      add_delivery-keeps (delivery_of NotificationDeliveryChannel.email n) _
        (same_delivery (delivery_of NotificationDeliveryChannel.realtime n))
        (add_delivery-any_of (delivery_of NotificationDeliveryChannel.realtime n) known)

  with_both-email :
      any_of (same_delivery (delivery_of NotificationDeliveryChannel.email n)) (with_both n known)
      ≡ true
  with_both-email = add_delivery-any_of (delivery_of NotificationDeliveryChannel.email n) _

module _ (input : Notification) where
  add_deliveries-keeps :
      (p : NotificationDelivery → Bool) (notifications : List Notification)
      (known : List NotificationDelivery)
      → any_of p known ≡ true
      → any_of p (add_deliveries input notifications known) ≡ true
  unfolding add_deliveries
  add_deliveries-keeps p [] known h = h
  add_deliveries-keeps p (n ∷ notifications) known h = elim (Bool-cases (same_event input n)) [
    | inl asked ↦ rw asked (
        add_deliveries-keeps p notifications _ (
          add_delivery-keeps (delivery_of NotificationDeliveryChannel.email n) _ p
            (add_delivery-keeps (delivery_of NotificationDeliveryChannel.realtime n) known p h)))
    | inr other ↦ rw other (add_deliveries-keeps p notifications known h)
  ]

  add_deliveries-asked :
      (n : Notification) (notifications : List Notification) (known : List NotificationDelivery)
      → same_event input n ≡ true
      → add_deliveries input (n ∷ notifications) known
        ≡ add_deliveries input notifications (with_both n known)
  unfolding add_deliveries
  add_deliveries-asked n notifications known asked = rw asked refl

  add_deliveries-other :
      (n : Notification) (notifications : List Notification) (known : List NotificationDelivery)
      → same_event input n ≡ false
      → add_deliveries input (n ∷ notifications) known ≡ add_deliveries input notifications known
  unfolding add_deliveries
  add_deliveries-other n notifications known other = rw other refl

  pub add_deliveries-is_delivered :
      (notifications : List Notification) (known : List NotificationDelivery)
      → All
          (λ n. is_delivered input (add_deliveries input notifications known) n ≡ true)
          notifications
  add_deliveries-is_delivered [] known = tt
  add_deliveries-is_delivered (n ∷ notifications) known = elim (Bool-cases (same_event input n)) [
    | inl asked ↦
        subst (λ ds. All (λ m. is_delivered input ds m ≡ true) (n ∷ notifications))
          (sym (add_deliveries-asked n notifications known asked))
          (
            ground (
              arith,
              add_deliveries-keeps
                  (same_delivery (delivery_of NotificationDeliveryChannel.realtime n)) notifications
                  (with_both n known) (with_both-realtime n known),
              add_deliveries-keeps (same_delivery (delivery_of NotificationDeliveryChannel.email n))
                  notifications (with_both n known) (with_both-email n known),
            ),
            add_deliveries-is_delivered notifications (with_both n known),
          )
    | inr other ↦
        subst (λ ds. All (λ m. is_delivered input ds m ≡ true) (n ∷ notifications))
          (sym (add_deliveries-other n notifications known other))
          (ground arith, add_deliveries-is_delivered notifications known)
  ]

  pub add_deliveries-known :
      (notifications : List Notification) (known : List NotificationDelivery)
      → All (λ n. is_delivered input known n ≡ true) notifications
      → add_deliveries input notifications known ≡ known
  unfolding add_deliveries
  add_deliveries-known [] known h = refl
  add_deliveries-known (n ∷ notifications) known h = elim (Bool-cases (same_event input n)) [
    | inr other ↦ rw other (add_deliveries-known notifications known h.1)
    | inl asked ↦
        let realtime : add_delivery (delivery_of NotificationDeliveryChannel.realtime n) known
            ≡ known =
          add_delivery-known (delivery_of NotificationDeliveryChannel.realtime n) known
            (ground (arith, h.0)) in
        let email : add_delivery (delivery_of NotificationDeliveryChannel.email n) known ≡ known =
          add_delivery-known (delivery_of NotificationDeliveryChannel.email n) known
            (ground (arith, h.0)) in
        rw (asked, realtime, email) (add_deliveries-known notifications known h.1)
  ]
