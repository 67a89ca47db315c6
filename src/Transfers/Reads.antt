-- ===== src/Transfers/Reads.antt =====
-- The reads of a transfer call leave the store as it is.
use project_logictic.Prelude.{
  ℕ, ◌≡◌, none, some, inl, inr, Option-cases, arith, find_first, ◌&&◌, ◌⊎◌,
}
use project_logictic.Prelude.Eq.{◌==◌, nat_eq}
use project_logictic.Store.{
  Store, Result, ok, err, Exception, not_found, transfer_not_found, record_not_found,
}
use project_logictic.Transfers.Tables.{find_transfer, active_assignment, with_trip, transfer_by_id}

-- A call that only reads throws, or leaves the store as it is.
abbrev pub Reads : {A : Type 0} → Store → Result (A × Store) → Type 0
Reads {A} s r = ((e : Exception) × (r ≡ err e)) ⊎ ((a : A) × (r ≡ ok (a, s)))

pub find_transfer-Reads : (id : ℕ) (s : Store) → Reads s (find_transfer id s)
unfolding find_transfer
find_transfer-Reads id s = elim (Option-cases (transfer_by_id id s)) [
  | inl missing ↦ inl (not_found transfer_not_found, ground arith)
  | inr (transfer, e) ↦
      elim (Option-cases (find_first (λ row. row.id == transfer.shipment_id) s.shipments)) [
        | inl missing ↦ inl (record_not_found, ground arith)
        | inr (shipment, e2) ↦
            elim (Option-cases
              (find_first (λ row. row.id == transfer.from_warehouse_id) s.warehouses)) [
                | inl missing ↦ inl (record_not_found, ground arith)
                | inr (origin, e3) ↦
                    elim (Option-cases
                      (find_first (λ row. row.id == transfer.to_warehouse_id) s.warehouses)) [
                        | inl missing ↦ inl (record_not_found, ground arith)
                        | inr (destination, e4) ↦ inr (
                          record {
                            transfer = transfer;
                            shipment = shipment;
                            from_warehouse = origin;
                            to_warehouse = destination;
                          },
                          ground arith,
                        )
                      ]
              ]
      ]
]

pub active_assignment-Reads : (id : ℕ) (s : Store) → Reads s (active_assignment id s)
unfolding active_assignment with_trip
active_assignment-Reads id s =
    elim (Option-cases
      (find_first (λ row. row.warehouse_transfer_id == id && row.is_active) s.trip_transfers)) [
        | inl missing ↦ inr (none, ground arith)
        | inr (row, e) ↦ elim (Option-cases (find_first (λ trip. trip.id == row.trip_id) s.trips)) [
          | inl missing ↦ inl (record_not_found, ground arith)
          | inr (trip, e2) ↦ inr (some (row, trip), ground arith)
        ]
      ]
