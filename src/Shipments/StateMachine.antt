-- ===== src/Shipments/StateMachine.antt =====
-- modules/shipments/services/state-machine.service.ts.
use trackora.Base.{Bool, List, [], ◌∷◌, ◌||◌}
use trackora.Model.Enums.{ShipmentStatus, includes, shipment_status_enum, ◌===◌}
use ShipmentStatus.{
  pending, picked_up, in_warehouse, out_for_delivery, delivered, failed, postponed, returned,
  cancelled,
}

unfoldable pub transition_matrix : ShipmentStatus → List ShipmentStatus
transition_matrix pending = picked_up ∷ cancelled ∷ []
transition_matrix picked_up = in_warehouse ∷ out_for_delivery ∷ failed ∷ cancelled ∷ []
transition_matrix in_warehouse = out_for_delivery ∷ failed ∷ []
transition_matrix out_for_delivery = delivered ∷ failed ∷ postponed ∷ returned ∷ []
transition_matrix delivered = []
transition_matrix failed = out_for_delivery ∷ returned ∷ []
transition_matrix postponed = out_for_delivery ∷ failed ∷ []
transition_matrix returned = []
transition_matrix cancelled = []

abbrev pub terminal_statuses : List ShipmentStatus
terminal_statuses = delivered ∷ returned ∷ cancelled ∷ []

-- `validateTransition` returns (`true`) or throws the ConflictException (`false`).
unfoldable pub validate_transition : ShipmentStatus → ShipmentStatus → Bool → Bool
unfolding transition_matrix
validate_transition current new allow_override =
    current === new || includes (transition_matrix current) new || allow_override

unfoldable pub is_terminal_status : ShipmentStatus → Bool
is_terminal_status status = includes terminal_statuses status
