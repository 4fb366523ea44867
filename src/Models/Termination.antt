-- ===== src/Models/Termination.antt =====
-- asyncgate/models/termination.py
use async_gate.Prelude.{Bool, List, [], ◌∷◌, ◌++◌, false, any}
use async_gate.Models.Enums.{ReceiptType, type_in, type_eq}

-- TERMINATION_RULES: what creates an obligation, with the types that discharge it.
abbrev pub termination_rules : List (ReceiptType × List ReceiptType)
termination_rules =
    (
      ReceiptType.task_assigned,
      ReceiptType.task_completed ∷ ReceiptType.task_failed ∷ ReceiptType.task_canceled ∷ [],
    )
    ∷ []

abbrev pub keys : List (ReceiptType × List ReceiptType) → List ReceiptType
keys [] = []
keys ((k, v) ∷ rest) = k ∷ keys rest

abbrev pub union : List (ReceiptType × List ReceiptType) → List ReceiptType
union [] = []
union ((k, v) ∷ rest) = v ++ union rest

abbrev pub terminal_receipt_types : List ReceiptType
terminal_receipt_types = union termination_rules

abbrev lookup_rule : ReceiptType → List (ReceiptType × List ReceiptType) → List ReceiptType
lookup_rule t [] = []
lookup_rule t ((k, v) ∷ rest) = elim (type_eq k t) [
  | Bool.true ↦ v
  | Bool.false ↦ lookup_rule t rest
]

unfoldable pub get_terminal_types : ReceiptType → List ReceiptType
get_terminal_types obligation_type = lookup_rule obligation_type termination_rules

unfoldable pub is_terminal_type : ReceiptType → Bool
unfolding any
is_terminal_type receipt_type = type_in receipt_type terminal_receipt_types

unfoldable pub can_terminate_type : ReceiptType → ReceiptType → Bool
unfolding any get_terminal_types
can_terminate_type terminal_type obligation_type =
    type_in terminal_type (get_terminal_types obligation_type)

unfoldable pub get_obligation_types : List ReceiptType
get_obligation_types = keys termination_rules
