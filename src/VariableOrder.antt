-- ===== src/VariableOrder.antt =====
-- pkg/model/api/v1/utils/variable_build_order.go: in which order the variables of a dashboard can be
-- computed, from the references between them.
pub mod Graph
pub mod Dependencies
