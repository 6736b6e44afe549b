-- ===== src/Order.antt =====
-- src/mini_agent/core/order.py, and the normalisation of order numbers in core/request_processing.py.
pub mod Number
pub mod Lookup
