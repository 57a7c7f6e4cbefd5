-- ===== src/Analytics.antt =====
-- The pure measures of src/meshchat/analytics.
pub mod Rates
pub mod Hops
pub mod Classifier
pub mod Intel
