-- ===== src/Tools.antt =====
-- The tools that the agents call (app/tools).
pub mod ScopedQueries
pub mod Double
pub mod Negotiation
pub mod Answers
pub mod Grading
pub mod Questionnaire
pub mod TradeIn
pub mod Shipping
