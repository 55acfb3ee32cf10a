-- ===== src/Samples.antt =====
-- Concrete inputs for the theorems, and small runs of the model.
mod Networks
mod Replies
mod Instances
mod Systems
mod Started
mod Mixed
mod Described
mod Configured
mod Setup
