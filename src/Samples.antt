-- ===== src/Samples.antt =====
-- Concrete packets, runs of the model on them, and the theorems at these inputs.
mod Wire
mod Names
mod Rules
mod Lists
mod Insertion
mod Resolvers
mod Queries
mod Flights
mod Store
mod Cache
mod Settings
mod Guards
mod Changes
