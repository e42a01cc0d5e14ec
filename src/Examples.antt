-- ===== src/Examples.antt =====
-- The theorems at concrete calls, stores and settings.
mod Calls
mod Claims
mod Sweeps
mod Recorded
mod Sorting
mod Histories
mod Offers
mod Lifetimes
mod Stores
mod Lives
mod Legs
mod Transfers
mod Controls
mod Numbers
mod Phones
