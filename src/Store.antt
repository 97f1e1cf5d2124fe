-- ===== src/Store.antt =====
-- The database of prisma/schema.prisma as a value, and a request's statements on it.
-- An identifier is a number: the code compares identifiers for equality and, to lock rows in a
-- fixed order, by `<`. Number 0 is the empty text, which JavaScript's truth tests take for absent.
-- `createdAt`, `updatedAt` and columns that no modelled code reads are left out.
pub mod Keys
pub mod Accounts
pub mod Schema
pub mod Action
pub mod Loops
