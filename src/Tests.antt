-- ===== src/Tests.antt =====
-- Runs on small inputs, and instances of the theorems.
mod Contexts
mod Equivalences
mod Numbers
mod Scopes
mod Statements
mod Trees
mod Usages
