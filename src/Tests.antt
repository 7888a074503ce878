-- ===== src/Tests.antt =====
-- Concrete documents, files and processes, at which the theorems of the other modules apply.
mod Runtime
mod Lists
mod Prepared
mod Scripts
mod Hosts
mod Hosting
mod Fixtures
mod Values
mod Python
mod Data
mod Processes
mod Components
mod Building
