-- ===== src/Dispatcher.antt =====
-- src/native/dns-dispatcher.cpp: the resolvers that are asked, the routes of a query, the names, and
-- the inputs that are read.
pub mod Resolvers
pub mod Routes
pub mod Names
pub mod Inputs
pub mod Queries
