-- ===== src/Tests.antt =====
-- Runs of the models on small servers and files, for the sources of example/.
mod Server
mod Wrapper
mod Listings
mod Transfers
mod Lists
mod Orders
mod Uploads
mod Screen
mod Agent
