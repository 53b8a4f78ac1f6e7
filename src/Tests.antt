-- ===== src/Tests.antt =====
-- Runs of the model on small inputs, and the theorems at concrete inputs.
mod Routes
mod VueRoutes
mod Tabs
mod Uploads
mod Chats
mod Streams
mod Pdfs
mod FileLists
mod Accounts
mod Requests
mod Tables
mod Pages
