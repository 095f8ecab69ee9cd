-- ===== src/Programs/Scratch/Publishing.antt =====
-- What scratch/scratch.cpp opens it gives back, and what it publishes.
use natsclient_cpp.Client.Connection
use natsclient_cpp.Programs.Session.Closing.{Accounts}
